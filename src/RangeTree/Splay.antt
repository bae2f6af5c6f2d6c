-- ===== src/RangeTree/Splay.antt =====
-- `splay` of dtree.c: top-down splaying, with the two trees under construction as lists of the
-- nodes on their inner spines, the node that the C pointers `l` and `r` point at first.
pub mod Keys
use cbop.Prelude.{
  ℕ, ◌≡◌, refl, sym, ◌∙◌, Bool, true, false, List, [], ◌∷◌, ◌++◌, arith, append_assoc, append-nil,
  ltb,
}
use cbop.RangeTree.Range.{MemRange}
use cbop.RangeTree.Tree.{Tree, leaf, node, to_list}

-- A spine: each node with the child that is not on the spine.
abbrev pub Spine : Type 0
Spine = List (MemRange × Tree)

-- `l->rc = t` and `r->lc = t`, seen from the roots `N.rc` and `N.lc`.
unfoldable pub hang_left : Spine → Tree → Tree
hang_left [] t = t
hang_left ((r, lc) ∷ l) t = hang_left l (node lc r t)

unfoldable pub hang_right : Spine → Tree → Tree
hang_right [] t = t
hang_right ((x, rc) ∷ r) t = hang_right r (node t x rc)

pub is_leaf : Tree → Bool
is_leaf leaf = true
is_leaf (node lc r rc) = false

-- After the loop.
unfoldable pub assemble : Spine → Spine → Tree → MemRange → Tree → Tree
unfolding hang_left hang_right
assemble l r lc x rc = node (hang_left l lc) x (hang_right r rc)

-- One turn of the loop. The children that the source reads through `t->lc` and `t->rc` are
-- matched, so that the recursion is structural.
unfoldable pub splay_loop : ℕ → Spine → Spine → Tree → Tree
unfolding assemble is_leaf
splay_loop key l r leaf = leaf
splay_loop key l r (node leaf x leaf) = assemble l r leaf x leaf
splay_loop key l r (node (node a y b) x leaf) = elim (ltb key x.base) [
  | true ↦ elim (ltb key y.base) [
    | true ↦ elim (is_leaf a) [
      | true ↦ assemble l r a y (node b x leaf)
      | false ↦ splay_loop key l ((y, node b x leaf) ∷ r) a
    ]
    | false ↦ splay_loop key l ((x, leaf) ∷ r) (node a y b)
  ]
  | false ↦ assemble l r (node a y b) x leaf
]
splay_loop key l r (node leaf x (node c z d)) = elim (ltb key x.base) [
  | true ↦ assemble l r leaf x (node c z d)
  | false ↦ elim (ltb x.base key) [
    | true ↦ elim (ltb z.base key) [
      | true ↦ elim (is_leaf d) [
        | true ↦ assemble l r (node leaf x c) z d
        | false ↦ splay_loop key ((z, node leaf x c) ∷ l) r d
      ]
      | false ↦ splay_loop key ((x, leaf) ∷ l) r (node c z d)
    ]
    | false ↦ assemble l r leaf x (node c z d)
  ]
]
splay_loop key l r (node (node a y b) x (node c z d)) = elim (ltb key x.base) [
  | true ↦ elim (ltb key y.base) [
    | true ↦ elim (is_leaf a) [
      | true ↦ assemble l r a y (node b x (node c z d))
      | false ↦ splay_loop key l ((y, node b x (node c z d)) ∷ r) a
    ]
    | false ↦ splay_loop key l ((x, node c z d) ∷ r) (node a y b)
  ]
  | false ↦ elim (ltb x.base key) [
    | true ↦ elim (ltb z.base key) [
      | true ↦ elim (is_leaf d) [
        | true ↦ assemble l r (node (node a y b) x c) z d
        | false ↦ splay_loop key ((z, node (node a y b) x c) ∷ l) r d
      ]
      | false ↦ splay_loop key ((x, node a y b) ∷ l) r (node c z d)
    ]
    | false ↦ assemble l r (node a y b) x (node c z d)
  ]
]

unfoldable pub splay : Tree → ℕ → Tree
unfolding splay_loop
splay t key = splay_loop key [] [] t

abbrev left_list : Spine → List MemRange
left_list [] = []
left_list ((r, lc) ∷ l) = left_list l ++ (to_list lc ++ (r ∷ []))

abbrev right_list : Spine → List MemRange
right_list [] = []
right_list ((x, rc) ∷ r) = x ∷ (to_list rc ++ right_list r)

to_list-hang_left : (l : Spine) (t : Tree) → to_list (hang_left l t) ≡ left_list l ++ to_list t
unfolding hang_left
to_list-hang_left [] t = refl
to_list-hang_left ((r, lc) ∷ l) t = simp (to_list-hang_left l, append_assoc)

to_list-hang_right : (r : Spine) (t : Tree) → to_list (hang_right r t) ≡ to_list t ++ right_list r
unfolding hang_right
to_list-hang_right [] t = sym (append-nil (to_list t))
to_list-hang_right ((x, rc) ∷ r) t = simp (to_list-hang_right r, append_assoc)

to_list-assemble :
    (l r : Spine) (lc : Tree) (x : MemRange) (rc : Tree)
    → to_list (assemble l r lc x rc) ≡ left_list l ++ (to_list (node lc x rc) ++ right_list r)
unfolding assemble
to_list-assemble l r lc x rc = simp (to_list-hang_left, to_list-hang_right, append_assoc)

-- The four places where a turn of the loop moves nodes, as equations between lists.
turn_left :
    (l r : Spine) (a b rc : Tree) (y x : MemRange)
    → left_list l ++ (to_list a ++ right_list ((y, node b x rc) ∷ r))
      ≡ left_list l ++ (to_list (node (node a y b) x rc) ++ right_list r)
turn_left l r a b rc y x = simp append_assoc

step_left :
    (l r : Spine) (lc rc : Tree) (x : MemRange)
    → left_list l ++ (to_list lc ++ right_list ((x, rc) ∷ r))
      ≡ left_list l ++ (to_list (node lc x rc) ++ right_list r)
step_left l r lc rc x = simp append_assoc

turn_right :
    (l r : Spine) (lc c d : Tree) (x z : MemRange)
    → left_list ((z, node lc x c) ∷ l) ++ (to_list d ++ right_list r)
      ≡ left_list l ++ (to_list (node lc x (node c z d)) ++ right_list r)
turn_right l r lc c d x z = simp append_assoc

step_right :
    (l r : Spine) (lc rc : Tree) (x : MemRange)
    → left_list ((x, lc) ∷ l) ++ (to_list rc ++ right_list r)
      ≡ left_list l ++ (to_list (node lc x rc) ++ right_list r)
step_right l r lc rc x = simp append_assoc

rotate_right :
    (l r : Spine) (a b rc : Tree) (y x : MemRange)
    → to_list (assemble l r a y (node b x rc))
      ≡ left_list l ++ (to_list (node (node a y b) x rc) ++ right_list r)
rotate_right l r a b rc y x = simp (to_list-assemble, append_assoc)

rotate_left :
    (l r : Spine) (lc c d : Tree) (x z : MemRange)
    → to_list (assemble l r (node lc x c) z d)
      ≡ left_list l ++ (to_list (node lc x (node c z d)) ++ right_list r)
rotate_left l r lc c d x z = simp (to_list-assemble, append_assoc)

to_list-splay_loop :
    (key : ℕ) (l r : Spine) (t : Tree)
    → is_leaf t ≡ false
    → to_list (splay_loop key l r t) ≡ left_list l ++ (to_list t ++ right_list r)
unfolding splay_loop
to_list-splay_loop key l r leaf h = cc
to_list-splay_loop key l r (node leaf x leaf) h = to_list-assemble l r leaf x leaf
to_list-splay_loop key l r (node (node a y b) x leaf) h = ground (
  arith,
  to_list-assemble l r (node a y b) x leaf,
  rotate_right l r a b leaf y x,
  turn_left l r a b leaf y x,
  step_left l r (node a y b) leaf x,
  to_list-splay_loop key l ((y, node b x leaf) ∷ r) a,
  to_list-splay_loop key l ((x, leaf) ∷ r) (node a y b),
)
to_list-splay_loop key l r (node leaf x (node c z d)) h = ground (
  arith,
  to_list-assemble l r leaf x (node c z d),
  rotate_left l r leaf c d x z,
  turn_right l r leaf c d x z,
  step_right l r leaf (node c z d) x,
  to_list-splay_loop key ((z, node leaf x c) ∷ l) r d,
  to_list-splay_loop key ((x, leaf) ∷ l) r (node c z d),
)
to_list-splay_loop key l r (node (node a y b) x (node c z d)) h = ground (
  arith,
  to_list-assemble l r (node a y b) x (node c z d),
  rotate_right l r a b (node c z d) y x,
  turn_left l r a b (node c z d) y x,
  step_left l r (node a y b) (node c z d) x,
  to_list-splay_loop key l ((y, node b x (node c z d)) ∷ r) a,
  to_list-splay_loop key l ((x, node c z d) ∷ r) (node a y b),
  rotate_left l r (node a y b) c d x z,
  turn_right l r (node a y b) c d x z,
  step_right l r (node a y b) (node c z d) x,
  to_list-splay_loop key ((z, node (node a y b) x c) ∷ l) r d,
  to_list-splay_loop key ((x, node a y b) ∷ l) r (node c z d),
)

-- Splaying keeps the ranges and their order, whatever the tree and the key are.
pub to_list-splay : (t : Tree) (key : ℕ) → to_list (splay t key) ≡ to_list t
unfolding splay
to_list-splay leaf key = refl
to_list-splay (node lc x rc) key =
    to_list-splay_loop key [] [] (node lc x rc) refl ∙ append-nil (to_list (node lc x rc))
