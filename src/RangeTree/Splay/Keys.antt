-- ===== src/RangeTree/Splay/Keys.antt =====
-- Where `splay` of dtree.c leaves the keys of a tree.
use cbop.Prelude.{ℕ, ◌+◌, ◌≤◌, ◌<◌, ◌≡◌, refl, sym, ap, ◌∙◌, true, false, [], ◌∷◌, arith, length}
use cbop.RangeTree.Range.{MemRange}
use cbop.RangeTree.Tree.{
  Tree, leaf, node, count, covers, Between, Between-le, Between-mono, Between-iff, count-le,
  covers-to_list, length-to_list,
}
use cbop.RangeTree.Splay.{
  Spine, hang_left, hang_right, is_leaf, assemble, splay_loop, splay, to_list-splay,
}

abbrev pub BasesBelow : ℕ → Tree → Type 0
BasesBelow key leaf = Unit
BasesBelow key (node lc r rc) = BasesBelow key lc × (r.base < key) × BasesBelow key rc

abbrev pub BasesAbove : ℕ → Tree → Type 0
BasesAbove key leaf = Unit
BasesAbove key (node lc r rc) = BasesAbove key lc × (key < r.base) × BasesAbove key rc

-- Ranges left of the root start before the key, ranges right of it after the key.
abbrev pub Splits : ℕ → Tree → Type 0
Splits key leaf = ⊥
Splits key (node lc r rc) = BasesBelow key lc × BasesAbove key rc

pub Between-BasesBelow : (t : Tree) (lo hi key : ℕ) → hi ≤ key → Between lo t hi → BasesBelow key t
Between-BasesBelow leaf lo hi key p h = tt
Between-BasesBelow (node lc r rc) lo hi key p h =
    let le = Between-le rc (r.base + r.size) hi h.2 in
    (
      Between-BasesBelow lc lo r.base key (omega arith) h.0,
      omega arith,
      Between-BasesBelow rc (r.base + r.size) hi key p h.2,
    )

pub Between-BasesAbove : (t : Tree) (lo hi key : ℕ) → key < lo → Between lo t hi → BasesAbove key t
Between-BasesAbove leaf lo hi key p h = tt
Between-BasesAbove (node lc r rc) lo hi key p h =
    let le = Between-le lc lo r.base h.0 in
    (
      Between-BasesAbove lc lo r.base key p h.0,
      omega arith,
      Between-BasesAbove rc (r.base + r.size) hi key (omega arith) h.2,
    )

abbrev SpineBelow : ℕ → Spine → Type 0
SpineBelow key [] = Unit
SpineBelow key ((r, lc) ∷ l) = BasesBelow key lc × (r.base < key) × SpineBelow key l

abbrev SpineAbove : ℕ → Spine → Type 0
SpineAbove key [] = Unit
SpineAbove key ((x, rc) ∷ r) = (key < x.base) × BasesAbove key rc × SpineAbove key r

hang_left-BasesBelow :
    (key : ℕ) (l : Spine) (t : Tree)
    → SpineBelow key l
    → BasesBelow key t
    → BasesBelow key (hang_left l t)
unfolding hang_left
hang_left-BasesBelow key [] t s h = h
hang_left-BasesBelow key ((r, lc) ∷ l) t s h =
    hang_left-BasesBelow key l (node lc r t) s.2 (s.0, s.1, h)

hang_right-BasesAbove :
    (key : ℕ) (r : Spine) (t : Tree)
    → SpineAbove key r
    → BasesAbove key t
    → BasesAbove key (hang_right r t)
unfolding hang_right
hang_right-BasesAbove key [] t s h = h
hang_right-BasesAbove key ((x, rc) ∷ r) t s h =
    hang_right-BasesAbove key r (node t x rc) s.2 (h, s.0, s.1)

assemble-Splits :
    (key : ℕ) (l r : Spine) (lc : Tree) (x : MemRange) (rc : Tree)
    → SpineBelow key l
    → SpineAbove key r
    → BasesBelow key lc
    → BasesAbove key rc
    → Splits key (assemble l r lc x rc)
unfolding assemble
assemble-Splits key l r lc x rc sl sr bl br =
    (hang_left-BasesBelow key l lc sl bl, hang_right-BasesAbove key r rc sr br)

splay_loop-Splits :
    (key : ℕ) (l r : Spine) (t : Tree) (lo hi : ℕ)
    → is_leaf t ≡ false
    → Between lo t hi
    → SpineBelow key l
    → SpineAbove key r
    → Splits key (splay_loop key l r t)
unfolding splay_loop
splay_loop-Splits key l r leaf lo hi e h sl sr = cc
splay_loop-Splits key l r (node leaf x leaf) lo hi e h sl sr =
    assemble-Splits key l r leaf x leaf sl sr tt tt
splay_loop-Splits key l r (node (node a y b) x leaf) lo hi e h sl sr = ground (
  arith,
  Between-BasesAbove b (y.base + y.size) x.base key,
  Between-BasesBelow (node a y b) lo x.base key,
  Between-le b (y.base + y.size) x.base h.0.2,
  assemble-Splits key l r a y (node b x leaf) sl sr,
  assemble-Splits key l r (node a y b) x leaf sl sr,
  splay_loop-Splits key l ((y, node b x leaf) ∷ r) a lo y.base,
  splay_loop-Splits key l ((x, leaf) ∷ r) (node a y b) lo x.base,
)
splay_loop-Splits key l r (node leaf x (node c z d)) lo hi e h sl sr = ground (
  arith,
  Between-BasesBelow c (x.base + x.size) z.base key,
  Between-BasesAbove (node c z d) (x.base + x.size) hi key,
  Between-le c (x.base + x.size) z.base h.2.0,
  assemble-Splits key l r leaf x (node c z d) sl sr,
  assemble-Splits key l r (node leaf x c) z d sl sr,
  Between-BasesAbove d (z.base + z.size) hi key,
  splay_loop-Splits key ((z, node leaf x c) ∷ l) r d (z.base + z.size) hi,
  splay_loop-Splits key ((x, leaf) ∷ l) r (node c z d) (x.base + x.size) hi,
)
splay_loop-Splits key l r (node (node a y b) x (node c z d)) lo hi e h sl sr = ground (
  arith,
  Between-BasesAbove b (y.base + y.size) x.base key,
  Between-BasesBelow (node a y b) lo x.base key,
  Between-le b (y.base + y.size) x.base h.0.2,
  assemble-Splits key l r a y (node b x (node c z d)) sl sr,
  assemble-Splits key l r (node a y b) x (node c z d) sl sr,
  splay_loop-Splits key l ((y, node b x (node c z d)) ∷ r) a lo y.base,
  splay_loop-Splits key l ((x, node c z d) ∷ r) (node a y b) lo x.base,
  Between-BasesBelow c (x.base + x.size) z.base key,
  Between-BasesAbove (node c z d) (x.base + x.size) hi key,
  Between-le c (x.base + x.size) z.base h.2.0,
  assemble-Splits key l r (node (node a y b) x c) z d sl sr,
  Between-BasesAbove d (z.base + z.size) hi key,
  splay_loop-Splits key ((z, node (node a y b) x c) ∷ l) r d (z.base + z.size) hi,
  splay_loop-Splits key ((x, node a y b) ∷ l) r (node c z d) (x.base + x.size) hi,
)

-- After splaying a tree of ordered ranges that is not empty, every range left of the root starts
-- before the key and every range right of the root starts after it.
pub splay-Splits :
    (t : Tree) (key lo hi : ℕ) → is_leaf t ≡ false → Between lo t hi → Splits key (splay t key)
unfolding splay
splay-Splits t key lo hi e h = splay_loop-Splits key [] [] t lo hi e h tt tt

-- Splaying keeps the ranges ordered, between the same bounds.
pub splay-Between : (t : Tree) (key lo hi : ℕ) → Between lo t hi → Between lo (splay t key) hi
splay-Between t key lo hi h =
    (Between-iff (splay t key) lo hi).1 (rw (to_list-splay t key) ((Between-iff t lo hi).0 h))

pub covers-splay : (t : Tree) (key a : ℕ) → covers (splay t key) a ≡ covers t a
covers-splay t key a =
    covers-to_list (splay t key) a ∙ rw (to_list-splay t key) (sym (covers-to_list t a))

pub count-splay : (t : Tree) (key : ℕ) → count (splay t key) ≡ count t
count-splay t key =
    omega (arith, ap length (to_list-splay t key), length-to_list (splay t key), length-to_list t)

-- Ranges that start after the key lie above it.
pub BasesAbove-Between :
    (t : Tree) (lo hi key : ℕ)
    → key < hi
    → Between lo t hi
    → BasesAbove key t
    → Between (key + 1) t hi
BasesAbove-Between leaf lo hi key p h k = omega arith
BasesAbove-Between (node lc r rc) lo hi key p h k =
    (BasesAbove-Between lc lo r.base key k.1 h.0 k.0, h.1, h.2)

-- Disjoint ranges that start before the key are not more than the addresses below it.
pub count-le_of_BasesBelow :
    (t : Tree) (lo hi key : ℕ) → lo ≤ key → Between lo t hi → BasesBelow key t → lo + count t ≤ key
count-le_of_BasesBelow leaf lo hi key p h k = omega arith
count-le_of_BasesBelow (node lc r rc) lo hi key p h k = omega (
  arith,
  count-le lc lo r.base h.0,
  count-le_of_BasesBelow rc (r.base + 1) hi key (omega arith)
      (Between-mono rc (r.base + r.size) hi (r.base + 1) hi (omega arith) (omega arith) h.2) k.2,
)

pub is_leaf-node : (lc : Tree) (r : MemRange) (rc : Tree) → is_leaf (node lc r rc) ≡ false
unfolding is_leaf
is_leaf-node lc r rc = refl

-- A range that starts before the key and goes on past it holds all that lies between.
pub covers_of_BasesBelow :
    (t : Tree) (key e a : ℕ)
    → key ≤ e
    → e ≤ a
    → BasesBelow key t
    → covers t a ≡ true
    → covers t e ≡ true
covers_of_BasesBelow leaf key e a p q k c = c
covers_of_BasesBelow (node lc r rc) key e a p q k c =
    ground (arith, covers_of_BasesBelow lc key e a, covers_of_BasesBelow rc key e a)

pub covers_of_BasesAbove : (t : Tree) (key : ℕ) → BasesAbove key t → covers t key ≡ false
covers_of_BasesAbove leaf key k = refl
covers_of_BasesAbove (node lc r rc) key k =
    ground (arith, covers_of_BasesAbove lc key k.0, covers_of_BasesAbove rc key k.2)
