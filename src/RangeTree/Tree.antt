-- ===== src/RangeTree/Tree.antt =====
-- The trees of bop_map.h (`range_node_t`), their walks, and the order that they keep.
use cbop.Prelude.{
  ℕ, suc, ◌+◌, ◌-◌, ◌≤◌, ◌<◌, ◌≡◌, refl, Bool, false, ◌||◌, List, [], ◌∷◌, ◌++◌, arith,
  append_assoc, append-nil, ◌↔◌, length, length-append,
}
use cbop.Prelude.Word.{max_addr, add64, sub64, sub64_exact}
use cbop.RangeTree.Range.{MemRange, holds}

-- `leaf` is NULL; a node has its left child, its range and its right child.
pub data Tree : Type 0 where
  leaf : Tree
  node : Tree → MemRange → Tree → Tree

-- The ranges in the order in which `subtree_inject` and `subtree_foreach` visit them.
abbrev pub to_list : Tree → List MemRange
to_list leaf = []
to_list (node lc r rc) = to_list lc ++ (r ∷ to_list rc)

abbrev pub count : Tree → ℕ
count leaf = 0
count (node lc r rc) = suc (count lc + count rc)

-- The value of `map->size` after the nodes are freed.
unfoldable pub free_subtree : Tree → ℕ → ℕ
free_subtree leaf size = size
free_subtree (node lc r rc) size = sub64 (free_subtree rc (free_subtree lc size)) 1

unfoldable pub subtree_size : Tree → ℕ
subtree_size leaf = 0
subtree_size (node lc r rc) = add64 (add64 r.size (subtree_size lc)) (subtree_size rc)

-- An address is in one of the ranges of the tree.
abbrev pub covers : Tree → ℕ → Bool
covers leaf a = false
covers (node lc r rc) a = covers lc a || (holds r a || covers rc a)

abbrev pub covers_list : List MemRange → ℕ → Bool
covers_list [] a = false
covers_list (r ∷ rs) a = holds r a || covers_list rs a

-- The ranges of the tree are nonempty, disjoint, ascending, and lie from `lo` up to `hi`.
abbrev pub Between : ℕ → Tree → ℕ → Type 0
Between lo leaf hi = lo ≤ hi
Between lo (node lc r rc) hi = Between lo lc r.base × (0 < r.size) × Between (r.base + r.size) rc hi

abbrev pub Chain : ℕ → List MemRange → ℕ → Type 0
Chain lo [] hi = lo ≤ hi
Chain lo (r ∷ rs) hi = (lo ≤ r.base) × (0 < r.size) × Chain (r.base + r.size) rs hi

pub Between-le : (t : Tree) (lo hi : ℕ) → Between lo t hi → lo ≤ hi
Between-le leaf lo hi h = h
Between-le (node lc r rc) lo hi h =
    omega (arith, Between-le lc lo r.base h.0, Between-le rc (r.base + r.size) hi h.2)

pub Between-mono :
    (t : Tree) (lo hi lo' hi' : ℕ) → lo' ≤ lo → hi ≤ hi' → Between lo t hi → Between lo' t hi'
Between-mono leaf lo hi lo' hi' p q h = omega arith
Between-mono (node lc r rc) lo hi lo' hi' p q h = (
  Between-mono lc lo r.base lo' r.base p (omega arith) h.0,
  h.1,
  Between-mono rc (r.base + r.size) hi (r.base + r.size) hi' (omega arith) q h.2,
)

-- An address outside the bounds is in no range.
pub covers-below : (t : Tree) (lo hi a : ℕ) → Between lo t hi → a < lo → covers t a ≡ false
covers-below leaf lo hi a h p = refl
covers-below (node lc r rc) lo hi a h p = ground (
  arith,
  Between-le lc lo r.base h.0,
  covers-below lc lo r.base a h.0,
  covers-below rc (r.base + r.size) hi a h.2,
)

pub covers-above : (t : Tree) (lo hi a : ℕ) → Between lo t hi → hi ≤ a → covers t a ≡ false
covers-above leaf lo hi a h p = refl
covers-above (node lc r rc) lo hi a h p = ground (
  arith,
  Between-le rc (r.base + r.size) hi h.2,
  covers-above lc lo r.base a h.0,
  covers-above rc (r.base + r.size) hi a h.2,
)

Chain-mono : (ys : List MemRange) (lo hi lo' : ℕ) → lo' ≤ lo → Chain lo ys hi → Chain lo' ys hi
Chain-mono [] lo hi lo' p h = omega arith
Chain-mono (r ∷ rs) lo hi lo' p h = (omega arith, h.1, h.2)

-- The order of a tree is the order of its list, and so is what it covers.
pub Between-append :
    (t : Tree) (ys : List MemRange) (lo m hi : ℕ)
    → Between lo t m
    → Chain m ys hi
    → Chain lo (to_list t ++ ys) hi
Between-append leaf ys lo m hi h k = Chain-mono ys m hi lo h k
Between-append (node lc r rc) ys lo m hi h k = rw (append_assoc (to_list lc) (r ∷ to_list rc) ys) (
    Between-append lc (r ∷ (to_list rc ++ ys)) lo r.base hi h.0
      (omega arith, h.1, Between-append rc ys (r.base + r.size) m hi h.2 k))

append-Between :
    (t : Tree) (ys : List MemRange) (lo hi : ℕ)
    → Chain lo (to_list t ++ ys) hi
    → (m : ℕ) × Between lo t m × Chain m ys hi
append-Between leaf ys lo hi h = (lo, omega arith, h)
append-Between (node lc r rc) ys lo hi h =
    let (m, low, rest) =
      append-Between lc (r ∷ (to_list rc ++ ys)) lo hi
        (rw (append_assoc (to_list lc) (r ∷ to_list rc) ys) at h) in
    let (m', high, last) = append-Between rc ys (r.base + r.size) hi rest.2 in
    (m', (Between-mono lc lo m lo r.base (omega arith) rest.0 low, rest.1, high), last)

pub Between-iff : (t : Tree) (lo hi : ℕ) → Between lo t hi ↔ Chain lo (to_list t) hi
Between-iff t lo hi = (forth, back)
  where
    forth : Between lo t hi → Chain lo (to_list t) hi
    forth h = rw append-nil at (Between-append t [] lo hi hi h (omega arith))

    back : Chain lo (to_list t) hi → Between lo t hi
    back h =
        let (m, low, last) = append-Between t [] lo hi (rw append-nil h) in
        Between-mono t lo m lo hi (omega arith) last low

covers_list-append :
    (xs ys : List MemRange) (a : ℕ)
    → covers_list (xs ++ ys) a ≡ (covers_list xs a || covers_list ys a)
covers_list-append [] ys a = refl
covers_list-append (x ∷ xs) ys a = ground (arith, covers_list-append xs ys a)

pub covers-to_list : (t : Tree) (a : ℕ) → covers t a ≡ covers_list (to_list t) a
covers-to_list leaf a = refl
covers-to_list (node lc r rc) a = ground (
  arith,
  covers_list-append (to_list lc) (r ∷ to_list rc) a,
  covers-to_list lc a,
  covers-to_list rc a,
)

pub length-to_list : (t : Tree) → length (to_list t) ≡ count t
length-to_list leaf = refl
length-to_list (node lc r rc) =
    omega (arith, length-append (to_list lc) (r ∷ to_list rc), length-to_list lc, length-to_list rc)

-- A tree between two addresses has at most so many nodes as there are addresses.
pub count-le : (t : Tree) (lo hi : ℕ) → Between lo t hi → lo + count t ≤ hi
count-le leaf lo hi h = omega arith
count-le (node lc r rc) lo hi h =
    omega (arith, count-le lc lo r.base h.0, count-le rc (r.base + r.size) hi h.2)

-- Freeing a subtree takes the number of its nodes off the size.
pub free_subtree-eq-sub :
    (t : Tree) (size : ℕ) → count t ≤ size → size ≤ max_addr → free_subtree t size ≡ size - count t
unfolding free_subtree
free_subtree-eq-sub leaf size h k = omega arith
free_subtree-eq-sub (node lc r rc) size h k =
    let e = free_subtree-eq-sub lc size (omega arith) k in
    rw e (
      omega (
        arith,
        free_subtree-eq-sub rc (size - count lc) (omega arith) (omega arith),
        sub64_exact (free_subtree rc (size - count lc)) 1,
      ))

-- A tree of no nodes is one that covers nothing.
pub empty_iff :
    (t : Tree) (hi : ℕ) → Between 0 t hi → (count t ≡ 0) ↔ ((a : ℕ) → covers t a ≡ false)
empty_iff leaf hi h = ((λ e a. refl), (λ f. refl))
empty_iff (node lc r rc) hi h =
    ((λ e. absurd (omega arith)), (λ f. absurd (ground (arith, f r.base, h.1))))
