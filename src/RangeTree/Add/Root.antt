-- ===== src/RangeTree/Add/Root.antt =====
-- The three branches of `map_add_range` on the splayed root, each with the order, the size and the
-- addresses of the map that it leaves.
use cbop.Prelude.{ℕ, suc, ◌+◌, ◌≤◌, ◌≡◌, Bool, true, ◌&&◌, ◌||◌, not, arith, leb, ltb}
use cbop.Prelude.Word.{max_addr, add64, add64_exact, sub64_exact}
use cbop.RangeTree.Range.{MemRange, min, IsRange, overlap, union_ranges, within, holds}
use cbop.RangeTree.Tree.{
  Tree, node, count, covers, Between, Between-le, count-le, covers-above, covers-below,
}
use cbop.RangeTree.Splay.Keys.{
  BasesBelow, Splits, Between-BasesBelow, BasesAbove-Between, count-le_of_BasesBelow,
}
use cbop.RangeTree.Absorb.{
  absorb_left, absorb_right, LeftOf, RightOf, absorb_left-LeftOf, absorb_right-RightOf,
  covers-absorb_left, covers-absorb_right,
}
use cbop.RangeTree.Map.{RangeMap, IsWellFormed}
use cbop.RangeTree.Add.{is_some, bordering, expand_root, insert_left, insert_right}

-- The union of two ranges that overlap or border on one another.
pub union_ranges_lem :
    (n top : MemRange)
    → IsRange n
    → IsRange top
    → ((union_ranges n top).0 ≤ n.base)
      × ((union_ranges n top).0 ≤ top.base)
      × (n.base + n.size ≤ (union_ranges n top).0 + (union_ranges n top).1)
      × (top.base + top.size ≤ (union_ranges n top).0 + (union_ranges n top).1)
      × ((union_ranges n top).0 + (union_ranges n top).1 ≤ max_addr)
unfolding union_ranges
union_ranges_lem n top hn ht = ground (
  arith,
  add64_exact n.base n.size,
  add64_exact top.base top.size,
  sub64_exact (n.base + n.size) n.base,
  sub64_exact (n.base + n.size) top.base,
  sub64_exact (top.base + top.size) n.base,
  sub64_exact (top.base + top.size) top.base,
)

-- The tests of `map_add_range` on the splayed root, read as an order between the two ranges.
unfoldable pub joins : MemRange → MemRange → Bool
unfolding bordering
joins n top = is_some (overlap n top) || bordering n top

pub joins_lem :
    (n top : MemRange)
    → IsRange n
    → IsRange top
    → joins n top ≡ (leb n.base (top.base + top.size) && leb top.base (n.base + n.size))
unfolding joins overlap
joins_lem n top hn ht = ground (arith, add64_exact n.base n.size, add64_exact top.base top.size)

holds-union_ranges :
    (n top : MemRange) (a : ℕ)
    → IsRange n
    → IsRange top
    → joins n top ≡ true
    → within (union_ranges n top).0 (union_ranges n top).1 a ≡ (holds n a || holds top a)
unfolding union_ranges
holds-union_ranges n top a hn ht j = ground (
  arith,
  joins_lem n top hn ht,
  add64_exact n.base n.size,
  add64_exact top.base top.size,
  sub64_exact (n.base + n.size) n.base,
  sub64_exact (n.base + n.size) top.base,
  sub64_exact (top.base + top.size) n.base,
  sub64_exact (top.base + top.size) top.base,
)

-- A new range `n` and a map whose splayed tree is `node lc top rc`.
module _ (m : RangeMap) (n : MemRange) (lc : Tree) (top : MemRange) (rc : Tree) (hn : IsRange n)
    (ordered : Between 0 (node lc top rc) max_addr) (splits : Splits n.base (node lc top rc))
    (counted : m.size ≡ count (node lc top rc)) where
  pub root-IsRange : IsRange top
  root-IsRange = omega (arith, Between-le rc (top.base + top.size) max_addr ordered.2)

  size-bound : suc (count lc + count rc) ≤ max_addr
  size-bound = omega (arith, count-le (node lc top rc) 0 max_addr ordered)

  abbrev pub union : MemRange
  union = record top { base = (union_ranges n top).0; size = (union_ranges n top).1 }

  pub union-IsRange : IsRange union
  union-IsRange = omega (arith, union_ranges_lem n top hn root-IsRange)

  pub union-BasesBelow : BasesBelow union.base lc
  unfolding union_ranges min
  union-BasesBelow = ground (arith, splits.0, Between-BasesBelow lc 0 top.base top.base, ordered.0)

  pub left-LeftOf : LeftOf 0 lc union m.size (absorb_left lc union m.size)
  left-LeftOf =
      absorb_left-LeftOf lc union m.size 0 top.base ordered.0 (omega (arith, root-IsRange))
        union-BasesBelow (omega arith) union-IsRange (omega (arith, counted))
        (omega (arith, counted, size-bound))

  abbrev pub left : MemRange
  left = (absorb_left lc union m.size).range

  abbrev pub left_size : ℕ
  left_size = (absorb_left lc union m.size).size

  pub left-IsRange : IsRange left
  left-IsRange = omega (arith, left-LeftOf, union-IsRange)

  left-below-right : (left.base ≤ top.base + top.size) × (left.base + left.size ≤ max_addr)
  left-below-right = omega (arith, left-LeftOf, union_ranges_lem n top hn root-IsRange)

  left-counted : (count rc ≤ left_size) × (left_size ≤ max_addr)
  left-counted = omega (
    arith,
    left-LeftOf,
    counted,
    count-le (absorb_left lc union m.size).tree 0 left.base left-LeftOf.below,
    count-le rc (top.base + top.size) max_addr ordered.2,
    union_ranges_lem n top hn root-IsRange,
  )

  pub right-RightOf : RightOf max_addr rc left left_size (absorb_right rc left left_size)
  right-RightOf =
      absorb_right-RightOf rc left left_size (top.base + top.size) max_addr ordered.2 (omega arith)
        left-below-right.0 left-below-right.1 left-IsRange left-counted.0 left-counted.1

  pub expand_root-IsWellFormed : IsWellFormed (expand_root m n lc top rc)
  unfolding expand_root
  expand_root-IsWellFormed = ground (arith, left-LeftOf, left-IsRange, right-RightOf, counted)

  pub covered-expand_root :
      (a : ℕ)
      → joins n top ≡ true
      → covers (expand_root m n lc top rc).root a ≡ (holds n a || covers (node lc top rc) a)
  unfolding expand_root
  covered-expand_root a j = ground (
    arith,
    holds-union_ranges n top a hn root-IsRange j,
    union_ranges_lem n top hn root-IsRange,
    covers-above lc 0 top.base a ordered.0,
    covers-absorb_left lc union m.size 0 top.base a ordered.0 (omega (arith, root-IsRange))
        union-BasesBelow (omega arith) union-IsRange,
    covers-absorb_right rc left left_size (top.base + top.size) max_addr a ordered.2 (omega arith)
        left-below-right.0 left-below-right.1 left-IsRange,
  )

  -- A new root that ends before the old one starts.
  module _ (apart : n.base + n.size ≤ top.base) where
    size-left : add64 m.size 1 ≡ count lc + count rc + 2
    size-left = omega (
      arith,
      add64_exact m.size 1,
      counted,
      count-le_of_BasesBelow lc 0 top.base n.base (omega arith) ordered.0 splits.0,
      count-le rc (top.base + top.size) max_addr ordered.2,
      root-IsRange,
      hn,
    )

    pub insert_left-LeftOf : LeftOf 0 lc n (add64 m.size 1) (absorb_left lc n (add64 m.size 1))
    insert_left-LeftOf =
        absorb_left-LeftOf lc n (add64 m.size 1) 0 top.base ordered.0 (omega (arith, root-IsRange))
          splits.0 (omega arith) hn (omega (arith, size-left))
          (omega (
            arith,
            size-left,
            count-le_of_BasesBelow lc 0 top.base n.base (omega arith) ordered.0 splits.0,
            count-le rc (top.base + top.size) max_addr ordered.2,
            hn,
          ))

    pub insert_left-IsWellFormed : IsWellFormed (insert_left m n lc top rc)
    unfolding insert_left
    insert_left-IsWellFormed = ground (arith, insert_left-LeftOf, size-left, root-IsRange, hn)

    pub covered-insert_left :
        (a : ℕ)
        → covers (insert_left m n lc top rc).root a ≡ (
            holds n a
            || (covers (node lc top rc) a && not (leb (n.base + n.size) a && ltb a top.base)))
    unfolding insert_left
    covered-insert_left a = ground (
      arith,
      covers-above lc 0 top.base a ordered.0,
      covers-below rc (top.base + top.size) max_addr a ordered.2,
      covers-absorb_left lc n (add64 m.size 1) 0 top.base a ordered.0 (omega (arith, root-IsRange))
          splits.0 (omega arith) hn,
    )

  -- A new root that starts after the old one ends.
  module _ (apart : top.base + top.size ≤ n.base) where
    right-Between : Between (n.base + 1) rc max_addr
    right-Between =
        BasesAbove-Between rc (top.base + top.size) max_addr n.base (omega (arith, hn)) ordered.2
          splits.1

    size-right : (add64 m.size 1 ≡ count lc + count rc + 2) × (count lc + count rc + 2 ≤ max_addr)
    size-right = omega (
      arith,
      add64_exact m.size 1,
      counted,
      count-le lc 0 top.base ordered.0,
      count-le rc (n.base + 1) max_addr right-Between,
      root-IsRange,
    )

    pub insert_right-RightOf :
        RightOf max_addr rc n (add64 m.size 1) (absorb_right rc n (add64 m.size 1))
    insert_right-RightOf =
        absorb_right-RightOf rc n (add64 m.size 1) (n.base + 1) max_addr right-Between (omega arith)
          (omega arith) (omega (arith, hn)) hn (omega (arith, size-right))
          (omega (arith, size-right))

    pub insert_right-IsWellFormed : IsWellFormed (insert_right m n lc top rc)
    unfolding insert_right
    insert_right-IsWellFormed = ground (arith, insert_right-RightOf, size-right, root-IsRange, hn)

    pub covered-insert_right :
        (a : ℕ)
        → covers (insert_right m n lc top rc).root a ≡ (holds n a || covers (node lc top rc) a)
    unfolding insert_right
    covered-insert_right a = ground (
      arith,
      covers-absorb_right rc n (add64 m.size 1) (n.base + 1) max_addr a right-Between (omega arith)
          (omega arith) (omega (arith, hn)) hn,
    )
