-- ===== src/RangeTree/Gaps/Add.antt =====
-- `map_add_range` of dtree.c on a map whose ranges have gaps between them.
use cbop.Prelude.{ℕ, ◌+◌, ◌≤◌, ◌<◌, ◌≡◌, arith}
use cbop.Prelude.Word.{max_addr, add64}
use cbop.RangeTree.Range.{MemRange, IsRange, union_ranges, min}
use cbop.RangeTree.Tree.{Tree, leaf, node, count, Between}
use cbop.RangeTree.Splay.{splay}
use cbop.RangeTree.Splay.Keys.{Splits, splay-Splits, splay-Between, count-splay, is_leaf-node}
use cbop.RangeTree.Map.{RangeMap, IsWellFormed, init_empty_map, map_clear}
use cbop.RangeTree.Add.{
  new_node, expand_root, insert_left, insert_right, add_at, add_under, add_range,
}
use cbop.RangeTree.Add.Root.{
  joins, joins_lem, union_ranges_lem, root-IsRange, union, union-IsRange, union-BasesBelow, left,
  left_size, insert_left-LeftOf, insert_right-RightOf, left-LeftOf, left-IsRange, right-RightOf,
}
use cbop.RangeTree.Add.Cover.{add_range-IsWellFormed}
use cbop.RangeTree.Gaps.{Gapped, Gapped-lt, splay-Gapped, BasesAbove-Gapped}
use cbop.RangeTree.Gaps.Absorb.{absorb_left-Gapped, absorb_right-Gapped}

-- A well-formed map with gaps, in which no range starts at NULL.
pub record HasGaps (m : RangeMap) : Type 0 where
  pub valid : IsWellFormed m
  pub gapped : Gapped 0 m.root (max_addr + 1)

module _ (m : RangeMap) (n : MemRange) (lc : Tree) (top : MemRange) (rc : Tree) (hn : IsRange n)
    (ordered : Between 0 (node lc top rc) max_addr) (splits : Splits n.base (node lc top rc))
    (counted : m.size ≡ count (node lc top rc)) (positive : 0 < n.base)
    (gapped : Gapped 0 (node lc top rc) (max_addr + 1)) where
  bounds : (0 < top.base) × (top.base + top.size ≤ max_addr)
  bounds = omega (
    arith,
    Gapped-lt lc 0 top.base gapped.0,
    Gapped-lt rc (top.base + top.size) (max_addr + 1) gapped.2,
  )

  union-positive : 0 < (union m n lc top rc hn ordered splits counted).base
  unfolding union_ranges min
  union-positive = ground (arith, bounds)

  expand_root-Gapped : Gapped 0 (expand_root m n lc top rc).root (max_addr + 1)
  unfolding expand_root
  expand_root-Gapped = ground (
    arith,
    bounds,
    union_ranges_lem n top hn (root-IsRange m n lc top rc hn ordered splits counted),
    left-IsRange m n lc top rc hn ordered splits counted,
    left-LeftOf m n lc top rc hn ordered splits counted,
    right-RightOf m n lc top rc hn ordered splits counted,
    absorb_left-Gapped lc (union m n lc top rc hn ordered splits counted) m.size 0 top.base gapped.0
        (omega (arith, bounds)) (union-BasesBelow m n lc top rc hn ordered splits counted)
        union-positive (union-IsRange m n lc top rc hn ordered splits counted),
    absorb_right-Gapped rc (left m n lc top rc hn ordered splits counted)
        (left_size m n lc top rc hn ordered splits counted) (top.base + top.size) (max_addr + 1)
        gapped.2,
  )

  insert_left-Gapped :
      n.base + n.size < top.base → Gapped 0 (insert_left m n lc top rc).root (max_addr + 1)
  unfolding insert_left
  insert_left-Gapped apart = ground (
    arith,
    gapped.2,
    gapped.1,
    hn,
    absorb_left-Gapped lc n (add64 m.size 1) 0 top.base gapped.0 (omega (arith, bounds)) splits.0
        positive hn,
    insert_left-LeftOf m n lc top rc hn ordered splits counted (omega arith),
  )

  insert_right-Gapped :
      top.base + top.size < n.base → Gapped 0 (insert_right m n lc top rc).root (max_addr + 1)
  unfolding insert_right
  insert_right-Gapped apart = ground (
    arith,
    gapped.0,
    gapped.1,
    hn,
    insert_right-RightOf m n lc top rc hn ordered splits counted (omega arith),
    absorb_right-Gapped rc n (add64 m.size 1) n.base (max_addr + 1)
        (BasesAbove-Gapped rc (top.base + top.size) (max_addr + 1) n.base (omega (arith, hn))
          gapped.2 splits.1)
        (omega arith) (omega arith) (omega (arith, hn)) hn,
  )

  add_at-Gapped : Gapped 0 (add_at m n (node lc top rc)).root (max_addr + 1)
  unfolding add_at joins
  add_at-Gapped = ground (
    arith,
    hn,
    bounds,
    gapped.1,
    joins_lem n top hn (root-IsRange m n lc top rc hn ordered splits counted),
    expand_root-Gapped,
    insert_left-Gapped,
    insert_right-Gapped,
  )

module _ (m : RangeMap) (n : MemRange) (hn : IsRange n) (positive : 0 < n.base) where
  add_split-Gapped :
      (t : Tree)
      → Splits n.base t
      → m.size ≡ count t
      → Gapped 0 t (max_addr + 1)
      → Between 0 t max_addr
      → Gapped 0 (add_at m n t).root (max_addr + 1)
  add_split-Gapped leaf s c g h = absurd s
  add_split-Gapped (node lc top rc) s c g h = add_at-Gapped m n lc top rc hn h s c positive g

  add_under-Gapped :
      (t : Tree)
      → m.size ≡ count t
      → Between 0 t max_addr
      → Gapped 0 t (max_addr + 1)
      → Gapped 0 (add_under m n t).root (max_addr + 1)
  unfolding add_under
  add_under-Gapped leaf c h g = omega (arith, hn)
  add_under-Gapped (node lc r rc) c h g =
      add_split-Gapped (splay (node lc r rc) n.base)
        (splay-Splits (node lc r rc) n.base 0 max_addr (is_leaf-node lc r rc) h)
        (omega (arith, c, count-splay (node lc r rc) n.base))
        (splay-Gapped (node lc r rc) n.base 0 (max_addr + 1) g)
        (splay-Between (node lc r rc) n.base 0 max_addr h)

-- Adding a range that is not empty, does not start at NULL and does not wrap keeps the map well formed,
-- with a gap between each two of its ranges.
pub add_range-HasGaps :
    (m : RangeMap) (base size obj : ℕ)
    → 0 < base
    → 0 < size
    → base + size ≤ max_addr
    → HasGaps m
    → HasGaps (add_range m base size obj)
unfolding add_range new_node
add_range-HasGaps m base size obj p n fits g = record {
  valid = add_range-IsWellFormed m base size obj n fits g.valid;
  gapped =
      add_under-Gapped m (new_node base size obj) (record { nonempty = n; fits = fits }) p m.root
        g.valid.counted g.valid.ordered g.gapped;
}

pub init_empty_map-HasGaps : (res : ℕ) → HasGaps (init_empty_map res)
unfolding init_empty_map
init_empty_map-HasGaps res = record { valid = omega arith; gapped = omega arith }

pub map_clear-HasGaps : (m : RangeMap) → HasGaps (map_clear m)
unfolding map_clear
map_clear-HasGaps m = record { valid = omega arith; gapped = omega arith }
