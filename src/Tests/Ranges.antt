-- ===== src/Tests/Ranges.antt =====
-- Runs and instances for range_tree/dtree.c.
use cbop.Prelude.{ℕ, ◌≡◌, refl, false, ◌&&◌, ◌||◌, not, some, arith}
use cbop.Prelude.Word.{max_addr, sub64}
use cbop.RangeTree.Range.{MemRange, IsRange, within}
use cbop.RangeTree.Tree.{Tree, leaf, node}
use cbop.RangeTree.Splay.{splay}
use cbop.RangeTree.Splay.Keys.{Splits, splay-Splits, is_leaf-node}
use cbop.RangeTree.Map.{RangeMap, IsWellFormed, covered}
use cbop.RangeTree.Add.{add_range}
use cbop.RangeTree.Add.Cover.{lost, add_range-IsWellFormed, covered-add_range}
use cbop.RangeTree.Add.Lost.{two_ranges}
use cbop.RangeTree.Overlaps.{map_overlaps, IsFirst, map_overlaps-IsFirst}
use cbop.RangeTree.Gaps.Add.{HasGaps, add_range-HasGaps}
use cbop.RangeTree.Contains.{map_contains, Finds, map_contains-Finds}
use cbop.RangeTree.Remove.{map_remove_node, join, Removed, map_remove_node-Removed}
use cbop.RangeTree.SetOps.{map_union, map_intersect, map_subtract}
use cbop.RangeTree.SetOps.Union.{Covers, map_union-Covers}
use cbop.RangeTree.SetOps.Intersect.{map_intersect-Covers}
use cbop.RangeTree.SetOps.Subtract.{map_subtract-Covers}

abbrev range : ℕ → ℕ → MemRange
range b s = record { base = b; size = s; rec = 0; task = 0 }

abbrev map_of : Tree → ℕ → RangeMap
map_of t n = record { is_hash = false; residence = 1; root = t; size = n }

-- [0, 100) and [200, 300), the first at the root
abbrev low_high : RangeMap
low_high = two_ranges (range 0 100) (range 200 100)

abbrev middle : RangeMap
middle = map_of (node leaf (range 50 200) leaf) 1

abbrev apart : RangeMap
apart = map_of (node leaf (range 120 30) leaf) 1

low_high-IsWellFormed : IsWellFormed low_high
low_high-IsWellFormed = omega arith

middle-IsWellFormed : IsWellFormed middle
middle-IsWellFormed = omega arith

apart-IsWellFormed : IsWellFormed apart
apart-IsWellFormed = omega arith

splayed : splay low_high.root 150 ≡ node (node leaf (range 0 100) leaf) (range 200 100) leaf
unfolding splay
splayed = refl

range-IsRange : IsRange (range 0 100)
range-IsRange = omega arith

splay-Splits_example : Splits 150 (splay low_high.root 150)
splay-Splits_example =
    splay-Splits low_high.root 150 0 max_addr
      (is_leaf-node leaf (range 0 100) (node leaf (range 200 100) leaf))
      low_high-IsWellFormed.ordered

add_range-IsWellFormed_example : IsWellFormed (add_range low_high 100 50 0)
add_range-IsWellFormed_example =
    add_range-IsWellFormed low_high 100 50 0 (omega arith) (omega arith) low_high-IsWellFormed

covered-add_range_example :
    covered (add_range low_high 100 50 0) 120
    ≡ (within 100 50 120 || (covered low_high 120 && not (lost low_high 100 50 120)))
covered-add_range_example =
    covered-add_range low_high 100 50 0 (omega arith) (omega arith) low_high-IsWellFormed 120

map_overlaps-IsFirst_example :
    IsFirst low_high.root (range 50 200) 60 (map_overlaps low_high (range 50 200))
map_overlaps-IsFirst_example =
    map_overlaps-IsFirst low_high (range 50 200) 60 low_high-IsWellFormed (omega arith)

map_contains-Finds_example : Finds low_high.root 250 (map_contains low_high 250).0
map_contains-Finds_example = map_contains-Finds low_high 250 low_high-IsWellFormed

abbrev low_only : RangeMap
low_only = map_of (node leaf (range 0 100) leaf) 1

map_remove_node-Removed_example :
    (m' : RangeMap) × (map_remove_node low_high 200 ≡ some m') × Removed low_high 200 m'
map_remove_node-Removed_example = map_remove_node-Removed low_high 200 low_high-IsWellFormed refl

removed_high : map_remove_node low_high 200 ≡ some low_only
unfolding map_remove_node splay sub64 join
removed_high = refl

map_union-Covers_example :
    Covers (map_union low_high apart) (λ a. covered low_high a || covered apart a)
map_union-Covers_example =
    map_union-Covers low_high apart low_high-IsWellFormed apart-IsWellFormed (λ a. ground arith)

map_intersect-Covers_example :
    Covers (map_intersect low_high middle) (λ a. covered low_high a && covered middle a)
map_intersect-Covers_example =
    map_intersect-Covers low_high middle low_high-IsWellFormed middle-IsWellFormed

map_subtract-Covers_example :
    Covers (map_subtract low_high middle) (λ a. covered low_high a && not (covered middle a))
map_subtract-Covers_example =
    map_subtract-Covers low_high middle low_high-IsWellFormed middle-IsWellFormed

add_range-HasGaps_example : HasGaps (add_range apart 100 25 0)
add_range-HasGaps_example =
    add_range-HasGaps apart 100 25 0 (omega arith) (omega arith) (omega arith) (omega arith)
