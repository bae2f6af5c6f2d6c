-- ===== src/RangeTree/Add/Lost.antt =====
-- `map_add_range` of dtree.c with a range inside an old one.
use cbop.Prelude.{ℕ, ◌+◌, ◌<◌, ◌≡◌, true, false, arith}
use cbop.Prelude.Word.{max_addr}
use cbop.RangeTree.Range.{MemRange}
use cbop.RangeTree.Tree.{leaf, node, Between-le}
use cbop.RangeTree.Splay.{splay}
use cbop.RangeTree.Map.{RangeMap, IsWellFormed, covered}
use cbop.RangeTree.Add.{add_range}
use cbop.RangeTree.Add.Cover.{lost, covered-add_range}

-- Two ranges, the second one below the first.
abbrev pub two_ranges : MemRange → MemRange → RangeMap
two_ranges p s = record {
  is_hash = false;
  residence = 1;
  root = node leaf p (node leaf s leaf);
  size = 2;
}

lost-two_ranges :
    (p s : MemRange) (base size : ℕ)
    → IsWellFormed (two_ranges p s)
    → p.base < base
    → base + size < p.base + p.size
    → lost (two_ranges p s) base size (base + size) ≡ true
unfolding splay
lost-two_ranges p s base size w a b = ground arith

-- In a map of two ranges with the first at the root, adding a range that starts after the first one
-- does and ends before it makes the map forget the end of the first: the address behind the new range
-- was covered, and is not any more.
pub add_range-forgets :
    (p s : MemRange) (base size obj : ℕ)
    → IsWellFormed (two_ranges p s)
    → 0 < size
    → p.base < base
    → base + size < p.base + p.size
    → (covered (two_ranges p s) (base + size) ≡ true)
      × (covered (add_range (two_ranges p s) base size obj) (base + size) ≡ false)
add_range-forgets p s base size obj w n a b =
    let le = w.ordered.2.0 in
    let le' = Between-le leaf _ max_addr w.ordered.2.2 in
    (
      ground arith,
      ground (
        arith,
        lost-two_ranges p s base size w a b,
        covered-add_range (two_ranges p s) base size obj n (omega arith) w (base + size),
      ),
    )
