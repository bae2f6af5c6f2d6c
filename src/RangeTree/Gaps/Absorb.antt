-- ===== src/RangeTree/Gaps/Absorb.antt =====
-- `absorb_left` and `absorb_right` of dtree.c on ranges with gaps.
use cbop.Prelude.{ℕ, ◌+◌, ◌≤◌, ◌<◌, arith}
use cbop.Prelude.Word.{max_addr, add64_exact}
use cbop.RangeTree.Range.{MemRange, IsRange}
use cbop.RangeTree.Tree.{Tree, leaf, node, free_subtree}
use cbop.RangeTree.Splay.Keys.{BasesBelow, Between-BasesBelow}
use cbop.RangeTree.Absorb.{
  grow_left, grow_right, absorb_left, absorb_right, grow_left_lem, grow_right_lem,
}
use cbop.RangeTree.Gaps.{Gapped, Gapped-lt, Gapped-Between}

-- What is left stands before the range, with a gap.
pub absorb_left-Gapped :
    (t : Tree) (range : MemRange) (size lo hi : ℕ)
    → Gapped lo t hi
    → hi ≤ max_addr
    → BasesBelow range.base t
    → lo < range.base
    → IsRange range
    → Gapped lo (absorb_left t range size).tree (absorb_left t range size).range.base
unfolding absorb_left
absorb_left-Gapped leaf range size lo hi h m k p g = p
absorb_left-Gapped (node lc r rc) range size lo hi h m k p g = ground (
  arith,
  Gapped-lt lc lo r.base h.0,
  Gapped-lt rc (r.base + r.size) hi h.2,
  add64_exact r.base r.size,
  grow_left_lem r range k.1 g,
  Between-BasesBelow lc lo r.base r.base,
  Gapped-Between lc lo r.base h.0,
  absorb_left-Gapped rc range size (r.base + r.size) hi,
  absorb_left-Gapped lc (grow_left r range) (free_subtree (node leaf r rc) size) lo r.base,
)

-- What is left stands behind the range, with a gap.
pub absorb_right-Gapped :
    (t : Tree) (range : MemRange) (size lo hi : ℕ)
    → Gapped lo t hi
    → hi ≤ max_addr + 1
    → range.base ≤ lo
    → range.base + range.size < hi
    → IsRange range
    → Gapped
        ((absorb_right t range size).range.base + (absorb_right t range size).range.size)
        (absorb_right t range size).tree
        hi
unfolding absorb_right
absorb_right-Gapped leaf range size lo hi h m p q g = q
absorb_right-Gapped (node lc r rc) range size lo hi h m p q g = ground (
  arith,
  Gapped-lt lc lo r.base h.0,
  Gapped-lt rc (r.base + r.size) hi h.2,
  add64_exact range.base range.size,
  grow_right_lem r range,
  absorb_right-Gapped lc range size lo r.base,
  absorb_right-Gapped rc (grow_right r range) (free_subtree (node lc r leaf) size) (r.base + r.size)
      hi,
)
