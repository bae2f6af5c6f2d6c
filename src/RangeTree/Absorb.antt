-- ===== src/RangeTree/Absorb.antt =====
-- `absorb_left` and `absorb_right` of dtree.c: the new root range takes in what it touches.
use cbop.Prelude.{
  ℕ, ◌+◌, ◌-◌, ◌≤◌, ◌⊎◌, ◌<◌, ◌≡◌, refl, false, ◌&&◌, ◌||◌, arith, ltb, if◌then◌else◌,
}
use cbop.Prelude.Word.{max_addr, add64, sub64, add64_exact, sub64_exact}
use cbop.RangeTree.Range.{MemRange, min, max, bound, IsRange, holds}
use cbop.RangeTree.Tree.{
  Tree, leaf, node, count, covers, free_subtree, Between, Between-le, free_subtree-eq-sub,
  covers-below, covers-above,
}
use cbop.RangeTree.Splay.Keys.{BasesBelow, Between-BasesBelow}

-- What a call returns, with the range and the `map->size` that it changes in place.
pub record Absorbed : Type 0 where
  pub tree : Tree
  pub range : MemRange
  pub size : ℕ

-- The range after it took in `r` on its left.
unfoldable pub grow_left : MemRange → MemRange → MemRange
unfolding min
grow_left r range =
    let base = min r.base range.base in
    record range { base = base; size = sub64 (add64 range.base range.size) base }

unfoldable pub absorb_left : Tree → MemRange → ℕ → Absorbed
absorb_left leaf range size = record { tree = leaf; range = range; size = size }
absorb_left (node lc r rc) range size =
    let kept = absorb_left rc range size in
    let grown = grow_left r range in
    let taken = absorb_left lc grown (free_subtree (node leaf r rc) size) in
    if ltb (bound r) range.base then record kept { tree = node lc r kept.tree } else taken

-- The range after it took in `r` on its right.
unfoldable pub grow_right : MemRange → MemRange → MemRange
unfolding max
grow_right r range = record range { size = sub64 (max (bound range) (bound r)) range.base }

unfoldable pub absorb_right : Tree → MemRange → ℕ → Absorbed
absorb_right leaf range size = record { tree = leaf; range = range; size = size }
absorb_right (node lc r rc) range size =
    let kept = absorb_right lc range size in
    let grown = grow_right r range in
    let taken = absorb_right rc grown (free_subtree (node lc r leaf) size) in
    if ltb (bound range) r.base then record kept { tree = node kept.tree r rc } else taken

pub grow_left_lem :
    (r range : MemRange)
    → r.base < range.base
    → IsRange range
    → ((grow_left r range).base ≡ r.base)
      × ((grow_left r range).size ≡ range.base + range.size - r.base)
unfolding grow_left
grow_left_lem r range h g =
    ground (arith, add64_exact range.base range.size, sub64_exact (range.base + range.size) r.base)

pub grow_right_lem :
    (r range : MemRange)
    → IsRange r
    → IsRange range
    → range.base ≤ r.base
    → ((grow_right r range).base ≡ range.base)
      × (r.base + r.size ≤ range.base + (grow_right r range).size)
      × (range.size ≤ (grow_right r range).size)
      × ((grow_right r range).size ≤ range.size
          ⊎ range.base + (grow_right r range).size ≡ r.base + r.size)
unfolding grow_right
grow_right_lem r range k g h = ground (
  arith,
  add64_exact range.base range.size,
  add64_exact r.base r.size,
  sub64_exact (range.base + range.size) range.base,
  sub64_exact (r.base + r.size) range.base,
)

-- What `absorb_left` promises of its result.
pub record LeftOf (lo : ℕ) (t : Tree) (range : MemRange) (size : ℕ) (out : Absorbed) : Type 0 where
  pub below : Between lo out.tree out.range.base
  pub start : out.range.base ≤ range.base
  pub end : out.range.base + out.range.size ≡ range.base + range.size
  pub counted : out.size + count t ≡ size + count out.tree

pub absorb_left-LeftOf :
    (t : Tree) (range : MemRange) (size lo hi : ℕ)
    → Between lo t hi
    → hi ≤ max_addr
    → BasesBelow range.base t
    → lo ≤ range.base
    → IsRange range
    → count t ≤ size
    → size ≤ max_addr
    → LeftOf lo t range size (absorb_left t range size)
unfolding absorb_left
absorb_left-LeftOf leaf range size lo hi h m k p g c s = omega arith
absorb_left-LeftOf (node lc r rc) range size lo hi h m k p g c s = ground (
  arith,
  Between-le lc lo r.base h.0,
  Between-le rc (r.base + r.size) hi h.2,
  add64_exact r.base r.size,
  grow_left_lem r range k.1 g,
  free_subtree-eq-sub (node leaf r rc) size,
  Between-BasesBelow lc lo r.base r.base,
  absorb_left-LeftOf rc range size (r.base + r.size) hi,
  absorb_left-LeftOf lc (grow_left r range) (free_subtree (node leaf r rc) size) lo r.base,
)

-- Ranges that lie from an address on and start before it are none.
covers-crossed :
    (t : Tree) (lo hi key a : ℕ)
    → key ≤ lo
    → Between lo t hi
    → BasesBelow key t
    → covers t a ≡ false
covers-crossed leaf lo hi key a p h k = refl
covers-crossed (node lc r rc) lo hi key a p h k =
    absurd (omega (arith, Between-le lc lo r.base h.0))

-- The addresses below the end of the range are covered as before; those from its end on are not.
pub covers-absorb_left :
    (t : Tree) (range : MemRange) (size lo hi a : ℕ)
    → Between lo t hi
    → hi ≤ max_addr
    → BasesBelow range.base t
    → lo ≤ range.base
    → IsRange range
    → (covers (absorb_left t range size).tree a || holds (absorb_left t range size).range a)
      ≡ (ltb a (range.base + range.size) && (covers t a || holds range a))
unfolding absorb_left
covers-absorb_left leaf range size lo hi a h m k p g = ground arith
covers-absorb_left (node lc r rc) range size lo hi a h m k p g = ground (
  arith,
  Between-le lc lo r.base h.0,
  Between-le rc (r.base + r.size) hi h.2,
  add64_exact r.base r.size,
  grow_left_lem r range k.1 g,
  Between-BasesBelow lc lo r.base r.base,
  covers-above lc lo r.base a h.0,
  covers-crossed rc (r.base + r.size) hi range.base a,
  covers-absorb_left rc range size (r.base + r.size) hi a,
  covers-absorb_left lc (grow_left r range) (free_subtree (node leaf r rc) size) lo r.base a,
)

-- What `absorb_right` promises of its result.
pub record RightOf (hi : ℕ) (t : Tree) (range : MemRange) (size : ℕ) (out : Absorbed) : Type 0 where
  pub above : Between (out.range.base + out.range.size) out.tree hi
  pub start : out.range.base ≡ range.base
  pub end : range.size ≤ out.range.size
  pub counted : out.size + count t ≡ size + count out.tree

pub absorb_right-RightOf :
    (t : Tree) (range : MemRange) (size lo hi : ℕ)
    → Between lo t hi
    → hi ≤ max_addr
    → range.base ≤ lo
    → range.base + range.size ≤ hi
    → IsRange range
    → count t ≤ size
    → size ≤ max_addr
    → RightOf hi t range size (absorb_right t range size)
unfolding absorb_right
absorb_right-RightOf leaf range size lo hi h m p q g c s = omega arith
absorb_right-RightOf (node lc r rc) range size lo hi h m p q g c s = ground (
  arith,
  Between-le lc lo r.base h.0,
  Between-le rc (r.base + r.size) hi h.2,
  add64_exact range.base range.size,
  grow_right_lem r range,
  free_subtree-eq-sub (node lc r leaf) size,
  absorb_right-RightOf lc range size lo r.base,
  absorb_right-RightOf rc (grow_right r range) (free_subtree (node lc r leaf) size)
      (r.base + r.size) hi,
)

-- Absorbing on the right changes no address.
pub covers-absorb_right :
    (t : Tree) (range : MemRange) (size lo hi a : ℕ)
    → Between lo t hi
    → hi ≤ max_addr
    → range.base ≤ lo
    → range.base + range.size ≤ hi
    → IsRange range
    → (covers (absorb_right t range size).tree a || holds (absorb_right t range size).range a)
      ≡ (covers t a || holds range a)
unfolding absorb_right
covers-absorb_right leaf range size lo hi a h m p q g = refl
covers-absorb_right (node lc r rc) range size lo hi a h m p q g = ground (
  arith,
  Between-le lc lo r.base h.0,
  Between-le rc (r.base + r.size) hi h.2,
  add64_exact range.base range.size,
  grow_right_lem r range,
  covers-below lc lo r.base a h.0,
  covers-above lc lo r.base a h.0,
  covers-absorb_right lc range size lo r.base a,
  covers-absorb_right rc (grow_right r range) (free_subtree (node lc r leaf) size) (r.base + r.size)
      hi a,
)
