-- ===== src/RangeTree/Overlaps.antt =====
-- `map_overlaps` of dtree.c: the first overlap of a range with a map.
use cbop.Prelude.{
  ℕ, ◌+◌, ◌≤◌, ◌<◌, ◌≡◌, false, ◌&&◌, Option, none, some, arith, Bool-cases, ltb→lt, inl, inr, ltb,
  leb, if◌then◌else◌,
}
use cbop.Prelude.Word.{max_addr, sub64, add64_exact, sub64_exact}
use cbop.RangeTree.Range.{MemRange, bound, overlap, IsRange, within, holds}
use cbop.RangeTree.Tree.{Tree, leaf, node, covers, Between, Between-le, covers-below, covers-above}
use cbop.RangeTree.Map.{RangeMap, IsWellFormed}

-- The part of `inp` in front of a node.
unfoldable pub head_of : MemRange → ℕ → MemRange
head_of inp start = record { base = inp.base; size = sub64 start inp.base; rec = 0; task = 0 }

unfoldable pub or_else : {A : Type 0} → Option A → Option A → Option A
or_else none other = other
or_else (some a) other = some a

unfoldable pub subtree_overlaps : Tree → MemRange → Option (ℕ × ℕ)
unfolding or_else
subtree_overlaps leaf inp = none
subtree_overlaps (node lc r rc) inp =
    let after = subtree_overlaps rc inp in
    let before = subtree_overlaps lc inp in
    let head = subtree_overlaps lc (head_of inp r.base) in
    let last = overlap r inp in
    if leb (bound r) inp.base
    then after
    else (if ltb (bound inp) r.base
        then before
        else (if ltb inp.base r.base then or_else head last else last))

unfoldable pub map_overlaps : RangeMap → MemRange → Option (ℕ × ℕ)
map_overlaps m inp = subtree_overlaps m.root inp

-- What a search promises at an address: `none` means that the tree covers nothing of the range, and
-- `some` is the first stretch of the range that it covers, up to the end of that stretch.
abbrev pub IsFirst : Tree → MemRange → ℕ → Option (ℕ × ℕ) → Type 0
IsFirst t inp a none = (holds inp a && covers t a) ≡ false
IsFirst t inp a (some (base, size)) =
    (0 < size)
    × (inp.base ≤ base)
    × (base + size ≤ inp.base + inp.size)
    × ((ltb a (base + size) && (holds inp a && covers t a)) ≡ within base size a)

head_of-IsRange :
    (inp : MemRange) (start : ℕ) → inp.base < start → start ≤ max_addr → IsRange (head_of inp start)
unfolding head_of
head_of-IsRange inp start h k = omega (arith, sub64_exact start inp.base)

head_of_lem :
    (inp : MemRange) (start : ℕ)
    → inp.base < start
    → start ≤ max_addr
    → ((head_of inp start).base ≡ inp.base) × ((head_of inp start).size + inp.base ≡ start)
unfolding head_of
head_of_lem inp start h k = omega (arith, sub64_exact start inp.base)

last-IsFirst :
    (lc : Tree) (r : MemRange) (rc : Tree) (inp : MemRange) (lo hi a : ℕ)
    → Between lo (node lc r rc) hi
    → hi ≤ max_addr
    → IsRange inp
    → inp.base < r.base + r.size
    → r.base ≤ inp.base + inp.size
    → (holds inp a && covers lc a) ≡ false
    → IsFirst (node lc r rc) inp a (overlap r inp)
unfolding overlap
last-IsFirst lc r rc inp lo hi a h m g p q e = ground (
  arith,
  Between-le lc lo r.base h.0,
  Between-le rc (r.base + r.size) hi h.2,
  add64_exact r.base r.size,
  add64_exact inp.base inp.size,
  sub64_exact (r.base + r.size) inp.base,
  sub64_exact (inp.base + inp.size) r.base,
  covers-below rc (r.base + r.size) hi a h.2,
)

-- The three other branches hand on the result for a child.
module _ (lc : Tree) (r : MemRange) (rc : Tree) (inp : MemRange) (lo hi a : ℕ)
    (h : Between lo (node lc r rc) hi) (m : hi ≤ max_addr) (g : IsRange inp) where
  after-IsFirst :
      (o : Option (ℕ × ℕ))
      → r.base + r.size ≤ inp.base
      → IsFirst rc inp a o
      → IsFirst (node lc r rc) inp a o
  after-IsFirst none p f = ground (arith, covers-above lc lo r.base a h.0)
  after-IsFirst (some (base, size)) p f = ground (arith, covers-above lc lo r.base a h.0)

  before-IsFirst :
      (o : Option (ℕ × ℕ))
      → inp.base + inp.size < r.base
      → IsFirst lc inp a o
      → IsFirst (node lc r rc) inp a o
  before-IsFirst none p f = ground (arith, covers-below rc (r.base + r.size) hi a h.2)
  before-IsFirst (some (base, size)) p f =
      ground (arith, covers-below rc (r.base + r.size) hi a h.2)

  head-IsFirst :
      (o : Option (ℕ × ℕ))
      → inp.base < r.base
      → r.base ≤ inp.base + inp.size
      → IsFirst lc (head_of inp r.base) a o
      → IsFirst (node lc r rc) inp a (or_else o (overlap r inp))
  unfolding or_else
  head-IsFirst none p q f = last-IsFirst lc r rc inp lo hi a h m g (omega arith) q (
      ground (
        arith,
        covers-above lc lo r.base a h.0,
        Between-le rc (r.base + r.size) hi h.2,
        head_of_lem inp r.base p,
      ))
  head-IsFirst (some (base, size)) p q f = ground (
    arith,
    covers-below rc (r.base + r.size) hi a h.2,
    Between-le rc (r.base + r.size) hi h.2,
    head_of_lem inp r.base p,
  )

-- The search finds the first overlap, at every address, whatever the shape of the tree.
pub subtree_overlaps-IsFirst :
    (t : Tree) (inp : MemRange) (lo hi a : ℕ)
    → Between lo t hi
    → hi ≤ max_addr
    → IsRange inp
    → IsFirst t inp a (subtree_overlaps t inp)
unfolding subtree_overlaps
subtree_overlaps-IsFirst leaf inp lo hi a h m g = ground arith
subtree_overlaps-IsFirst (node lc r rc) inp lo hi a h m g =
    let le = Between-le rc (r.base + r.size) hi h.2 in
    let rb = add64_exact r.base r.size (omega arith) in
    let ib = add64_exact inp.base inp.size g.fits in
    elim (Bool-cases (leb (bound r) inp.base)) [
      | inl p ↦ rw p (
          after-IsFirst lc r rc inp lo hi a h m g _ (ground arith)
            (subtree_overlaps-IsFirst rc inp (r.base + r.size) hi a h.2 m g))
      | inr p ↦ elim (Bool-cases (ltb (bound inp) r.base)) [
        | inl q ↦
            rw (p, q)
              (before-IsFirst lc r rc inp lo hi a h m g _ (ground arith)
                (subtree_overlaps-IsFirst lc inp lo r.base a h.0 (omega arith) g))
        | inr q ↦ elim (Bool-cases (ltb inp.base r.base)) [
          | inl s ↦
              let less = ltb→lt inp.base r.base s in
              rw (p, q, s)
                (head-IsFirst lc r rc inp lo hi a h m g _ less (ground arith) (
                  subtree_overlaps-IsFirst lc (head_of inp r.base) lo r.base a h.0 (omega arith)
                    (head_of-IsRange inp r.base less (omega arith))))
          | inr s ↦
              rw (p, q, s)
                (last-IsFirst lc r rc inp lo hi a h m g (ground arith) (ground arith)
                  (ground (arith, covers-above lc lo r.base a h.0)))
        ]
      ]
    ]

-- `map_overlaps` reports the first stretch of a range that a well-formed map covers.
pub map_overlaps-IsFirst :
    (m : RangeMap) (inp : MemRange) (a : ℕ)
    → IsWellFormed m
    → IsRange inp
    → IsFirst m.root inp a (map_overlaps m inp)
unfolding map_overlaps
map_overlaps-IsFirst m inp a w g =
    subtree_overlaps-IsFirst m.root inp 0 max_addr a w.ordered (omega arith) g
