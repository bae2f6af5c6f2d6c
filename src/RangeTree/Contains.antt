-- ===== src/RangeTree/Contains.antt =====
-- `map_contains` and `map_search_key` of dtree.c: looking up one address.
use cbop.Prelude.{
  ℕ, ◌+◌, ◌≤◌, ◌<◌, ◌≡◌, refl, ◌∙◌, true, false, ◌||◌, Option, none, some, arith, sym, ltb→lt,
  Bool-cases, inl, inr, ltb, leb, if◌then◌else◌,
}
use cbop.Prelude.Word.{max_addr, add64_exact}
use cbop.RangeTree.Range.{MemRange, bound, holds}
use cbop.RangeTree.Tree.{Tree, leaf, node, covers, Between, Between-le, covers-below, covers-above}
use cbop.RangeTree.Splay.{splay, splay_loop}
use cbop.RangeTree.Splay.Keys.{
  BasesBelow, Splits, splay-Splits, splay-Between, covers-splay, count-splay, is_leaf-node,
  covers_of_BasesAbove,
}
use cbop.RangeTree.Map.{RangeMap, IsWellFormed, covered}

-- `while ( node->rc != NULL ) node = node->rc;` from a node with this range and right child.
unfoldable pub rightmost : MemRange → Tree → MemRange
rightmost r leaf = r
rightmost r (node lc r' rc) = rightmost r' rc

-- The result of a lookup, by the root that the splay left. The outer `none` stands for the failure
-- of the assertion, the inner one for NULL.
unfoldable pub found_left : ℕ → Tree → Option (Option MemRange)
found_left addr leaf = some none
found_left addr (node lc r rc) =
    let last = rightmost r rc in
    if leb last.base addr then some (if ltb addr (bound last) then some last else none) else none

unfoldable pub found_at : ℕ → Tree → Option (Option MemRange)
unfolding found_left
found_at addr leaf = some none
found_at addr (node lc top rc) =
    if ltb addr top.base
    then found_left addr lc
    else some (if ltb addr (bound top) then some top else none)

-- The lookup, and the map with its new root.
unfoldable pub map_contains : RangeMap → ℕ → Option (Option MemRange) × RangeMap
unfolding found_at
map_contains m addr = let root = splay m.root addr in (found_at addr root, record m { root = root })

-- The record of a key, 0 for NULL. The outer `none` stands for the failure of an assertion.
unfoldable pub record_of : Option (Option MemRange) → Option ℕ
record_of none = none
record_of (some none) = some 0
record_of (some (some r)) = some r.rec

unfoldable pub map_search_key : RangeMap → ℕ → Option ℕ × RangeMap
unfolding record_of map_contains
map_search_key m addr =
    let (found, m') = map_contains m addr in if m.is_hash then (record_of found, m') else (none, m)

-- The last range that starts before an address is the only one before it that can hold it.
covers-rightmost :
    (r : MemRange) (rc : Tree) (hi addr : ℕ)
    → 0 < r.size
    → r.base < addr
    → hi ≤ max_addr
    → Between (r.base + r.size) rc hi
    → BasesBelow addr rc
    → ((holds r addr || covers rc addr) ≡ holds (rightmost r rc) addr)
      × ((rightmost r rc).base < addr)
      × ((rightmost r rc).base + (rightmost r rc).size ≤ hi)
unfolding rightmost
covers-rightmost r leaf hi addr s b m h k = ground arith
covers-rightmost r (node lc r' rc) hi addr s b m h k = ground (
  arith,
  Between-le lc (r.base + r.size) r'.base h.0,
  covers-above lc (r.base + r.size) r'.base addr h.0,
  covers-rightmost r' rc hi addr,
)

-- A lookup that passes its assertion and answers as the tree does.
abbrev pub Finds : Tree → ℕ → Option (Option MemRange) → Type 0
Finds t addr none = ⊥
Finds t addr (some none) = covers t addr ≡ false
Finds t addr (some (some r)) = (covers t addr ≡ true) × (holds r addr ≡ true)

found_left-Finds :
    (lc : Tree) (hi addr : ℕ)
    → Between 0 lc hi
    → hi ≤ max_addr
    → BasesBelow addr lc
    → Finds lc addr (found_left addr lc)
unfolding found_left
found_left-Finds leaf hi addr h m k = refl
found_left-Finds (node lc r rc) hi addr h m k = ground (
  arith,
  covers-above lc 0 r.base addr h.0,
  covers-rightmost r rc hi addr,
  add64_exact (rightmost r rc).base (rightmost r rc).size,
)

-- Left of the root the whole tree answers as its left child does.
Finds-left :
    (lc : Tree) (top : MemRange) (rc : Tree) (addr : ℕ) (o : Option (Option MemRange))
    → Between 0 (node lc top rc) max_addr
    → addr < top.base
    → Finds lc addr o
    → Finds (node lc top rc) addr o
Finds-left lc top rc addr none h p f = f
Finds-left lc top rc addr (some none) h p f =
    ground (arith, covers-below rc (top.base + top.size) max_addr addr h.2)
Finds-left lc top rc addr (some (some r)) h p f = ground arith

found_at-Finds :
    (t : Tree) (addr : ℕ) → Between 0 t max_addr → Splits addr t → Finds t addr (found_at addr t)
unfolding found_at
found_at-Finds leaf addr h s = refl
found_at-Finds (node lc top rc) addr h s =
    let le = Between-le rc (top.base + top.size) max_addr h.2 in
    let tb = add64_exact top.base top.size le in
    elim (Bool-cases (ltb addr top.base)) [
      | inl p ↦ rw p (
          Finds-left lc top rc addr _ h (ltb→lt addr top.base p)
            (found_left-Finds lc top.base addr h.0 (omega arith) s.0))
      | inr q ↦ rw q (elim (Bool-cases (ltb addr (bound top))) [
        | inl p ↦ rw p (ground arith)
        | inr p ↦
            rw p (
              ground (arith, covers-above lc 0 top.base addr h.0, covers_of_BasesAbove rc addr s.1))
      ])
    ]

Finds-cong :
    (t t' : Tree) (addr : ℕ) (o : Option (Option MemRange))
    → covers t' addr ≡ covers t addr
    → Finds t' addr o
    → Finds t addr o
Finds-cong t t' addr none e f = f
Finds-cong t t' addr (some none) e f = ground arith
Finds-cong t t' addr (some (some r)) e f = ground arith

Finds-splay :
    (t : Tree) (addr : ℕ) → Between 0 t max_addr → Finds t addr (found_at addr (splay t addr))
unfolding splay splay_loop found_at
Finds-splay leaf addr h = refl
Finds-splay (node lc r rc) addr h =
    Finds-cong (node lc r rc) (splay (node lc r rc) addr) addr _
      (covers-splay (node lc r rc) addr addr)
      (found_at-Finds (splay (node lc r rc) addr) addr
        (splay-Between (node lc r rc) addr 0 max_addr h)
        (splay-Splits (node lc r rc) addr 0 max_addr (is_leaf-node lc r rc) h))

-- In a well-formed map a lookup passes its assertion and finds a range that holds the address
-- exactly when the map covers it.
pub map_contains-Finds :
    (m : RangeMap) (addr : ℕ) → IsWellFormed m → Finds m.root addr (map_contains m addr).0
unfolding map_contains
map_contains-Finds m addr w = Finds-splay m.root addr w.ordered

-- A lookup keeps the map well formed, and what it covers.
pub map_contains-IsWellFormed :
    (m : RangeMap) (addr : ℕ)
    → IsWellFormed m
    → IsWellFormed (map_contains m addr).1
      × ((a : ℕ) → covered (map_contains m addr).1 a ≡ covered m a)
unfolding map_contains
map_contains-IsWellFormed m addr w = (
  record {
    ordered = splay-Between m.root addr 0 max_addr w.ordered;
    counted = w.counted ∙ sym (count-splay m.root addr);
  },
  λ a. covers-splay m.root addr a,
)
