-- ===== src/RangeTree/Gaps.antt =====
-- Maps whose ranges have a gap between them: what `map_add_range` of dtree.c makes, since it joins the
-- ranges that border on one another.
pub mod Absorb
pub mod Add
pub mod SetOps
use cbop.Prelude.{ℕ, ◌+◌, ◌≤◌, ◌<◌, ◌≡◌, ◌↔◌, List, [], ◌∷◌, ◌++◌, arith, append_assoc, append-nil}
use cbop.RangeTree.Range.{MemRange}
use cbop.RangeTree.Tree.{Tree, leaf, node, to_list, Between}
use cbop.RangeTree.Splay.{splay, to_list-splay}
use cbop.RangeTree.Splay.Keys.{BasesAbove}

-- The ranges are not empty and ascend with a gap between each two, after `lo` and before `hi`.
abbrev pub Gapped : ℕ → Tree → ℕ → Type 0
Gapped lo leaf hi = lo < hi
Gapped lo (node lc r rc) hi = Gapped lo lc r.base × (0 < r.size) × Gapped (r.base + r.size) rc hi

abbrev pub GapChain : ℕ → List MemRange → ℕ → Type 0
GapChain lo [] hi = lo < hi
GapChain lo (r ∷ rs) hi = (lo < r.base) × (0 < r.size) × GapChain (r.base + r.size) rs hi

pub Gapped-lt : (t : Tree) (lo hi : ℕ) → Gapped lo t hi → lo < hi
Gapped-lt leaf lo hi h = h
Gapped-lt (node lc r rc) lo hi h =
    omega (arith, Gapped-lt lc lo r.base h.0, Gapped-lt rc (r.base + r.size) hi h.2)

pub Gapped-Between : (t : Tree) (lo hi : ℕ) → Gapped lo t hi → Between lo t hi
Gapped-Between leaf lo hi h = omega arith
Gapped-Between (node lc r rc) lo hi h =
    (Gapped-Between lc lo r.base h.0, h.1, Gapped-Between rc (r.base + r.size) hi h.2)

pub Gapped-mono :
    (t : Tree) (lo hi lo' hi' : ℕ) → lo' ≤ lo → hi ≤ hi' → Gapped lo t hi → Gapped lo' t hi'
Gapped-mono leaf lo hi lo' hi' p q h = omega arith
Gapped-mono (node lc r rc) lo hi lo' hi' p q h = (
  Gapped-mono lc lo r.base lo' r.base p (omega arith) h.0,
  h.1,
  Gapped-mono rc (r.base + r.size) hi (r.base + r.size) hi' (omega arith) q h.2,
)

pub GapChain-lt : (rs : List MemRange) (lo hi : ℕ) → GapChain lo rs hi → lo < hi
GapChain-lt [] lo hi h = h
GapChain-lt (r ∷ rs) lo hi h = omega (arith, GapChain-lt rs (r.base + r.size) hi h.2)

GapChain-mono :
    (rs : List MemRange) (lo hi lo' : ℕ) → lo' ≤ lo → GapChain lo rs hi → GapChain lo' rs hi
GapChain-mono [] lo hi lo' p h = omega arith
GapChain-mono (r ∷ rs) lo hi lo' p h = (omega arith, h.1, h.2)

-- The same with a first range that may start at the bound.
abbrev FirstFrom : ℕ → List MemRange → ℕ → Type 0
FirstFrom lo [] hi = lo ≤ hi
FirstFrom lo (r ∷ rs) hi = (lo ≤ r.base) × (0 < r.size) × GapChain (r.base + r.size) rs hi

Gapped-append :
    (t : Tree) (ys : List MemRange) (lo m hi : ℕ)
    → Gapped lo t m
    → FirstFrom m ys hi
    → GapChain lo (to_list t ++ ys) hi
Gapped-append leaf [] lo m hi h k = omega arith
Gapped-append leaf (y ∷ ys) lo m hi h k = (omega arith, k.1, k.2)
Gapped-append (node lc r rc) ys lo m hi h k = rw (append_assoc (to_list lc) (r ∷ to_list rc) ys) (
    Gapped-append lc (r ∷ (to_list rc ++ ys)) lo r.base hi h.0
      (omega arith, h.1, Gapped-append rc ys (r.base + r.size) m hi h.2 k))

append-Gapped :
    (t : Tree) (ys : List MemRange) (lo hi : ℕ)
    → GapChain lo (to_list t ++ ys) hi
    → (m : ℕ) × Gapped lo t m × FirstFrom m ys hi
append-Gapped leaf [] lo hi h = (hi, h, omega arith)
append-Gapped leaf (y ∷ ys) lo hi h = (y.base, h.0, (omega arith, h.1, h.2))
append-Gapped (node lc r rc) ys lo hi h =
    let (m, low, rest) =
      append-Gapped lc (r ∷ (to_list rc ++ ys)) lo hi
        (rw (append_assoc (to_list lc) (r ∷ to_list rc) ys) at h) in
    let (m', high, last) = append-Gapped rc ys (r.base + r.size) hi rest.2 in
    (m', (Gapped-mono lc lo m lo r.base (omega arith) rest.0 low, rest.1, high), last)

pub Gapped-iff : (t : Tree) (lo hi : ℕ) → Gapped lo t hi ↔ GapChain lo (to_list t) hi
Gapped-iff t lo hi = (forth, back)
  where
    forth : Gapped lo t hi → GapChain lo (to_list t) hi
    forth h = rw append-nil at (Gapped-append t [] lo hi hi h (omega arith))

    back : GapChain lo (to_list t) hi → Gapped lo t hi
    back h =
        let (m, low, last) = append-Gapped t [] lo hi (rw append-nil h) in
        Gapped-mono t lo m lo hi (omega arith) last low

pub splay-Gapped : (t : Tree) (key lo hi : ℕ) → Gapped lo t hi → Gapped lo (splay t key) hi
splay-Gapped t key lo hi h =
    (Gapped-iff (splay t key) lo hi).1 (rw (to_list-splay t key) ((Gapped-iff t lo hi).0 h))

-- Ranges that start after the key lie above it.
pub BasesAbove-Gapped :
    (t : Tree) (lo hi key : ℕ) → key < hi → Gapped lo t hi → BasesAbove key t → Gapped key t hi
BasesAbove-Gapped leaf lo hi key p h k = p
BasesAbove-Gapped (node lc r rc) lo hi key p h k =
    (BasesAbove-Gapped lc lo r.base key k.1 h.0 k.0, h.1, h.2)
