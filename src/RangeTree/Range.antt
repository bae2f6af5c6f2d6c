-- ===== src/RangeTree/Range.antt =====
-- A range of addresses (`mem_range_t` of bop_api.h), `overlap` and `union_ranges` of dtree.c.
use cbop.Prelude.{
  ℕ, ◌+◌, ◌≤◌, ◌<◌, ◌≡◌, Bool, false, ◌&&◌, Option, none, some, arith, ltb, leb, if◌then◌else◌,
}
use cbop.Prelude.Word.{max_addr, add64, sub64, add64_exact, sub64_exact}

-- `rec` is the address of the data record, 0 for NULL.
pub record MemRange : Type 0 where
  pub base : ℕ
  pub size : ℕ
  pub rec : ℕ
  pub task : ℕ

-- The macros `min` and `max`.
unfoldable pub min : ℕ → ℕ → ℕ
min a b = if ltb a b then a else b

unfoldable pub max : ℕ → ℕ → ℕ
max a b = if ltb a b then b else a

-- `r->base + r->size`, the address after the last one of the range.
abbrev pub bound : MemRange → ℕ
bound r = add64 r.base r.size

-- `none` stands for the result 0, a pair for the result 1 with `*base` and `*size`.
unfoldable pub overlap : MemRange → MemRange → Option (ℕ × ℕ)
overlap b r =
    if leb b.base r.base
    then (if ltb r.base (bound b)
        then (if leb (bound b) (bound r)
            then some (r.base, sub64 (bound b) r.base)
            else some (r.base, r.size))
        else none)
    else (if ltb b.base (bound r)
        then (if leb (bound r) (bound b)
            then some (b.base, sub64 (bound r) b.base)
            else some (b.base, b.size))
        else none)

unfoldable pub union_ranges : MemRange → MemRange → ℕ × ℕ
unfolding min max
union_ranges r1 r2 =
    let ubase = min r1.base r2.base in (ubase, sub64 (max (bound r1) (bound r2)) ubase)

-- A range that is not empty and does not wrap around the address space.
pub record IsRange (r : MemRange) : Type 0 where
  pub nonempty : 0 < r.size
  pub fits : r.base + r.size ≤ max_addr

-- The addresses from `base` on, `size` of them.
abbrev pub within : ℕ → ℕ → ℕ → Bool
within base size a = leb base a && ltb a (base + size)

abbrev pub holds : MemRange → ℕ → Bool
holds r a = within r.base r.size a

-- What `overlap` reports: the addresses of the result, and none where it fails.
abbrev pub reported : Option (ℕ × ℕ) → ℕ → Bool
reported none a = false
reported (some (base, size)) a = within base size a

-- `overlap` reports exactly the addresses that both ranges hold.
pub overlap-reported :
    (b r : MemRange)
    → IsRange b
    → IsRange r
    → (a : ℕ) → reported (overlap b r) a ≡ (holds b a && holds r a)
unfolding overlap
overlap-reported b r hb hr a = ground (
  arith,
  add64_exact b.base b.size,
  add64_exact r.base r.size,
  sub64_exact (b.base + b.size) r.base,
  sub64_exact (r.base + r.size) b.base,
)

-- A reported overlap is a range that is not empty and does not wrap.
pub overlap-IsRange :
    (b r : MemRange) {base size : ℕ}
    → IsRange b
    → IsRange r
    → overlap b r ≡ some (base, size)
    → (0 < size) × (base + size ≤ max_addr)
unfolding overlap
overlap-IsRange b r hb hr e = ground (
  arith,
  add64_exact b.base b.size,
  add64_exact r.base r.size,
  sub64_exact (b.base + b.size) r.base,
  sub64_exact (r.base + r.size) b.base,
)
