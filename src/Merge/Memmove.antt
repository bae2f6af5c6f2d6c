-- ===== src/Merge/Memmove.antt =====
-- `memmove` of libc_overrides.c, which goes through a buffer of its own and records the write. `memcpy` is
-- the C library's; the buffer is at an address that is given.
use cbop.Prelude.{
  ℕ, ◌+◌, ◌-◌, ◌≤◌, ◌<◌, ◌≡◌, true, false, Option, some, arith, refl, ap, ◌∙◌, if◌then◌else◌, ◌⊎◌,
  inl, inr, Bool-cases,
}
use cbop.Prelude.Word.{max_addr}
use cbop.Task.{TaskStatus, PprPos}
use cbop.RangeTree.Range.{within}
use cbop.RangeTree.Gaps.Add.{HasGaps}
use cbop.Merge.{AccessMaps, Memory, is_ignored, record_write}
use cbop.Merge.Record.{Includes, record_write-Includes}

-- Two stretches of one size that share no address.
abbrev pub Apart : ℕ → ℕ → ℕ → Type 0
Apart a b num = (a + num ≤ b) ⊎ (b + num ≤ a)

-- What `memcpy` promises of stretches that are apart.
abbrev pub Copies : (ℕ → ℕ → ℕ → Memory → Memory) → Type 0
Copies memcpy =
    (dest source num : ℕ) (m : Memory)
    → Apart dest source num
    → (a : ℕ)
    → memcpy dest source num m a ≡ (if within dest num a then m (source + (a - dest)) else m a)

module _ (memcpy : ℕ → ℕ → ℕ → Memory → Memory) where
  unfoldable pub memmove :
      TaskStatus → PprPos → ℕ → ℕ → ℕ → ℕ → Memory → AccessMaps → Memory × Option AccessMaps
  memmove status pos holder dest source num m maps =
      (memcpy dest holder num (memcpy holder source num m), record_write status pos dest num maps)

  moved-at :
      (copies : Copies memcpy)
      → (holder dest source num : ℕ) (m : Memory) → Apart holder source num
      → Apart dest holder num
      → (a : ℕ) → within holder num a ≡ false
      → memcpy dest holder num (memcpy holder source num m) a
        ≡ (if within dest num a then m (source + (a - dest)) else m a)
  moved-at copies holder dest source num m from to a outside =
      elim (Bool-cases (within dest num a)) [
        | inl inside ↦
            let place = holder + (a - dest) in
            let low : within holder num place ≡ true = ground (arith, inside) in
            rw inside (
              copies dest holder num (memcpy holder source num m) to a
              ∙ rw inside (copies holder source num m from place ∙ rw low (ap m (omega arith))))
        | inr other ↦ rw other (
            copies dest holder num (memcpy holder source num m) to a
            ∙ rw other (copies holder source num m from a ∙ rw outside refl))
      ]

  -- The destination gets the bytes that the source had, also where the two overlap, and all else but
  -- the buffer stays; where accesses count, the write is recorded. The buffer is apart from both, and
  -- the destination is not empty, does not start at 0 and does not wrap around.
  pub memmove-Moved :
      (copies : Copies memcpy)
      → (status : TaskStatus) (pos : PprPos) (holder dest source num : ℕ) (m : Memory)
      → (maps : AccessMaps) → Apart holder source num
      → Apart dest holder num
      → is_ignored status pos maps ≡ false
      → HasGaps maps.write_map
      → HasGaps maps.ordered_writes
      → 0 < dest
      → 0 < num
      → dest + num ≤ max_addr
      → (moved : Memory) × (maps' : AccessMaps) × (memmove status pos holder dest source num m maps
          ≡ (moved, some maps'))
        × ((a : ℕ)
            → (within holder num a ≡ true)
              ⊎ (moved a ≡ (if within dest num a then m (source + (a - dest)) else m a)))
        × Includes maps'.write_map dest num
  unfolding memmove
  memmove-Moved copies status pos holder dest source num m maps from to counts w wo p n fits =
      let (maps', e, included, ordered, same) =
        record_write-Includes status pos dest num maps counts w wo p n fits in
      (
        memcpy dest holder num (memcpy holder source num m),
        maps',
        rw e refl,
        λ a. elim (Bool-cases (within holder num a)) [
          | inl inside ↦ inl inside
          | inr outside ↦ inr (moved-at copies holder dest source num m from to a outside)
        ],
        included,
      )
