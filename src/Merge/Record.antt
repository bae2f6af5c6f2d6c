-- ===== src/Merge/Record.antt =====
-- `BOP_record_write` of bop_merge.c and the maps of a task.
use cbop.Prelude.{
  ℕ, ◌+◌, ◌≤◌, ◌<◌, ◌≡◌, false, ◌&&◌, not, ◌⊎◌, some, arith, refl, inl, inr, Bool-cases,
}
use cbop.Prelude.Word.{max_addr}
use cbop.Task.{TaskStatus, PprPos}
use cbop.RangeTree.Range.{within}
use cbop.RangeTree.Map.{RangeMap, covered}
use cbop.RangeTree.Add.{add_range, map_add_range}
use cbop.RangeTree.Add.Cover.{covered-add_range}
use cbop.RangeTree.Gaps.Add.{HasGaps, add_range-HasGaps}
use cbop.Merge.{AccessMaps, is_ignored, record_write}

-- A map after a write: well formed, with gaps, and with all the addresses that were written.
pub record Includes (m : RangeMap) (addr size : ℕ) : Type 0 where
  pub valid : HasGaps m
  pub included : (a : ℕ) → (within addr size a && not (covered m a)) ≡ false

pub add_range-Includes :
    (m : RangeMap) (addr size : ℕ)
    → HasGaps m
    → 0 < addr
    → 0 < size
    → addr + size ≤ max_addr
    → Includes (add_range m addr size 0) addr size
add_range-Includes m addr size w p n fits = record {
  valid = add_range-HasGaps m addr size 0 p n fits w;
  included = λ a. ground (arith, covered-add_range m addr size 0 n fits w.valid a);
}

-- Where accesses count, a write is recorded: in the write map, and within an ordered region in the
-- map of that region too. The read map stays as it is.
pub record_write-Includes :
    (status : TaskStatus) (pos : PprPos) (addr size : ℕ) (maps : AccessMaps)
    → is_ignored status pos maps ≡ false
    → HasGaps maps.write_map
    → HasGaps maps.ordered_writes
    → 0 < addr
    → 0 < size
    → addr + size ≤ max_addr
    → (maps' : AccessMaps) × (record_write status pos addr size maps ≡ some maps')
      × Includes maps'.write_map addr size
      × ((maps.in_ordered_region ≡ false) ⊎ Includes maps'.ordered_writes addr size)
      × (maps'.read_map ≡ maps.read_map)
unfolding record_write map_add_range
record_write-Includes status pos addr size maps counts w wo p n fits =
    elim (Bool-cases maps.in_ordered_region) [
      | inl ordered ↦ (
        record maps {
          write_map = add_range maps.write_map addr size 0;
          ordered_writes = add_range maps.ordered_writes addr size 0;
        },
        ground (arith, counts, ordered),
        add_range-Includes maps.write_map addr size w p n fits,
        inr (add_range-Includes maps.ordered_writes addr size wo p n fits),
        refl,
      )
      | inr unordered ↦ (
        record maps { write_map = add_range maps.write_map addr size 0 },
        ground (arith, counts, unordered),
        add_range-Includes maps.write_map addr size w p n fits,
        inl unordered,
        refl,
      )
    ]
