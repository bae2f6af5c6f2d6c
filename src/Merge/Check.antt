-- ===== src/Merge/Check.antt =====
-- The conflict check of bop_merge.c: a task's reads against the writes of the tasks before it, which
-- stand in a map that all tasks share.
pub mod Laws
pub mod Serial
pub mod Refine
use cbop.Prelude.{
  ℕ, ◌+◌, Bool, true, false, ◌&&◌, List, [], ◌∷◌, Option, none, some, ◌==◌, if◌then◌else◌,
}
use cbop.Task.{TaskStatus}
use cbop.RangeTree.Range.{MemRange}
use cbop.RangeTree.Tree.{to_list}
use cbop.RangeTree.Map.{RangeMap}
use cbop.RangeTree.Overlaps.{map_overlaps}
use cbop.RangeTree.Contains.{map_contains}
use cbop.Postwait.FromTask.{TaskAdd, added, asserted, aborted, map_add_range_from_task}
use cbop.Merge.{is_outside_group}

-- An answer; or the process is gone by an assertion, by `BOP_abort_spec` or by a NULL range. (A main
-- task has received nothing and adds to an empty map, so that only a speculative one aborts.)
pub data Checked (A : Type 0) : Type 0 where
  answered : A → Checked A
  stopped : Checked A

infixl 5 ◌>>=◌
abbrev pub ◌>>=◌ : {A B : Type 0} → Checked A → (A → Checked B) → Checked B
answered a >>= f = f a
stopped >>= f = stopped

-- The shared map, and the maps of the task in postwait.c.
pub record CheckState : Type 0 where
  pub write_union : RangeMap
  pub received : RangeMap
  pub received_n_used : RangeMap
  pub conflict_addr : ℕ

unfoldable pub mem_range_eq : MemRange → ℕ × ℕ → Bool
mem_range_eq r (base, size) = r.base == base && r.size == size

-- A lookup whose result is read through its pointer.
unfoldable pub looked_up : Option (Option MemRange) × RangeMap → Checked (MemRange × RangeMap)
looked_up (none, m) = stopped
looked_up (some none, m) = stopped
looked_up (some (some r), m) = answered (r, m)

unfoldable pub task_added : TaskAdd → Checked RangeMap
task_added (added m) = answered m
task_added asserted = stopped
task_added aborted = stopped

-- Data that the task received stand where it read: no conflict if they come from the last writer.
-- `clone` is the address of the copy that `map_add_range_from_task` makes.
unfoldable pub check_received :
    ℕ → CheckState → MemRange → MemRange → Option (ℕ × ℕ) → Checked (Bool × CheckState)
unfolding mem_range_eq looked_up task_added
check_received clone s mseg acc none = answered (false, s)
check_received clone s mseg acc (some (rbase, rsize)) =
    if mem_range_eq acc (rbase, rsize)
    then (do
      (recv, received) ← looked_up (map_contains s.received rbase)
      if recv.task == acc.task
          then (do
            used ← task_added (
                map_add_range_from_task s.received_n_used acc.base acc.size
                  (if recv.rec == 0 then 0 else clone) acc.task)
            answered (true, record s { received = received; received_n_used = used }))
          else answered (false, record s { received = received }))
    else answered (false, s)

-- An overlap with the shared map: whether the task is still free of conflicts.
unfoldable pub check_access : ℕ → CheckState → MemRange → ℕ × ℕ → Checked (Bool × CheckState)
unfolding mem_range_eq looked_up check_received
check_access clone s mseg (obase, osize) = do
  (first, union) ← looked_up (map_contains s.write_union obase)
  let s1 : CheckState = record s { write_union = union } in
      if mem_range_eq mseg (obase, osize)
      then (do
        (acc, union') ← looked_up (map_contains union obase)
        let s2 : CheckState = record s1 { write_union = union'; conflict_addr = obase } in
            if mem_range_eq acc (obase, osize)
            then check_received clone s2 mseg acc (map_overlaps s.received mseg)
            else answered (false, s2))
      else answered (false, s1)

-- One range: the address of a conflict, 0 for none. The rest is checked only where the range is free.
unfoldable pub check_range :
    ℕ
    → CheckState
    → MemRange
    → (CheckState → Checked (ℕ × CheckState))
    → Option (ℕ × ℕ)
    → Checked (ℕ × CheckState)
unfolding check_access
check_range clone s mseg rest none = rest s
check_range clone s mseg rest (some (obase, osize)) = do
  (free, s') ← check_access clone s mseg (obase, osize)
  let more = rest s' in if free then more else answered (obase, s')

unfoldable pub check_ranges : ℕ → List MemRange → CheckState → Checked (ℕ × CheckState)
unfolding check_range
check_ranges clone [] s = answered (0, s)
check_ranges clone (mseg ∷ msegs) s =
    check_range clone s mseg (check_ranges clone msegs) (map_overlaps s.write_union mseg)

unfoldable pub check_for_overlap : ℕ → RangeMap → CheckState → Checked (ℕ × CheckState)
unfolding check_ranges
check_for_overlap clone my_access s =
    if s.write_union.size == 0
    then answered (0, s)
    else check_ranges clone (to_list my_access.root) s

-- `map_foreach( & write_map, union_add_range )`
unfoldable pub union_add_ranges : ℕ → List MemRange → CheckState → Checked CheckState
unfolding task_added
union_add_ranges ppr_index [] s = answered s
union_add_ranges ppr_index (r ∷ rs) s = do
  union ← task_added (map_add_range_from_task s.write_union r.base r.size 0 ppr_index)
  union_add_ranges ppr_index rs (record s { write_union = union })

unfoldable pub after_overlap : ℕ → RangeMap → ℕ × CheckState → Checked (Bool × CheckState)
unfolding union_add_ranges
after_overlap ppr_index write_map (ret, s) =
    if ret == 0
    then (do s' ← union_add_ranges ppr_index (to_list write_map.root) s; answered (true, s'))
    else answered (false, s)

unfoldable pub ppr_is_correct :
    TaskStatus → ℕ → ℕ → RangeMap → RangeMap → CheckState → Checked (Bool × CheckState)
unfolding check_for_overlap after_overlap is_outside_group
ppr_is_correct status ppr_index clone read_map write_map s =
    if is_outside_group status
    then answered (true, s)
    else (do out ← check_for_overlap clone read_map s; after_overlap ppr_index write_map out)
