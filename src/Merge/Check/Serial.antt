-- ===== src/Merge/Check/Serial.antt =====
-- A group of tasks from their checks to their commit, against the run of the tasks one after the other.
-- Every task runs on the memory as it was when the group started, and no task has received data.
use cbop.Prelude.{
  ℕ, ◌+◌, ◌≡◌, refl, ap, Bool, true, false, ◌&&◌, ◌||◌, List, [], ◌∷◌, arith, if◌then◌else◌,
}
use cbop.Task.{TaskStatus}
use cbop.RangeTree.Tree.{covers-to_list}
use cbop.RangeTree.Map.{RangeMap, covered}
use cbop.RangeTree.Gaps.Add.{HasGaps}
use cbop.Merge.{Memory}
use cbop.Merge.Check.{Checked, answered, CheckState, ◌>>=◌, ppr_is_correct}
use cbop.Merge.Check.Laws.{Verdict, Passed}

-- What a task recorded, and the bytes that it writes, from what it reads.
pub record TaskRun : Type 0 where
  pub reads : RangeMap
  pub writes : RangeMap
  pub effect : Memory → Memory

abbrev pub seen : RangeMap → Memory → Memory
seen reads memory a = if covered reads a then memory a else 0

abbrev pub run_task : TaskRun → Memory → Memory
run_task t memory a = if covered t.writes a then t.effect (seen t.reads memory) a else memory a

-- The tasks one after the other.
abbrev pub run_tasks : List TaskRun → Memory → Memory
run_tasks [] memory a = memory a
run_tasks (t ∷ ts) memory a = run_tasks ts (run_task t memory) a

-- The write maps, and the memories that the tasks leave when each runs on the first one.
abbrev pub speculate : Memory → List TaskRun → List (RangeMap × Memory)
speculate memory [] = []
speculate memory (t ∷ ts) = (t.writes, run_task t memory) ∷ speculate memory ts

-- The checks of the tasks in their order, until one fails. The first one is that of the main task.
unfoldable pub check_tasks :
    ℕ → ℕ → TaskStatus → List TaskRun → CheckState → Checked (Bool × CheckState)
unfolding ppr_is_correct
check_tasks clone ppr_index status [] s = answered (true, s)
check_tasks clone ppr_index status (t ∷ ts) s = do
  (passed, s') ← ppr_is_correct status ppr_index clone t.reads t.writes s
  let rest = check_tasks clone (ppr_index + 1) TaskStatus.spec ts s' in
      if passed then rest else answered (false, s')

-- Some task reads an address that an earlier one writes.
abbrev pub is_stale : (ℕ → Bool) → List TaskRun → ℕ → Bool
is_stale written [] a = false
is_stale written (t ∷ ts) a =
    (covered t.reads a && written a) || is_stale (λ x. covered t.writes x || written x) ts a

pub is_stale-cong :
    (ts : List TaskRun) (w w' : ℕ → Bool) (a : ℕ)
    → ((x : ℕ) → w x ≡ w' x)
    → is_stale w ts a ≡ is_stale w' ts a
is_stale-cong [] w w' a h = refl
is_stale-cong (t ∷ ts) w w' a h = ground (
  arith,
  h a,
  is_stale-cong ts (λ x. covered t.writes x || w x) (λ x. covered t.writes x || w' x) a
      (λ x. ap (λ b. covered t.writes x || b) (h x)),
)

-- The maps of every task are as its recording leaves them.
abbrev pub AllRecorded : List TaskRun → Type 0
AllRecorded [] = Unit
AllRecorded (t ∷ ts) = HasGaps t.reads × HasGaps t.writes × AllRecorded ts

abbrev pub NoneWrites : (ℕ → Bool) → List TaskRun → Type 0
NoneWrites written [] = Unit
NoneWrites written (t ∷ ts) =
    ((a : ℕ) → (covered t.writes a && written a) ≡ false) × NoneWrites written ts

-- No address is written by two tasks.
abbrev pub DisjointWrites : List TaskRun → Type 0
DisjointWrites [] = Unit
DisjointWrites (t ∷ ts) = NoneWrites (covered t.writes) ts × DisjointWrites ts

pub NoneWrites-or :
    (ts : List TaskRun) (w w' v : ℕ → Bool)
    → ((x : ℕ) → v x ≡ (w x || w' x))
    → NoneWrites w ts
    → NoneWrites w' ts
    → NoneWrites v ts
NoneWrites-or [] w w' v e h k = tt
NoneWrites-or (t ∷ ts) w w' v e h k =
    ((λ a. ground (arith, e a, h.0 a, k.0 a)), NoneWrites-or ts w w' v e h.1 k.1)

-- What the checks of a group come to.
abbrev pub GroupVerdict : List TaskRun → CheckState → Bool × CheckState → Type 0
GroupVerdict ts s (true, s') = (a : ℕ) → is_stale (covered s.write_union) ts a ≡ false
GroupVerdict ts s (false, s') = (a : ℕ) × (is_stale (covered s.write_union) ts a ≡ true)

module _ (clone : ℕ) where
  pub check_first-GroupVerdict :
      (ppr_index : ℕ) (status : TaskStatus) (t : TaskRun) (ts : List TaskRun) (s : CheckState)
      → (first : Bool × CheckState)
      → ppr_is_correct status ppr_index clone t.reads t.writes s ≡ answered first
      → Verdict t.reads t.writes s first
      → ((s' : CheckState)
          → Passed t.reads t.writes s s'
          → (out : Bool × CheckState) × (check_tasks clone (ppr_index + 1) TaskStatus.spec ts s'
              ≡ answered out)
            × GroupVerdict ts s' out)
      → (out : Bool × CheckState) × (check_tasks clone ppr_index status (t ∷ ts) s ≡ answered out)
        × GroupVerdict (t ∷ ts) s out
  unfolding check_tasks
  check_first-GroupVerdict ppr_index status t ts s (false, s') e v later =
      ((false, s'), rw e, (v.0, ground (arith, v.1)))
  check_first-GroupVerdict ppr_index status t ts s (true, s') e v later =
      let (out, e', g) = later s' v in (out, rw e e', GroupVerdict-cons out g)
    where
      union : (x : ℕ) → covered s'.write_union x ≡ (covered t.writes x || covered s.write_union x)
      union x = ground (arith, v.joined.covering x, covers-to_list t.writes.root x)

      GroupVerdict-cons :
          (out : Bool × CheckState) → GroupVerdict ts s' out → GroupVerdict (t ∷ ts) s out
      GroupVerdict-cons (true, s'') g =
          λ a. ground (arith, v.free a, g a, is_stale-cong ts _ _ a union)
      GroupVerdict-cons (false, s'') g = (g.0, ground (arith, g.1, is_stale-cong ts _ _ g.0 union))
