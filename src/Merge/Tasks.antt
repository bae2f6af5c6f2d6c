-- ===== src/Merge/Tasks.antt =====
-- The checks of bop_merge.c in a group whose tasks run side by side, and the commit of the group, against
-- the run of the tasks one after the other.
use cbop.Prelude.{
  ℕ, zero, suc, ◌+◌, ◌≤◌, ◌<◌, ◌≡◌, refl, ◌∙◌, sym, ap, Bool, true, false, List, [], ◌∷◌, Option,
  none, some, get_elem?, length, length-append, ◌++◌, arith,
}
use native.Mathlib.Decide.{dec_lt}
use cbop.Task.{TaskStatus}
use cbop.Sync.{SyncData}
use cbop.RangeTree.Map.{RangeMap}
use cbop.Merge.{Memory, Space, Committed, commit_tasks, fill_patches, ppr_group_commit}
use cbop.Merge.Check.{Checked, answered, stopped, CheckState, ppr_is_correct}
use cbop.Merge.Check.Serial.{
  TaskRun, AllRecorded, DisjointWrites, check_tasks, speculate, run_task, run_tasks,
}
use cbop.Merge.Check.Refine.{Serial}
use cbop.Merge.Group.{
  MergeState, PostwaitTask, HasCleared, bop_merge_init-Serial, starting, patches_at_start,
}
use cbop.Ppr.Tasks.{Place}
use cbop.Ppr.Tasks.System.{System}
use cbop.Ppr.Tasks.Order.Moves.{checks_of, down}
use cbop.Ppr.Tasks.Order.{Reach-reported}
use cbop.Ppr.Tasks.Calm.{is_calm, all_true, Reach-true, Reach-group_committing}
use cbop.Ppr.Tasks.Shared.{Run, Run-Reach, Run-data, after_checks, verdicts}

abbrev pub task_status : ℕ → TaskStatus
task_status zero = TaskStatus.main
task_status (suc n) = TaskStatus.spec

-- A process that is stopped in its check reports no success.
unfoldable verdict_of : CheckState → Checked (Bool × CheckState) → Bool × CheckState
verdict_of s (answered out) = out
verdict_of s stopped = (false, s)

module _ (clone ppr_index : ℕ) (tasks : List TaskRun) where
  check_of : ℕ → Option TaskRun → CheckState → Bool × CheckState
  unfolding verdict_of
  check_of i none s = (true, s)
  check_of i (some t) s =
      verdict_of s (ppr_is_correct (task_status i) (ppr_index + i) clone t.reads t.writes s)

  -- The check of the task with an order, on what the tasks share.
  unfoldable pub task_check : ℕ → CheckState → Bool × CheckState
  unfolding check_of
  task_check i s = check_of i (get_elem? tasks i) s

  verdict-answered :
      (s : CheckState) (x : Checked (Bool × CheckState))
      → (verdict_of s x).0 ≡ true
      → x ≡ answered (true, (verdict_of s x).1)
  unfolding verdict_of
  verdict-answered s (answered (true, s')) e = refl
  verdict-answered s (answered (false, s')) e = cc
  verdict-answered s stopped e = cc

  check_of-answered :
      (i : ℕ) (o : Option TaskRun) (t : TaskRun) (s : CheckState)
      → o ≡ some t
      → (check_of i o s).0 ≡ true
      → ppr_is_correct (task_status i) (ppr_index + i) clone t.reads t.writes s
        ≡ answered (true, (check_of i o s).1)
  unfolding check_of
  check_of-answered i o t s at =
      rw at (
        verdict-answered s
          (ppr_is_correct (task_status i) (ppr_index + i) clone t.reads t.writes s))

  all_true-at :
      (s : CheckState) (n m : ℕ)
      → all_true (verdicts task_check s n) ≡ true
      → m < n
      → (task_check m (after_checks task_check s m)).0 ≡ true
  all_true-at s zero m h lt = absurd (omega arith)
  all_true-at s (suc n) m h lt = elim (dec_lt m n) [
    | yes low ↦ all_true-at s n m (ground (arith, h)) low
    | no high ↦ let e : m ≡ n = omega (arith, high, lt) in rw e (ground (arith, h))
  ]

  -- Where all checks pass, those one after the other are answered so, from any task on.
  check_tasks-after :
      (s : CheckState) (m : ℕ) (ts : List TaskRun)
      → ((j : ℕ) → get_elem? tasks (m + j) ≡ get_elem? ts j)
      → ((j : ℕ)
          → m ≤ j
          → j < m + length ts
          → (task_check j (after_checks task_check s j)).0 ≡ true)
      → check_tasks clone (ppr_index + m) (task_status m) ts (after_checks task_check s m)
        ≡ answered (true, after_checks task_check s (m + length ts))
  unfolding check_tasks task_check
  check_tasks-after s m [] at passed =
      ap (λ k. answered (true, after_checks task_check s k)) (omega arith)
  check_tasks-after s m (t ∷ ts) at passed =
      let later =
        check_tasks-after s (suc m) ts (λ j. ap (get_elem? tasks) (omega arith) ∙ at (suc j))
          (λ j low high. passed j (omega arith) (omega arith)) in
      rw first (
        ap (λ k. check_tasks clone k TaskStatus.spec ts (after_checks task_check s (suc m)))
          (omega arith)
        ∙ later
        ∙ ap (λ k. answered (true, after_checks task_check s k)) (omega arith))
    where
      first :
          ppr_is_correct
            (task_status m)
            (ppr_index + m)
            clone
            t.reads
            t.writes
            (after_checks task_check s m)
          ≡ answered (true, after_checks task_check s (suc m))
      first =
          check_of-answered m (get_elem? tasks m) t (after_checks task_check s m)
            (ap (get_elem? tasks) (omega arith) ∙ at 0) (passed m (omega arith) (omega arith))

  check_tasks-all :
      (s : CheckState)
      → all_true (verdicts task_check s (length tasks)) ≡ true
      → check_tasks clone ppr_index TaskStatus.main tasks s
        ≡ answered (true, after_checks task_check s (length tasks))
  check_tasks-all s all =
      ap (λ m. check_tasks clone m TaskStatus.main tasks s) (omega arith)
      ∙ check_tasks-after s 0 tasks (λ j. ap (get_elem? tasks) (omega arith))
          (λ j from below. all_true-at s (length tasks) j all (omega (arith, below)))
      ∙ ap (λ m. answered (true, after_checks task_check s m)) (omega arith)

module _ (calloc : ℕ → ℕ) (fresh : (i j : ℕ) → calloc i ≡ calloc j → i ≡ j)
    (residence clone ppr_index : ℕ) (before : List TaskRun) (last : TaskRun) (spec_order : ℕ)
    (space : Space) (memory : Memory) (commit_space metacow_space gs : ℕ) (blank junk : RangeMap)
    (old : Option MergeState) (t : PostwaitTask) where
  abbrev pub shared_start : CheckState
  shared_start =
      starting calloc fresh residence clone ppr_index before last spec_order space memory
        commit_space metacow_space gs blank junk old t

  -- The array of the patches when the last task commits: those of the tasks before it, and behind them
  -- what the start of the group left.
  abbrev pub patches_made : List RangeMap
  patches_made = fill_patches (commit_tasks calloc residence space (speculate memory before)).1 (
      patches_at_start calloc fresh residence clone ppr_index before last spec_order space memory
        commit_space metacow_space gs blank junk old t)

  passed-Serial :
      (patches : List RangeMap) (out : Bool × CheckState) (s' : CheckState)
      → answered out ≡ answered (true, s')
      → Serial calloc residence spec_order patches before last space memory out
      → Serial calloc residence spec_order patches before last space memory (true, s')
  passed-Serial patches (true, s'') s' e h = h
  passed-Serial patches (false, s'') s' e h = absurd (ground (arith, e))

  -- A group of tasks that have recorded their accesses, that have received no data, and no two of which
  -- write one address, finds its patches cleared and no more tasks than there were patches, and runs with
  -- its tasks, its understudy and its signals in any order, and no task has begun to lower its size. When
  -- a task comes to commit the group, it is the last one, the commit on its own memory, with the patches
  -- of the tasks before it, succeeds, and it leaves the memory that the tasks leave when they run one
  -- after the other.
  pub group_commit-Serial :
      {d : SyncData} {s : System} {a : CheckState}
      → Run
          (task_check clone ppr_index (before ++ (last ∷ [])))
          shared_start
          (length (before ++ (last ∷ [])))
          d
          s
          a
      → is_calm s.log ≡ true
      → (i : ℕ) → s.place i ≡ Place.group_committing
      → length before ≡ spec_order
      → spec_order < gs
      → HasCleared gs blank old
      → AllRecorded (before ++ (last ∷ []))
      → DisjointWrites (before ++ (last ∷ []))
      → (i ≡ spec_order)
        × (c : Committed) × (ppr_group_commit spec_order patches_made
              (commit_tasks calloc residence space (speculate memory before)).0
              (run_task last memory)
            ≡ some c)
        × ((x : ℕ) → c.memory x ≡ run_tasks (before ++ (last ∷ [])) memory x)
  group_commit-Serial {s = s} {a = a} run calm i place size inside cleared rec disjoint =
      let tasks = before ++ (last ∷ []) in
      let counted : length tasks ≡ spec_order + 1 =
        length-append before (last ∷ []) ∙ ap (λ n. n + 1) size in
      let reach = Run-Reach (task_check clone ppr_index tasks) shared_start run in
      let (at_last, passed, earlier) = Reach-group_committing reach calm i place in
      let (k, order, low, high) = Reach-reported reach i place in
      let reported : checks_of s.log ≡ down (length tasks) =
        order ∙ ap down (omega (arith, low, high, at_last)) in
      let (same, results) = Run-data (task_check clone ppr_index tasks) shared_start run reported in
      let all = ap all_true (sym results) ∙ Reach-true reach calm in
      let answers = check_tasks-all clone ppr_index tasks shared_start all in
      let (out, answer, serial) =
        bop_merge_init-Serial calloc fresh residence clone ppr_index before last spec_order space
          memory commit_space metacow_space gs blank junk old t size inside cleared rec disjoint in
      let (c, committed, ran) =
        passed-Serial _ out
          (after_checks (task_check clone ppr_index tasks) shared_start (length tasks))
          (sym answer ∙ answers) serial in
      (omega (arith, at_last, counted), c, committed, ran)
