-- ===== src/Tests/Races.antt =====
-- Schedules of the tasks of a group, run step by step, and what they reach.
use cbop.Prelude.{inl, ℕ, ◌+◌, ◌≤◌, ◌≡◌, ◌⊎◌, refl, Bool, true, not, List, [], ◌∷◌, ◌==◌}
use cbop.Sync.{SyncData, blank, ppr_sync_data_reset}
use cbop.Task.{TaskStatus, PprPos, BopMode, natural}
use cbop.Ppr.{Task}
use cbop.Ppr.Tasks.{Place}
use cbop.Ppr.Tasks.Solo.{Solo}
use cbop.Ppr.Tasks.System.{Understudy, UndyEvent}
use cbop.Ppr.Tasks.Order.Moves.{checks_of, results_of, down}
use cbop.Ppr.Tasks.Order.{Reach-check}
use cbop.Ppr.Tasks.Survivor.{Reach-survivor}
use cbop.Ppr.Tasks.Calm.{passed_of, committed, Reach-group_committing}
use cbop.Ppr.Tasks.Shared.{Run-Reach, Run-results, verdicts}
use cbop.Tests.Schedule.{
  ready_group, Move, on, low, abort, undy, Ran, moves, begin, two-IsReady, three-IsReady,
}

-- The checks count how often they are made; that of task 1 fails where the count starts at 10.
abbrev check : ℕ → ℕ → Bool × ℕ
check i a = (not (a == 11), a + 1)

-- The main task checks, and task 1 is in its own check.
abbrev second_checks : List Move
second_checks = on 0 ∷ on 0 ∷ on 0 ∷ on 0 ∷ on 1 ∷ on 1 ∷ []

abbrev checks_now : Ran check 0 2
checks_now = moves check 0 (begin check 0 2 two-IsReady) second_checks

Reach-check_example : (checks_of checks_now.last.log ≡ down 1) × (◌≡◌ {A = ℕ} 1 1)
unfolding moves ppr_sync_data_reset blank
Reach-check_example = Reach-check (Run-Reach check 0 checks_now.run) 1 1 refl refl

-- Task 1 has passed, has found itself the last, and has waited for the main task.
abbrev commits_now : Ran check 0 2
commits_now =
    moves check 0 checks_now (on 1 ∷ on 1 ∷ on 1 ∷ on 1 ∷ on 0 ∷ on 0 ∷ on 0 ∷ on 1 ∷ on 1 ∷ [])

Reach-group_committing_example :
    (◌≡◌ {A = ℕ} 2 2)
    × (passed_of commits_now.last.log ≡ down 2)
    × ((j : ℕ) → (1 ≤ j) ⊎ (committed commits_now.last.log j ≡ true))
unfolding moves ppr_sync_data_reset blank
Reach-group_committing_example =
    Reach-group_committing (Run-Reach check 0 commits_now.run) refl 1 refl

-- The understudy starts, and concedes when the group has committed.
abbrev goes_on_alone : Ran check 0 2
goes_on_alone =
    moves check 0 commits_now
      (undy (UndyEvent.starts 7) ∷ on 1 ∷ on 1 ∷ on 1 ∷ undy UndyEvent.concedes ∷ on 1 ∷ [])

Reach-survivor_example :
    ((goes_on_alone.last.undy ≡ Understudy.conceded)
      ⊎ (goes_on_alone.last.undy ≡ Understudy.unforked))
    × (◌≡◌ {A = ℕ} 1 1)
unfolding moves ppr_sync_data_reset blank
Reach-survivor_example =
    Reach-survivor (Run-Reach check 0 goes_on_alone.run) 1 1 (inl refl) (inl refl)

-- The two checks in the run above, and the data that they leave.
Run-results_example :
    (k : ℕ) × (checks_of goes_on_alone.last.log ≡ down k)
    × (results_of goes_on_alone.last.log ≡ verdicts check 0 k)
    × (k ≤ 2)
Run-results_example = Run-results check 0 goes_on_alone.run

-- The check of task 1 fails. Between its report and the lowered size task 2 passes its own check and
-- finds itself the last one. Its wait for the group ends when the size falls, and it goes on as the
-- sequential task, although the task before it has failed.
abbrev wrong_winner : Ran check 10 3
wrong_winner = moves check 10 (begin check 10 3 three-IsReady) (
    on 0
    ∷ on 0
    ∷ on 0
    ∷ on 0
    ∷ on 1
    ∷ on 1
    ∷ on 1
    ∷ on 1
    ∷ on 2
    ∷ on 2
    ∷ on 2
    ∷ on 2
    ∷ on 2
    ∷ on 2
    ∷ on 1
    ∷ on 1
    ∷ on 1
    ∷ on 2
    ∷ on 2
    ∷ on 2
    ∷ undy (UndyEvent.starts 7)
    ∷ on 2
    ∷ undy UndyEvent.concedes
    ∷ on 2
    ∷ [])

wrong_winner_lem :
    (wrong_winner.last.place 2 ≡ Place.sequential)
    × (checks_of wrong_winner.last.log ≡ 2 ∷ 1 ∷ 0 ∷ [])
    × (passed_of wrong_winner.last.log ≡ 2 ∷ 0 ∷ [])
unfolding moves ppr_sync_data_reset blank
wrong_winner_lem = (refl, refl, refl)

-- Task 1 has compared the size with the one that it wants, 2, when the main task lowers the size to 1.
abbrev lowered_once : Ran check 10 3
lowered_once =
    moves check 10 (begin check 10 3 three-IsReady)
      (low 1 ∷ on 1 ∷ abort 0 ∷ on 0 ∷ on 0 ∷ on 0 ∷ [])

-- The write of task 1 raises it again.
raises_size :
    (lowered_once.last.mem.partial_size ≡ 1)
    × ((moves check 10 lowered_once (on 1 ∷ on 1 ∷ [])).last.mem.partial_size ≡ 2)
unfolding moves ppr_sync_data_reset blank
raises_size = (refl, refl)

abbrev speculative : Task
speculative = record {
  status = TaskStatus.spec;
  pos = PprPos.ppr;
  mode = BopMode.parallel;
  spec_order = natural 1;
  ppr_index = 1;
  static_id = 4;
  partial_size = 3;
  seen_size = 3;
  group_size = 3;
  undy_ppr_count = 0;
  num_by_spec = 0;
  num_by_main = 0;
  num_by_undy = 0;
}

-- The entries of the record with all locks free.
abbrev free_group : SyncData
free_group = record (ready_group 2) { sync_status = blank 2 }
