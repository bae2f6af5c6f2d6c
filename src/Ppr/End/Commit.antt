-- ===== src/Ppr/End/Commit.antt =====
-- `_BOP_ppr_end` of bop_ppr.c: who commits, and what becomes of a task at the end of its region.
use cbop.Prelude.{◌⊎◌, ℕ, ◌+◌, ◌<◌, ◌≡◌, Bool, true, false, List, [], ◌∷◌, arith}
use cbop.Task.{TaskStatus, BopMode, natural}
use cbop.Ppr.{Task, Effect, Fork}
use cbop.Ppr.End.{
  Flow, running, ended, Others, abort_spec, ppr_task_commit, ppr_end, malloc_rescue, and_then,
}

-- A call that makes a task's data last.
abbrev pub commits : List Effect → Bool
commits [] = false
commits (Effect.data_commit ∷ es) = true
commits (Effect.group_commit ∷ es) = true
commits (e ∷ es) = commits es

abbrev pub commits_group : List Effect → Bool
commits_group [] = false
commits_group (Effect.group_commit ∷ es) = true
commits_group (e ∷ es) = commits_group es

abbrev pub effects_of : Flow → List Effect
effects_of (running t es) = es
effects_of (ended t es) = es

-- What a speculative task of a parallel group comes to.
abbrev pub Settled : Flow → Type 0
Settled (running t es) = (t.status ≡ TaskStatus.seq) × (commits_group es ≡ true)
Settled (ended t es) = commits_group es ≡ false

module _ (o : Others) (t : Task) (n : ℕ) (is_spec : t.status ≡ TaskStatus.spec)
    (is_parallel : t.mode ≡ BopMode.parallel) (order : t.spec_order ≡ natural n) where
  -- A speculative task of a parallel group commits data only if its own checks passed and it was
  -- within the group at the start.
  pub ppr_task_commit-passed :
      commits (effects_of (ppr_task_commit o t)) ≡ true → (o.passed ≡ true) × (n < o.size_start)
  unfolding ppr_task_commit
  ppr_task_commit-passed c = ground arith

  -- Only the last task of the group, by the size that it reads last, commits the group.
  pub ppr_task_commit-last :
      commits_group (effects_of (ppr_task_commit o t)) ≡ true → n + 1 ≡ o.size_done
  unfolding ppr_task_commit
  ppr_task_commit-last c = ground arith

  -- A speculative task of a parallel group does not return from its commit as such: its process is
  -- gone, or it runs on as the sequential task, having committed the group.
  pub ppr_task_commit-Settled : Settled (ppr_task_commit o t)
  unfolding ppr_task_commit
  ppr_task_commit-Settled = ground arith

-- At the end of its region the main task of a parallel group never commits the group, whatever the
-- fork of the understudy and the other tasks bring.
pub ppr_end-main :
    (id : ℕ) (fork : Fork) (o : Others) (t : Task)
    → t.status ≡ TaskStatus.main
    → t.mode ≡ BopMode.parallel
    → commits_group (effects_of (ppr_end id fork o t)) ≡ false
unfolding ppr_end
ppr_end-main id fork o t s p = ground arith

abbrev pub task_of : Flow → Task
task_of (running t es) = t
task_of (ended t es) = t

abbrev pub is_gone : Flow → Bool
is_gone (running t es) = false
is_gone (ended t es) = true

-- A task survives a failed allocation only where it was the main task, or had the order 0, and turned
-- into the understudy or, where the fork failed, into the sequential task.
pub malloc_rescue-survivor :
    (fork : Fork) (t : Task)
    → is_gone (malloc_rescue fork t) ≡ false
    → ((t.status ≡ TaskStatus.main) ⊎ (t.spec_order ≡ natural 0))
      × ((((task_of (malloc_rescue fork t)).status ≡ TaskStatus.undy) × (fork ≡ Fork.child))
          ⊎ (((task_of (malloc_rescue fork t)).status ≡ TaskStatus.seq) × (fork ≡ Fork.failed)))
unfolding malloc_rescue abort_spec and_then
malloc_rescue-survivor fork t g = ground arith
