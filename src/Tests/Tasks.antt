-- ===== src/Tests/Tasks.antt =====
-- Runs and instances for the task life cycle, the ports, the shared record and the object checks.
use cbop.Prelude.{◌⊎◌, ℕ, ◌+◌, ◌≤◌, ◌≡◌, refl, true, false, [], ◌∷◌, none, some, arith, ltb}
use cbop.Task.{get_int_from_env, TaskStatus, PprPos, BopMode, CInt, natural}
use cbop.Ports.{Port, ppr_check_correctness}
use cbop.Sync.{
  spinning, wait_group_commit_done, Call, SyncStatus, SyncData, ppr_group_set_size,
  signal_commit_done, blank_status,
}
use cbop.Sync.Laws.{wait_group_commit_done-signal, IsReady, ppr_group_set_size-IsReady}
use cbop.Ppr.{Task, Fork, ppr_begin}
use cbop.Ppr.Begin
use cbop.Ppr.Start.{
  Environment, Kernel, failed_assert, bop_init, all_ports, Starts, bop_init-Starts,
}
use cbop.Ppr.Monitor.{Child, exited, usr2, wait_process}
use cbop.Ppr.Monitor.Exit.{polls, stop_signal, wait_process-exit}
use cbop.Ppr.Begin.{ppr_begin-IsValid, fails, fails-ppr_begin, ppr_begin-jumped}
use cbop.Ppr.End.{Others, ppr_task_commit, malloc_rescue}
use cbop.Ppr.End.Commit.{Settled, is_gone, ppr_task_commit-Settled}

-- a port whose check passes while the state is below 2, and counts
abbrev counting : Port ℕ
counting = record {
  ppr_group_init = none;
  ppr_task_init = none;
  ppr_check_correctness = some (λ n. (n + 1, ltb n 2));
  report_conflict = some (λ a n. n + 100 + a);
  data_commit = none;
  task_group_commit = none;
  task_group_succ_fini = none;
  undy_init = none;
  undy_succ_fini = none;
  on_enter_ordered = none;
  on_exit_ordered = none;
  on_main_complete = none;
}

ppr_group_set_size-IsReady_example :
    (d : SyncData) × (ppr_group_set_size TaskStatus.seq 3 (λ i. blank_status) none
      ≡ Call.done (some d))
    × IsReady 3 d
ppr_group_set_size-IsReady_example =
    ppr_group_set_size-IsReady 3 (λ i. blank_status) none (omega arith) (omega arith) tt

abbrev waiting : SyncStatus
waiting = record { spec_checked = true; spec_correct = false; data_committed = true }

abbrev group_of_two : SyncData
group_of_two = record {
  lock = false;
  alloc_size = 2;
  group_size = 2;
  partial_size = 2;
  sync_status = waiting ∷ waiting ∷ [];
  undy_created = true;
  undy_pid = 0;
  undy_conceded = true;
}

wait_group_commit_done-signal_example :
    (wait_group_commit_done 0 group_of_two ≡ spinning 0 group_of_two)
    × (d' : SyncData) × (signal_commit_done 0 group_of_two ≡ Call.done d')
    × (wait_group_commit_done 0 d' ≡ wait_group_commit_done (0 + 1) group_of_two)
wait_group_commit_done-signal_example =
    wait_group_commit_done-signal 0 group_of_two waiting (omega arith) refl refl

abbrev task_in : TaskStatus → PprPos → CInt → Task
task_in s p o = record {
  status = s;
  pos = p;
  mode = BopMode.parallel;
  spec_order = o;
  ppr_index = 3;
  static_id = 7;
  partial_size = 3;
  seen_size = 3;
  group_size = 3;
  undy_ppr_count = 0;
  num_by_spec = 0;
  num_by_main = 0;
  num_by_undy = 0;
}

ppr_begin-IsValid_example :
    Begin.IsValid (ppr_begin 7 Fork.child (task_in TaskStatus.seq PprPos.gap (natural 0))).task
ppr_begin-IsValid_example =
    ppr_begin-IsValid 7 Fork.child (task_in TaskStatus.seq PprPos.gap (natural 0))
      (record { sized = omega arith; placed = tt }) refl

abbrev middle_task : Task
middle_task = task_in TaskStatus.spec PprPos.gap (natural 1)

abbrev passing : Others
passing = record { passed = true; size_start = 3; size_checked = 3; size_done = 3 }

abbrev last_task : Task
last_task = task_in TaskStatus.spec PprPos.ppr (natural 2)

ppr_task_commit-Settled_example : Settled (ppr_task_commit passing last_task)
ppr_task_commit-Settled_example = ppr_task_commit-Settled passing last_task 2 refl refl refl

abbrev first_spec : Task
first_spec = task_in TaskStatus.spec PprPos.ppr (natural 0)

survives : is_gone (malloc_rescue Fork.child first_spec) ≡ false
unfolding malloc_rescue
survives = refl

-- A later child exits with 3, and the first one with 0.
abbrev late_child : Child
late_child = record { is_first = false; status = exited 3 }

abbrev first_child : Child
first_child = record { is_first = true; status = exited 0 }

-- An idle poll between the two, and a SIGUSR2 that comes too late for the loop.
wait_process-exit_example :
    wait_process
      (polls (some late_child ∷ none ∷ some first_child ∷ []) (stop_signal false ∷ usr2 ∷ []))
      (first_child ∷ [])
      false
      false
      (record { is_monitoring = true; errored = false })
    ≡ some 1
wait_process-exit_example =
    wait_process-exit (some late_child ∷ none ∷ some first_child ∷ []) false (usr2 ∷ [])
      (first_child ∷ []) false (record { is_monitoring = true; errored = false }) refl refl

-- The group size is set to 3, and the fork is seen in the child.
abbrev three_tasks : Environment
three_tasks = record { verbose = none; group_size = some (natural 3) }

abbrev in_child : Kernel
in_child = record { pgrp = 40; pid = 41; child_pid = 0; fork = Fork.child; setpgid_works = true }

bop_init-Starts_example :
    (g : ℕ) × (get_int_from_env (some (natural 3)) 1 100 2 ≡ some g)
    × (1 ≤ g)
    × (g ≤ 100)
    × (((g ≡ 1)
          × (bop_init three_tasks in_child
                (all_ports counting counting counting counting counting)
                (λ i. blank_status)
              ≡ failed_assert))
        ⊎ ((2 ≤ g)
            × Starts counting counting counting counting counting g in_child Fork.child (
                bop_init three_tasks in_child
                  (all_ports counting counting counting counting counting)
                  (λ i. blank_status))))
bop_init-Starts_example =
    bop_init-Starts counting counting counting counting counting three_tasks in_child
      (λ i. blank_status) (omega arith)
