-- ===== src/Ppr/Monitor.antt =====
-- bop_ppr.c: the signal handlers, the children that end, the process that monitors the others, and the
-- exit of the program. The results of `waitpid` are given in their order.
pub mod Exit
use cbop.Prelude.{
  ℕ, ◌+◌, Bool, true, false, ◌&&◌, ◌||◌, not, List, [], ◌∷◌, ◌++◌, Option, none, some, ◌==◌,
  if◌then◌else◌,
}
use cbop.Task.{TaskStatus, BopMode}
use cbop.Ppr.{Task, Effect}
use cbop.Ppr.End.{Flow, running, ended, abort_spec, fini_spec, is_last}

-- The signals that count as errors, and the others.
pub data Signal : Type 0 where
  sigabrt sigsegv sigbus other_signal : Signal

-- The status of a child, as the macros of `waitpid` tell it.
pub data WaitStatus : Type 0 where
  exited : ℕ → WaitStatus
  signaled : Signal → WaitStatus
  stopped continued unknown : WaitStatus

-- A child whose status has changed; the first child leads the group.
pub record Child : Type 0 where
  pub is_first : Bool
  pub status : WaitStatus

pub record Monitor : Type 0 where
  pub is_monitoring : Bool
  pub errored : Bool

unfoldable pub is_fatal : Signal → Bool
is_fatal Signal.other_signal = false
is_fatal _ = true

unfoldable pub stop_by_first : Bool → Monitor → Monitor
stop_by_first true m = record m { is_monitoring = false }
stop_by_first false m = m

unfoldable pub report_status : Bool → WaitStatus → Monitor → ℕ × Monitor
unfolding is_fatal stop_by_first
report_status is_first (exited n) m = (n, m)
report_status is_first (signaled s) m = if is_fatal s then (1, stop_by_first is_first m) else (0, m)
report_status is_first _ m = (0, m)

-- `none` is a poll that finds no child.
unfoldable pub report_child : Option Child → Monitor → ℕ × Monitor
unfolding report_status
report_child none m = (0, m)
report_child (some child) m = report_status child.is_first child.status m

-- `my_exit = my_exit || report_child( ... )`
unfoldable pub reap : Option Child → Bool × Monitor → Bool × Monitor
unfolding report_child
reap child (true, m) = (true, m)
reap child (false, m) = let (n, m') = report_child child m in (not (n == 0), m')

-- The loop of `cleanup_children`, and that of `wait_process` over the remaining processes.
unfoldable pub reap_all : List Child → Bool × Monitor → Bool × Monitor
unfolding reap
reap_all [] s = s
reap_all (child ∷ children) s = reap_all children (reap (some child) s)

unfoldable pub cleanup_children : List Child → Monitor → Bool × Monitor
unfolding reap_all
cleanup_children children m = reap_all children (false, m)

-- A process that goes on, its end with an exit value, or the understudy that signals that it has conceded
-- and exits.
pub data Reaction : Type 0 where
  goes_on : Monitor → Reaction
  exits : ℕ → Reaction
  concedes : Reaction

unfoldable pub end_clean : List Child → Monitor → Reaction
unfolding cleanup_children
end_clean children m = exits (if (cleanup_children children m).0 then 1 else 0)

-- `SigUsr1` in the monitor process.
unfoldable pub stop_monitoring : Bool → Monitor → Monitor
stop_monitoring true m = record m { is_monitoring = false }
stop_monitoring false m = m

-- `SigUsr1`, by the status.
unfoldable pub sig_usr1_by : TaskStatus → Bool → Task → List Child → Monitor → Reaction
unfolding end_clean is_last stop_monitoring
sig_usr1_by TaskStatus.undy is_monitor t children m = concedes
sig_usr1_by TaskStatus.seq is_monitor t children m = goes_on (stop_monitoring is_monitor m)
sig_usr1_by _ is_monitor t children m =
    if is_last t.spec_order t.partial_size then goes_on m else end_clean children m

unfoldable pub sig_usr1 : Bool → Task → List Child → Monitor → Reaction
unfolding sig_usr1_by
sig_usr1 is_monitor t children m = sig_usr1_by t.status is_monitor t children m

unfoldable pub is_group_task : TaskStatus → Bool
is_group_task TaskStatus.spec = true
is_group_task TaskStatus.main = true
is_group_task _ = false

unfoldable pub sig_usr2 : Bool → Task → Monitor → Reaction
unfolding is_group_task
sig_usr2 is_monitor t m =
    if is_monitor
    then goes_on (record { is_monitoring = false; errored = true })
    else (if is_group_task t.status then exits 0 else goes_on m)

-- What happens while the monitor loops: a signal of a task, or a poll, with a child or none.
pub data Event : Type 0 where
  usr1 usr2 : Event
  polled : Option Child → Event

unfoldable pub handle : Event → Bool × Monitor → Bool × Monitor
unfolding reap stop_monitoring
handle usr1 (e, m) = (e, stop_monitoring true m)
handle usr2 (e, m) = (e, record { is_monitoring = false; errored = true })
handle (polled child) s = reap child s

-- The loop of `wait_process`; `none` is a loop that still runs after the events.
unfoldable pub watch : List Event → Bool × Monitor → Option (Bool × Monitor)
unfolding handle
watch [] (e, m) = if m.is_monitoring then none else some (e, m)
watch (event ∷ events) (e, m) =
    let rest = watch events (handle event (e, m)) in if m.is_monitoring then rest else some (e, m)

-- The exit value of the monitor process. The last flags: whether SIGUSR2 came while the remaining
-- processes were waited for, with the signals blocked, and whether `waitpid` failed.
unfoldable pub finish_wait : List Child → Bool → Bool → Bool × Monitor → ℕ
unfolding reap_all
finish_wait children late failed s =
    let (e, m) = reap_all children s in
    if failed then 1 else (if e || (m.errored || late) then 1 else 0)

unfoldable pub wait_process : List Event → List Child → Bool → Bool → Monitor → Option ℕ
unfolding watch finish_wait
wait_process events children late failed m = elim (watch events (false, m)) [
  | none ↦ none
  | some s ↦ some (finish_wait children late failed s)
]

-- What the exit of the program comes to: the abort ends the process, or it has made these calls and
-- cleans up, with an exit value of its own where a child failed.
pub data Fini : Type 0 where
  gone : Task → List Effect → Fini
  cleaned : Task → List Effect → Bool → Fini

unfoldable pub fini_aborted : List Child → Monitor → Flow → Fini
unfolding fini_spec cleanup_children
fini_aborted children m (ended t es) = gone t es
fini_aborted children m (running t es) =
    let (later, t') = fini_spec t in cleaned t' (es ++ later) (cleanup_children children m).0

unfoldable pub fini_by : TaskStatus → List Child → Monitor → Task → Fini
unfolding fini_aborted abort_spec cleanup_children
fini_by TaskStatus.spec children m t = fini_aborted children m (abort_spec t)
fini_by TaskStatus.undy children m t =
    cleaned (record t { num_by_undy = t.num_by_undy + t.undy_ppr_count })
      (Effect.signal_group ∷ Effect.signal_monitor_group ∷ Effect.undy_succ_fini ∷ [])
      (cleanup_children children m).0
fini_by _ children m t = cleaned t [] (cleanup_children children m).0

unfoldable pub bop_fini : List Child → Monitor → Task → Fini
unfolding fini_by
bop_fini children m t = fini_by t.status children m t
