-- ===== src/Ppr/Tasks/Solo.antt =====
-- What one speculative task does between its last access to its region and its end, step by step and
-- with any steps of others between, against `ppr_task_commit` as a whole.
use cbop.Prelude.{
  ℕ, ◌+◌, ◌&&◌, ◌≡◌, Bool, true, false, List, [], ◌∷◌, ◌++◌, ◌==◌, ltb, if◌then◌else◌,
}
use cbop.Sync.{
  Call, done, blocked, ◌>>=◌, SyncData, signal_commit_done, wait_next_commit_done,
  acquire_committed, wait_prior_check_done, signal_check_done, wait_undy_created,
  wait_undy_conceded, bop_lock_acquire, bop_lock_release,
}
use cbop.Ppr.{Task, Effect}
use cbop.Ppr.End.{Others}
use cbop.Ppr.Tasks.{new_size, Lower, Place, Choice, Turn, turn}

-- The calls of a turn, by the place and the next one.
abbrev exit_if_gone : Place → List Effect
exit_if_gone Place.gone = Effect.exit ∷ []
exit_if_gone p = []

abbrev waited_if_done : Place → List Effect
waited_if_done Place.group_committing = Effect.wait_group_commit ∷ []
waited_if_done p = []

abbrev pub calls : Place → Place → List Effect
calls Place.waiting_check p = Effect.wait_prior_check ∷ []
calls Place.checking p = Effect.check_ports ∷ []
calls (Place.reporting b) p = Effect.report_checked ∷ []
calls Place.aborting p = Effect.commit_done ∷ Effect.exit ∷ []
calls Place.committing p = Effect.data_commit ∷ []
calls Place.signalling p = Effect.commit_done ∷ []
calls Place.waiting_next p = Effect.wait_next_commit ∷ []
calls Place.deciding p = exit_if_gone p
calls (Place.waiting_group k) p = waited_if_done p
calls Place.group_committing p = Effect.group_commit ∷ []
calls Place.group_signalling p = Effect.commit_done ∷ []
calls Place.meeting p = Effect.wait_undy_created ∷ Effect.signal_group ∷ []
calls Place.conceding p = Effect.wait_undy_conceded ∷ Effect.succ_fini ∷ []
calls _ p = []

-- The turns of the task with an order from one place to another, with their calls. The shared record
-- is any record at each turn: other tasks may have changed it.
pub data Solo (i : ℕ) : Place → List Effect → Place → Type 0 where
  stays : {p : Place} → Solo i p [] p
  turns :
      {p q : Place} {es : List Effect} (c : Choice) (d : SyncData) {r : Turn}
      → turn c i d p ≡ done r
      → Solo i r.place es q
      → Solo i p (calls p r.place ++ es) q

-- What a call does to the shared record: the functions of bop_ppr_sync.c. The others do not touch it.
unfoldable call_on : ℕ → Place → Effect → SyncData → Call SyncData
unfolding wait_prior_check_done signal_check_done signal_commit_done wait_next_commit_done
    wait_undy_created wait_undy_conceded
call_on i p Effect.wait_prior_check d = wait_prior_check_done i d
call_on i (Place.reporting b) Effect.report_checked d = signal_check_done i b d
call_on i p Effect.commit_done d = signal_commit_done i d
call_on i p Effect.wait_next_commit d = wait_next_commit_done i d
call_on i p Effect.wait_undy_created d = wait_undy_created d
call_on i p Effect.wait_undy_conceded d = wait_undy_conceded d
call_on i p e d = done d

unfoldable calls_on : ℕ → Place → List Effect → SyncData → Call SyncData
unfolding call_on
calls_on i p [] d = done d
calls_on i p (e ∷ es) d = do d' ← call_on i p e d; calls_on i p es d'

-- What a turn from one place to another has to do to the shared record: its calls, or the part of a call
-- that takes several turns, the lowering of the size and the loop of `wait_group_commit_done`.
unfoldable pub does : ℕ → Place → Place → SyncData → Call SyncData
unfolding calls_on bop_lock_acquire acquire_committed new_size
does i (Place.locking l) q d = do held ← bop_lock_acquire d.lock; done (record d { lock = held })
does i (Place.storing l) q d =
    done (record d { partial_size = new_size l i; lock = bop_lock_release })
does i (Place.waiting_group k) (Place.waiting_group k') d =
    if k' == k + 1 && ltb k' d.partial_size then acquire_committed k d else blocked
does i (Place.waiting_group k) q d = if ltb (k + 1) d.partial_size then blocked else done d
does i p q d = calls_on i p (calls p q) d

-- Every turn does to the shared record what its calls do.
abbrev pub Performed : {i : ℕ} {p q : Place} {es : List Effect} → Solo i p es q → Type 0
Performed stays = Unit
Performed {i} (turns {p} c d {r} h run) = (does i p r.place d ≡ done r.mem) × Performed run

-- The places of `ppr_task_commit` behind its first test.
abbrev OnWay : Place → Type 0
OnWay Place.in_region = ⊥
OnWay (Place.testing Lower.behind) = ⊥
OnWay (Place.locking Lower.behind) = ⊥
OnWay (Place.storing Lower.behind) = ⊥
OnWay p = Unit

abbrev Final : Place → Type 0
Final Place.sequential = Unit
Final Place.gone = Unit
Final p = ⊥

abbrev at_end : List Effect
at_end = Effect.wait_undy_conceded ∷ Effect.succ_fini ∷ []

abbrev from_group : List Effect
from_group =
    Effect.group_commit ∷ Effect.commit_done ∷ Effect.wait_undy_created ∷ Effect.signal_group
    ∷ at_end

abbrev quits : List Effect
quits = Effect.commit_done ∷ Effect.exit ∷ []

-- The calls that are still to come, by what the others bring.
abbrev from_deciding : ℕ → Others → List Effect
from_deciding i o =
    if i + 1 == o.size_done then Effect.wait_group_commit ∷ from_group else Effect.exit ∷ []

abbrev from_signalling : ℕ → Others → List Effect
from_signalling i o = Effect.commit_done ∷ Effect.wait_next_commit ∷ from_deciding i o

abbrev from_checked : ℕ → Others → List Effect
from_checked i o =
    if ltb (i + 1) o.size_checked
    then Effect.data_commit ∷ from_signalling i o
    else from_deciding i o

abbrev from_report : ℕ → Others → Bool → List Effect
from_report i o true = Effect.report_checked ∷ from_checked i o
from_report i o false = Effect.report_checked ∷ quits

abbrev rest : ℕ → Others → Place → List Effect
rest i o Place.waiting_check =
    Effect.wait_prior_check ∷ Effect.check_ports ∷ from_report i o o.passed
rest i o Place.checking = Effect.check_ports ∷ from_report i o o.passed
rest i o (Place.reporting b) = from_report i o b
rest i o Place.checked = from_checked i o
rest i o Place.committing = Effect.data_commit ∷ from_signalling i o
rest i o Place.signalling = from_signalling i o
rest i o Place.waiting_next = Effect.wait_next_commit ∷ from_deciding i o
rest i o Place.deciding = from_deciding i o
rest i o (Place.waiting_group k) = Effect.wait_group_commit ∷ from_group
rest i o Place.group_committing = from_group
rest i o Place.group_signalling =
    Effect.commit_done ∷ Effect.wait_undy_created ∷ Effect.signal_group ∷ at_end
rest i o Place.meeting = Effect.wait_undy_created ∷ Effect.signal_group ∷ at_end
rest i o Place.conceding = at_end
rest i o Place.sequential = []
rest i o Place.gone = []
rest i o p = quits

abbrev others : Others
others = record { passed = true; size_start = 0; size_checked = 0; size_done = 0 }

-- What a turn shows of the others.
abbrev result_of : Place → Bool
result_of (Place.reporting b) = b
result_of p = true

abbrev learned : SyncData → Place → Place → Others → Others
learned d Place.checking p' o = record o { passed = result_of p' }
learned d Place.checked p' o = record o { size_checked = d.partial_size }
learned d Place.deciding p' o = record o { size_done = d.partial_size }
learned d p p' o = o
