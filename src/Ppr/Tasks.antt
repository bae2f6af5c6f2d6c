-- ===== src/Ppr/Tasks.antt =====
-- bop_ppr.c with bop_ppr_sync.c: all tasks of a parallel group at the ends of their regions, one access
-- to the shared record at a time and in any order, with the understudy and the two signals.
-- A task that has not been forked is one that has not moved yet.
pub mod Shared
pub mod Solo
pub mod Survivor
pub mod System
pub mod Calm
pub mod Order
pub mod Views
use cbop.Prelude.{
  ℕ, zero, suc, ◌+◌, ◌<◌, ◌≡◌, Bool, ◌&&◌, true, false, List, [], ◌∷◌, ◌++◌, ltb, leb, ◌==◌,
  if◌then◌else◌,
}
use cbop.Sync.{
  Call, done, blocked, asserted, ◌>>=◌, SyncData, bop_lock_acquire, bop_lock_release,
  signal_check_done, signal_commit_done, wait_prior_check_done, wait_next_commit_done,
  acquire_committed, signal_undy_created, signal_undy_conceded, wait_undy_created,
  wait_undy_conceded,
}

-- Why a task lowers the partial size: for the tasks behind it (`BOP_abort_next_spec`, a failed fork, an
-- abort of the main task), or for itself too (`BOP_abort_spec` of a speculative task).
pub data Lower : Type 0 where
  behind itself : Lower

-- Where a task stands, by the call that it makes next. The places from `testing` to `storing` are those
-- of `partial_group_set_size`; `waiting_group i` is the turn of the loop with that index.
-- `sequential` has won the race; `serial` is the main task whose fork of the understudy failed.
pub data Place : Type 0 where
  in_region : Place
  testing locking storing : Lower → Place
  aborting : Place
  waiting_check checking : Place
  reporting : Bool → Place
  checked committing signalling waiting_next deciding : Place
  waiting_group : ℕ → Place
  group_committing group_signalling meeting conceding : Place
  sequential serial gone : Place

-- What a task decides inside its region, or its ports in the check.
pub data Choice : Type 0 where
  goes_on lowers aborts : Choice

-- What has happened, for the statements about runs: the result of a check, the start of a call of
-- `partial_group_set_size`, the commit of a task's data, and that of the group.
pub data Mark : Type 0 where
  check_reported : ℕ → Bool → Mark
  lowering : ℕ → Lower → Mark
  data_committed group_committed : ℕ → Mark

pub record Turn : Type 0 where
  pub mem : SyncData
  pub place : Place
  pub marks : List Mark

abbrev pub go : SyncData → Place → Call Turn
go d p = done (record { mem = d; place = p; marks = [] })

abbrev pub go_marked : Mark → SyncData → Place → Call Turn
go_marked m d p = done (record { mem = d; place = p; marks = m ∷ [] })

-- The size that a task asks for.
unfoldable pub new_size : Lower → ℕ → ℕ
new_size Lower.behind spec_order = spec_order + 1
new_size Lower.itself spec_order = spec_order

-- After `partial_group_set_size`.
unfoldable pub lowered : Lower → Place
lowered Lower.behind = Place.in_region
lowered Lower.itself = Place.aborting

-- An abort lowers the size to 1 where the main task calls it.
unfoldable pub abort_kind : ℕ → Lower
abort_kind zero = Lower.behind
abort_kind (suc n) = Lower.itself

-- A task outside the group exits: a speculative one aborts on its way out, in `BOP_fini`.
unfoldable pub exit_turn : ℕ → SyncData → Call Turn
exit_turn zero d = go d Place.gone
exit_turn (suc n) d = go_marked (Mark.lowering (suc n) Lower.itself) d (Place.testing Lower.itself)

-- The region, until it ends with the first test of `ppr_task_commit`.
unfoldable pub region_turn : Choice → ℕ → SyncData → Call Turn
unfolding abort_kind exit_turn
region_turn Choice.goes_on i d =
    if leb d.partial_size i then exit_turn i d else go d Place.waiting_check
region_turn Choice.lowers i d =
    go_marked (Mark.lowering i Lower.behind) d (Place.testing Lower.behind)
region_turn Choice.aborts i d =
    go_marked (Mark.lowering i (abort_kind i)) d (Place.testing (abort_kind i))

-- The main task does not wait.
unfoldable pub prior_turn : ℕ → SyncData → Call Turn
unfolding wait_prior_check_done
prior_turn zero d = go d Place.checking
prior_turn (suc n) d = do d' ← wait_prior_check_done (suc n) d; go d' Place.checking

-- The ports fail where the choice is `aborts`; the main task asserts that they pass.
unfoldable pub check_turn : Choice → ℕ → SyncData → Call Turn
check_turn Choice.aborts zero d = asserted
check_turn Choice.aborts (suc n) d = go d (Place.reporting false)
check_turn _ i d = go d (Place.reporting true)

-- `BOP_abort_spec` after a check that failed.
abbrev pub go_failed : ℕ → SyncData → Call Turn
go_failed i d = done (record {
  mem = d;
  place = Place.testing Lower.itself;
  marks = Mark.lowering i Lower.itself ∷ Mark.check_reported i false ∷ [];
})

unfoldable pub report_turn : Bool → ℕ → SyncData → Call Turn
unfolding signal_check_done
report_turn true i d = do
  d' ← signal_check_done i true d
  go_marked (Mark.check_reported i true) d' Place.checked
report_turn false i d = do d' ← signal_check_done i false d; go_failed i d'

-- The last test of `ppr_task_commit`, with that of `_task_group_commit`.
unfoldable pub decide_turn : ℕ → SyncData → Call Turn
decide_turn zero d = go d Place.gone
decide_turn (suc n) d =
    if suc n + 1 == d.partial_size then go d (Place.waiting_group 0) else go d Place.gone

-- One turn of the loop of `wait_group_commit_done`, by its test.
abbrev pub group_by : ℕ → SyncData → Bool → Call Turn
group_by k d true = do d' ← acquire_committed k d; go d' (Place.waiting_group (k + 1))
group_by k d false = go d Place.group_committing

unfoldable pub group_turn : ℕ → SyncData → Call Turn
unfolding acquire_committed
group_turn k d = group_by k d (ltb (k + 1) d.partial_size)

-- One turn of the task with an order. A task that is gone or sequential has none.
unfoldable pub turn : Choice → ℕ → SyncData → Place → Call Turn
unfolding region_turn prior_turn check_turn report_turn decide_turn group_turn new_size lowered
    bop_lock_acquire signal_commit_done wait_next_commit_done wait_undy_created wait_undy_conceded
turn c i d Place.in_region = region_turn c i d
turn c i d (Place.testing l) =
    if leb 1 (new_size l i) && leb (new_size l i) 100
    then (if ltb (new_size l i) d.partial_size then go d (Place.locking l) else go d (lowered l))
    else asserted
turn c i d (Place.locking l) = do
  held ← bop_lock_acquire d.lock
  go (record d { lock = held }) (Place.storing l)
turn c i d (Place.storing l) =
    go (record d { partial_size = new_size l i; lock = bop_lock_release }) (lowered l)
turn c i d Place.aborting = do d' ← signal_commit_done i d; go d' Place.gone
turn c i d Place.waiting_check = prior_turn i d
turn c i d Place.checking = check_turn c i d
turn c i d (Place.reporting passed) = report_turn passed i d
turn c i d Place.checked =
    if ltb (i + 1) d.partial_size then go d Place.committing else go d Place.deciding
turn c i d Place.committing = go_marked (Mark.data_committed i) d Place.signalling
turn c i d Place.signalling = do d' ← signal_commit_done i d; go d' Place.waiting_next
turn c i d Place.waiting_next = do d' ← wait_next_commit_done i d; go d' Place.deciding
turn c i d Place.deciding = decide_turn i d
turn c i d (Place.waiting_group k) = group_turn k d
turn c i d Place.group_committing = go_marked (Mark.group_committed i) d Place.group_signalling
turn c i d Place.group_signalling = do d' ← signal_commit_done i d; go d' Place.meeting
turn c i d Place.meeting = do d' ← wait_undy_created d; go d' Place.conceding
turn c i d Place.conceding = do d' ← wait_undy_conceded d; go d' Place.sequential
turn c i d Place.sequential = blocked
turn c i d Place.serial = blocked
turn c i d Place.gone = blocked
