-- ===== src/Ppr.antt =====
-- bop_ppr.c: the states of one task process. A handler takes the state and the outcome of what it
-- asks of the system (`fork`) or of other tasks, and returns the new state with the calls that it
-- made, in their order. `partial_size` and `group_size` stand for the fields of the shared record;
-- `seen_size` is the partial size that the comparison of `partial_group_set_size` reads, which it does before
-- it takes the lock: other tasks may have changed the field since.
pub mod Begin
pub mod End
pub mod Monitor
pub mod Start
pub mod Tasks
use cbop.Prelude.{
  ℕ, zero, suc, ◌+◌, ◌-◌, Bool, true, false, List, [], ◌∷◌, ◌++◌, Option, none, some, ltb, leb,
  ◌==◌, ◌||◌, ◌&&◌, if◌then◌else◌,
}
use cbop.Task.{TaskStatus, PprPos, BopMode, CInt, natural, negative}

pub record Task : Type 0 where
  pub status : TaskStatus
  pub pos : PprPos
  pub mode : BopMode
  pub spec_order : CInt
  pub ppr_index : ℕ
  pub static_id : ℕ
  pub partial_size : ℕ
  pub seen_size : ℕ
  pub group_size : ℕ
  pub undy_ppr_count : ℕ
  pub num_by_spec : ℕ
  pub num_by_main : ℕ
  pub num_by_undy : ℕ

-- The calls whose order matters, and the end of the process.
pub data Effect : Type 0 where
  sync_reset group_init task_init undy_init undy_succ_fini on_main_complete : Effect
  check_ports report_checked data_commit commit_done group_commit succ_fini : Effect
  wait_prior_check wait_next_commit wait_group_commit wait_undy_created wait_undy_conceded : Effect
  undy_created signal_group signal_monitor_group : Effect
  exit failed_assert : Effect

-- What a handler returns. `jumped` is the result 1 of `_BOP_ppr_begin`.
pub record Result : Type 0 where
  pub task : Task
  pub effects : List Effect
  pub jumped : Bool

pub data Fork : Type 0 where
  failed parent child : Fork

-- The start of `_BOP_ppr_begin`.
unfoldable pub enter : Task → Task
enter t = record t { pos = PprPos.ppr; ppr_index = t.ppr_index + 1 }

abbrev pub answer : Task → List Effect → Result
answer t es = record { task = t; effects = es; jumped = false }

-- `_ppr_group_init`
unfoldable pub ppr_group_init : Task → Task
ppr_group_init t = record t {
  spec_order = natural 0;
  partial_size = t.group_size;
  status = TaskStatus.main;
}

unfoldable pub next_order : CInt → CInt
next_order (natural n) = natural (n + 1)
next_order (negative zero) = natural 0
next_order (negative (suc n)) = negative n

abbrev pub is_zero : CInt → Bool
is_zero (natural n) = n == 0
is_zero (negative n) = false

-- `_ppr_task_init`, by the status of the task.
unfoldable pub task_init_by : TaskStatus → Task → Task × List Effect
unfolding next_order
task_init_by TaskStatus.main t =
    (t, (if is_zero t.spec_order then Effect.task_init ∷ [] else Effect.failed_assert ∷ []))
task_init_by TaskStatus.spec t =
    (record t { spec_order = next_order t.spec_order }, Effect.task_init ∷ [])
task_init_by _ t = (t, Effect.failed_assert ∷ [])

unfoldable pub ppr_task_init : Task → Task × List Effect
unfolding task_init_by
ppr_task_init t = task_init_by t.status t

-- `spec_order >= partial_group_get_size( ) - 1`, between ints.
unfoldable pub at_limit : CInt → ℕ → Bool
at_limit (natural n) partial = leb partial (n + 1)
at_limit (negative n) partial = partial == 0 && n == 0

abbrev pub is_serial : BopMode → Bool
is_serial BopMode.serial = true
is_serial BopMode.parallel = false

-- `partial_group_set_size` on the one field; `none` is the failure of its assertion.
unfoldable pub set_partial : ℕ → Task → Option Task
set_partial psize t =
    if leb 1 psize && leb psize 100
    then some (if ltb psize t.seen_size then record t { partial_size = psize } else t)
    else none

abbrev pub order_of : CInt → ℕ
order_of (natural n) = n
order_of (negative n) = 0

-- After `fork`.
unfoldable pub fork_failed : TaskStatus → Task → Option Task
unfolding set_partial
fork_failed TaskStatus.main t = some (record t { status = TaskStatus.seq; mode = BopMode.serial })
fork_failed _ t = set_partial (order_of t.spec_order + 1) t

unfoldable pub fork_parent : TaskStatus → Task → Task × List Effect
unfolding ppr_task_init
fork_parent TaskStatus.main t = ppr_task_init t
fork_parent _ t = (t, [])

unfoldable pub after_fork : Fork → List Effect → Task → Result
unfolding fork_failed fork_parent ppr_task_init
after_fork Fork.failed es t = elim (fork_failed t.status t) [
  | none ↦ answer t (es ++ (Effect.failed_assert ∷ []))
  | some t' ↦ answer t' es
]
after_fork Fork.parent es t = let (t', es') = fork_parent t.status t in answer t' (es ++ es')
after_fork Fork.child es t =
    let (t', es') = ppr_task_init (record t { status = TaskStatus.spec; pos = PprPos.gap }) in
    record { task = t'; effects = es ++ es'; jumped = true }

-- From `ppr_static_id = id` on.
unfoldable pub open_region : ℕ → Fork → List Effect → Task → Result
unfolding after_fork at_limit ppr_task_init
open_region id fork es old =
    let t = record old { static_id = id } in
    if is_serial t.mode || at_limit t.spec_order t.partial_size
    then (if is_serial t.mode
        then (let (t', es') = ppr_task_init t in answer t' (es ++ es'))
        else answer t es)
    else after_fork fork es t

abbrev pub is_gap : PprPos → Bool
is_gap PprPos.gap = true
is_gap _ = false

-- `_BOP_ppr_begin`, by the status and by the position before the call.
unfoldable pub begin_by : TaskStatus → PprPos → ℕ → Fork → Task → Result
unfolding open_region ppr_group_init
begin_by TaskStatus.undy old_pos id fork t = answer t []
begin_by TaskStatus.seq old_pos id fork t =
    open_region id fork (Effect.sync_reset ∷ Effect.group_init ∷ []) (ppr_group_init t)
begin_by TaskStatus.spec old_pos id fork t =
    if is_gap old_pos then open_region id fork [] t else answer t []
begin_by TaskStatus.main old_pos id fork t = answer t []

unfoldable pub ppr_begin : ℕ → Fork → Task → Result
unfolding begin_by enter
ppr_begin id fork t = begin_by t.status t.pos id fork (enter t)
