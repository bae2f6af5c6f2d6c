-- ===== src/Ppr/End.antt =====
-- bop_ppr.c: the end of a region, the commit, the understudy and the abort.
pub mod Commit
use cbop.Prelude.{
  ℕ, zero, suc, ◌+◌, ◌-◌, Bool, true, false, ◌&&◌, ◌||◌, not, List, [], ◌∷◌, ◌++◌, Option, none,
  some, ltb, leb, ◌==◌, if◌then◌else◌,
}
use cbop.Task.{TaskStatus, PprPos, BopMode, CInt, natural, negative}
use cbop.Ppr.{Task, Effect, Fork, at_limit, set_partial, order_of, is_serial, is_gap}

-- A task that goes on, or a process that is gone.
pub data Flow : Type 0 where
  running ended : Task → List Effect → Flow

unfoldable pub after : List Effect → Flow → Flow
after es (running t es') = running t (es ++ es')
after es (ended t es') = ended t (es ++ es')

-- What a task meets on the way: the result of its ports' checks, and the partial size of the group
-- each time that it is read, which other tasks may have lowered.
pub record Others : Type 0 where
  pub passed : Bool
  pub size_start : ℕ
  pub size_checked : ℕ
  pub size_done : ℕ

unfoldable pub spawn_undy : Fork → Task → Task × List Effect × Bool
spawn_undy Fork.failed t = (record t { status = TaskStatus.seq; mode = BopMode.serial }, [], true)
spawn_undy Fork.child t = (
  record t {
    status = TaskStatus.undy;
    pos = PprPos.gap;
    spec_order = negative 0;
    num_by_main = t.num_by_main + 1;
    undy_ppr_count = 0;
  },
  Effect.undy_created ∷ Effect.undy_init ∷ [],
  true,
)
spawn_undy Fork.parent t = (t, [], false)

unfoldable pub post_ppr_undy : Task → Task × List Effect
post_ppr_undy t =
    let n = t.undy_ppr_count + 1 in
    if ltb n (t.partial_size - 1) then (record t { undy_ppr_count = n }, []) else (
      record t {
        undy_ppr_count = n;
        status = TaskStatus.seq;
        pos = PprPos.gap;
        num_by_undy = t.num_by_undy + n;
      },
      Effect.signal_group ∷ Effect.signal_monitor_group ∷ Effect.undy_succ_fini ∷ [],
    )

-- What follows `partial_group_set_size`; the process is gone where its assertion fails.
abbrev pub lowered_or : Task → Option Task → (Task → Flow) → Flow
lowered_or t none next = ended t (Effect.failed_assert ∷ [])
lowered_or t (some t') next = next t'

-- `BOP_abort_spec`, by the status. A speculative task signals its commit, so that no one waits for
-- it, and is gone.
unfoldable pub abort_by : TaskStatus → Task → Flow
unfolding set_partial
abort_by TaskStatus.seq t = running t []
abort_by TaskStatus.undy t = running t []
abort_by TaskStatus.main t =
    if is_serial t.mode
    then running t []
    else (if ltb 1 t.partial_size
        then lowered_or t (set_partial 1 t) (λ t'. running t' [])
        else running t [])
abort_by TaskStatus.spec t =
    if is_serial t.mode
    then running t []
    else lowered_or t (set_partial (order_of t.spec_order) t)
        (λ t'. ended t' (Effect.commit_done ∷ Effect.exit ∷ []))

unfoldable pub abort_spec : Task → Flow
unfolding abort_by
abort_spec t = abort_by t.status t

-- `BOP_abort_next_spec`
unfoldable pub abort_next_by : TaskStatus → Task → Flow
unfolding set_partial
abort_next_by TaskStatus.seq t = running t []
abort_next_by TaskStatus.undy t = running t []
abort_next_by TaskStatus.main t =
    if is_serial t.mode then running t [] else lowered_or t (set_partial 1 t) (λ t'. running t' [])
abort_next_by TaskStatus.spec t =
    if is_serial t.mode
    then running t []
    else lowered_or t (set_partial (order_of t.spec_order + 1) t) (λ t'. running t' [])

-- The speculative task in `BOP_fini`, after its abort.
unfoldable pub fini_spec : Task → List Effect × Task
unfolding set_partial
fini_spec t =
    if is_serial t.mode
    then (
      Effect.signal_group ∷ Effect.data_commit ∷ Effect.group_commit ∷ Effect.succ_fini ∷ [],
      elim (set_partial 1 t) [ none ↦ t | some t' ↦ t' ],
    )
    else (Effect.signal_group ∷ [], t)

-- `exit( )` runs `BOP_fini`: a speculative task aborts there.
unfoldable pub exit_aborted : Flow → Flow
unfolding fini_spec
exit_aborted (ended t es) = ended t es
exit_aborted (running t es) =
    let (later, t') = fini_spec t in ended t' (es ++ (later ++ (Effect.exit ∷ [])))

unfoldable pub exit_by : TaskStatus → Task → Flow
unfolding exit_aborted abort_spec
exit_by TaskStatus.spec t = exit_aborted (abort_spec t)
exit_by TaskStatus.undy t =
    ended t
      (Effect.signal_group ∷ Effect.signal_monitor_group ∷ Effect.undy_succ_fini ∷ Effect.exit ∷ [])
exit_by _ t = ended t (Effect.exit ∷ [])

-- `_task_group_commit`, by the status.
unfoldable pub group_commit_by : TaskStatus → Task → Flow
group_commit_by TaskStatus.main t =
    if is_serial t.mode
    then running (record t { status = TaskStatus.seq; num_by_main = t.num_by_main + 1 })
        (Effect.group_commit ∷ Effect.succ_fini ∷ [])
    else ended t (Effect.exit ∷ [])
group_commit_by _ t =
    running
      (record t {
        status = TaskStatus.seq;
        num_by_spec = t.num_by_spec + order_of t.spec_order;
        num_by_main = t.num_by_main + 1;
      })
      (Effect.wait_group_commit
        ∷ Effect.group_commit
        ∷ Effect.commit_done
        ∷ (if is_serial t.mode
            then Effect.succ_fini ∷ []
            else Effect.wait_undy_created ∷ Effect.signal_group ∷ Effect.wait_undy_conceded
              ∷ Effect.succ_fini ∷ []))

-- `spec_order == partial_group_get_size( ) - 1` and `spec_order >= partial_group_get_size( )`.
unfoldable pub is_last : CInt → ℕ → Bool
is_last (natural n) partial = n + 1 == partial
is_last (negative n) partial = partial == 0 && n == 0

unfoldable pub is_outside : CInt → ℕ → Bool
is_outside (natural n) partial = leb partial n
is_outside (negative n) partial = false

-- The end of `ppr_task_commit`.
unfoldable pub commit_last : Others → Task → Flow
unfolding group_commit_by is_last
commit_last o t =
    if is_last t.spec_order o.size_done
    then group_commit_by t.status t
    else ended t (Effect.exit ∷ [])

-- After the check.
unfoldable pub commit_checked : Others → Task → Flow
unfolding commit_last after at_limit
commit_checked o t =
    if at_limit t.spec_order o.size_checked
    then commit_last o t
    else (if is_serial t.mode
        then running t (Effect.data_commit ∷ Effect.commit_done ∷ [])
        else after (Effect.data_commit ∷ Effect.commit_done ∷ Effect.wait_next_commit ∷ [])
            (commit_last o t))

-- A main task does not wait, and asserts that its check passes.
unfoldable pub check_by : TaskStatus → Bool → List Effect
check_by TaskStatus.main passed =
    Effect.check_ports ∷ (if passed then Effect.report_checked ∷ [] else Effect.failed_assert ∷ [])
check_by _ passed = Effect.wait_prior_check ∷ Effect.check_ports ∷ Effect.report_checked ∷ []

unfoldable pub is_main : TaskStatus → Bool
is_main TaskStatus.main = true
is_main _ = false

-- What follows a flow that is still running.
unfoldable pub and_then : Flow → (Task → Flow) → Flow
unfolding after
and_then (running t es) next = after es (next t)
and_then (ended t es) next = ended t es

unfoldable pub ppr_task_commit : Others → Task → Flow
unfolding abort_spec commit_checked check_by after is_outside is_main and_then exit_by
ppr_task_commit o t =
    if is_outside t.spec_order o.size_start
    then exit_by t.status t
    else after (check_by t.status o.passed) (
        if o.passed
        then commit_checked o t
        else (if is_main t.status then ended t [] else and_then (abort_spec t) (commit_checked o)))

unfoldable pub after_spawn : Others → Task × List Effect × Bool → Flow
unfolding after ppr_task_commit
after_spawn o (t, es, true) = running t es
after_spawn o (t, es, false) = after es (ppr_task_commit o t)

unfoldable pub end_main : Fork → Others → Task → Flow
unfolding after spawn_undy after_spawn ppr_task_commit
end_main fork o t =
    after (Effect.on_main_complete ∷ [])
      (if is_serial t.mode then ppr_task_commit o t else after_spawn o (spawn_undy fork t))

unfoldable pub end_by : TaskStatus → Fork → Others → Task → Flow
unfolding end_main post_ppr_undy ppr_task_commit
end_by TaskStatus.seq fork o t = running t []
end_by TaskStatus.main fork o t = end_main fork o t
end_by TaskStatus.spec fork o t = ppr_task_commit o t
end_by TaskStatus.undy fork o t =
    let (t', es) = post_ppr_undy t in running (record t' { pos = PprPos.gap }) es

unfoldable pub ppr_end : ℕ → Fork → Others → Task → Flow
unfolding end_by
ppr_end id fork o t =
    if is_gap t.pos || not (t.static_id == id) then running t [] else end_by t.status fork o t

-- `_BOP_group_over`: a speculative task that runs past its region is gone.
unfoldable pub group_over : ℕ → Task → Flow
group_over id t =
    if t.static_id == id
    then elim t.status [
      | TaskStatus.spec ↦ ended t (Effect.exit ∷ [])
      | TaskStatus.seq ↦ running t []
      | TaskStatus.undy ↦ running t []
      | TaskStatus.main ↦ running t []
    ]
    else running t []

-- `BOP_malloc_rescue` where the allocator fails: the new understudy goes on, all others are gone.
unfoldable pub rescue_by_undy : Task × List Effect × Bool → Flow
rescue_by_undy (t, es, true) = running t es
rescue_by_undy (t, es, false) = ended t (es ++ (Effect.exit ∷ []))

unfoldable pub rescue_by : TaskStatus → Fork → Task → Flow
unfolding rescue_by_undy spawn_undy
rescue_by TaskStatus.seq fork t = ended t (Effect.exit ∷ [])
rescue_by TaskStatus.undy fork t = ended t (Effect.exit ∷ [])
rescue_by TaskStatus.main fork t = rescue_by_undy (spawn_undy fork t)
rescue_by TaskStatus.spec fork t = elim t.spec_order [
  | natural zero ↦ rescue_by_undy (spawn_undy fork t)
  | natural (suc n) ↦ ended t (Effect.exit ∷ [])
  | negative n ↦ and_then (abort_spec t) (λ t'. ended t' (Effect.exit ∷ []))
]

unfoldable pub malloc_rescue : Fork → Task → Flow
unfolding rescue_by
malloc_rescue fork t =
    if is_serial t.mode then ended t (Effect.exit ∷ []) else rescue_by t.status fork t
