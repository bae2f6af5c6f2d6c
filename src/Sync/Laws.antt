-- ===== src/Sync/Laws.antt =====
-- The shared record of bop_ppr_sync.c: sizes, and the handshakes by its locks.
use cbop.Prelude.{
  ℕ, zero, suc, ◌+◌, ◌≤◌, ◌<◌, ◌≡◌, ◌-◌, refl, sym, ap, ◌∙◌, Bool, true, false, List, [], ◌∷◌,
  Option, none, some, arith, length, get_elem?, set, get_elem?-set_self, set-set_self, ltb,
  if◌then◌else◌,
}
use cbop.Task.{TaskStatus}
use cbop.Sync.{
  done, blocked, SyncStatus, SyncData, partial_group_set_size, reset_first, ppr_sync_data_reset,
  blank, realloc, allocate, grow, ppr_group_set_size, put_status, signal_check_done,
  signal_commit_done, wait_prior_check_done, wait_next_commit_done, acquire_committed, spinning,
  wait_turns, wait_group_commit_done,
}

-- The sizes agree with the entries, and a group has 1 to 100 tasks.
pub record IsValid (d : SyncData) : Type 0 where
  pub allocated : length d.sync_status ≡ d.alloc_size
  pub room : d.group_size ≤ d.alloc_size
  pub some_task : 1 ≤ d.partial_size
  pub part : d.partial_size ≤ d.group_size
  pub most : d.group_size ≤ 100

-- A free record stays valid, its partial size becomes the least of the old and the new one, and
-- nothing else changes.
pub partial_group_set_size_lem :
    (psize : ℕ) (d : SyncData)
    → IsValid d
    → d.lock ≡ false
    → 1 ≤ psize
    → psize ≤ 100
    → (d' : SyncData) × (partial_group_set_size psize d ≡ done d')
      × IsValid d'
      × (d'.partial_size ≡ (if ltb psize d.partial_size then psize else d.partial_size))
      × (d'.sync_status ≡ d.sync_status)
      × (d'.group_size ≡ d.group_size)
      × (d'.lock ≡ false)
unfolding partial_group_set_size
partial_group_set_size_lem psize d v free p q = (
  record d { partial_size = if ltb psize d.partial_size then psize else d.partial_size },
  ground arith,
  ground (arith, v),
  refl,
  refl,
  refl,
  free,
)

length-reset_first : (n : ℕ) (ss : List SyncStatus) → length (reset_first n ss) ≡ length ss
unfolding reset_first
length-reset_first zero ss = refl
length-reset_first (suc n) [] = refl
length-reset_first (suc n) (s ∷ ss) = omega (arith, length-reset_first n ss)

length-blank : (n : ℕ) → length (blank n) ≡ n
unfolding blank
length-blank zero = refl
length-blank (suc n) = omega (arith, length-blank n)

length-realloc :
    (n : ℕ) (rest : ℕ → SyncStatus) (ss : List SyncStatus) → length (realloc n rest ss) ≡ n
unfolding realloc
length-realloc zero rest ss = refl
length-realloc (suc n) rest [] = omega (arith, length-realloc n rest [])
length-realloc (suc n) rest (s ∷ ss) = omega (arith, length-realloc n rest ss)

-- Every entry within the size has both locks held after a reset.
get_elem?-reset_first :
    (n i : ℕ) (ss : List SyncStatus)
    → i < n
    → n ≤ length ss
    → (s : SyncStatus) × (get_elem? (reset_first n ss) i ≡ some s)
      × (s.spec_checked ≡ true)
      × (s.data_committed ≡ true)
unfolding reset_first
get_elem?-reset_first zero i ss h k = absurd (omega arith)
get_elem?-reset_first (suc n) i [] h k = absurd (omega arith)
get_elem?-reset_first (suc n) zero (s ∷ ss) h k = (_, refl, refl, refl)
get_elem?-reset_first (suc n) (suc i) (s ∷ ss) h k =
    get_elem?-reset_first n i ss (omega arith) (omega arith)

-- What holds at the start of a group.
pub record IsReady (gsize : ℕ) (d : SyncData) : Type 0 where
  pub valid : IsValid d
  pub group : d.group_size ≡ gsize
  pub whole : d.partial_size ≡ gsize
  pub free : d.lock ≡ false
  pub held :
      (i : ℕ)
      → i < gsize
      → (s : SyncStatus) × (get_elem? d.sync_status i ≡ some s)
        × (s.spec_checked ≡ true)
        × (s.data_committed ≡ true)
  pub no_understudy : (d.undy_created ≡ true) × (d.undy_conceded ≡ true)

-- The record before a call, if there is one, has the entries that its sizes say.
abbrev pub HasRoom : Option SyncData → Type 0
HasRoom none = Unit
HasRoom (some d) = (length d.sync_status ≡ d.alloc_size) × (d.group_size ≤ d.alloc_size)

pub reset-IsReady :
    (gsize : ℕ) (d : SyncData)
    → 1 ≤ gsize
    → gsize ≤ 100
    → d.group_size ≡ gsize
    → length d.sync_status ≡ d.alloc_size
    → gsize ≤ d.alloc_size
    → IsReady gsize (ppr_sync_data_reset d)
unfolding ppr_sync_data_reset
reset-IsReady gsize d p q g l r = record {
  valid = omega (arith, length-reset_first d.alloc_size d.sync_status);
  group = g;
  whole = g;
  free = refl;
  held = λ i h. get_elem?-reset_first d.alloc_size i d.sync_status (omega arith) (omega arith);
  no_understudy = (refl, refl);
}

allocate-HasRoom :
    (gsize : ℕ) (rest : ℕ → SyncStatus) (o : Option SyncData)
    → 1 ≤ gsize
    → HasRoom o
    → (length (grow gsize rest (allocate gsize o)).sync_status
        ≡ (grow gsize rest (allocate gsize o)).alloc_size)
      × (gsize ≤ (grow gsize rest (allocate gsize o)).alloc_size)
unfolding allocate grow
allocate-HasRoom gsize rest none p h = ground (arith, length-realloc gsize rest (blank gsize))
allocate-HasRoom gsize rest (some d) p h = ground (arith, length-realloc gsize rest d.sync_status)

-- A sequential task can set any size from 1 to 100, first or again, whatever `realloc` leaves in new
-- entries: the record is then valid, whole and free, and every task's locks are held, as are those of
-- the understudy.
pub ppr_group_set_size-IsReady :
    (gsize : ℕ) (rest : ℕ → SyncStatus) (o : Option SyncData)
    → 1 ≤ gsize
    → gsize ≤ 100
    → HasRoom o
    → (d : SyncData) × (ppr_group_set_size TaskStatus.seq gsize rest o ≡ done (some d))
      × IsReady gsize d
unfolding ppr_group_set_size
ppr_group_set_size-IsReady gsize rest o p q h =
    let (sizes, room) = allocate-HasRoom gsize rest o p h in
    (
      _,
      ground arith,
      reset-IsReady gsize (record (grow gsize rest (allocate gsize o)) { group_size = gsize }) p q
          refl sizes room,
    )

-- A task's entry, as it stands before and after its check and its successor's wait.
abbrev signalled : SyncStatus → Bool → SyncStatus
signalled s passed = record s { spec_correct = passed; spec_checked = false }

abbrev taken : SyncStatus → Bool → SyncStatus
taken s passed = record s { spec_correct = passed; spec_checked = true }

-- Behind a held lock a task waits for the check of the one before it. Once that one has signalled, the
-- wait succeeds, one time, and the result of the check stands in its entry.
pub signal_check_done-wait :
    (i : ℕ) (passed : Bool) (d : SyncData) (s : SyncStatus)
    → get_elem? d.sync_status i ≡ some s
    → s.spec_checked ≡ true
    → (wait_prior_check_done (suc i) d ≡ blocked)
      × (d' : SyncData) × (signal_check_done i passed d ≡ done d')
      × (d'' : SyncData) × (wait_prior_check_done (suc i) d' ≡ done d'')
      × (wait_prior_check_done (suc i) d'' ≡ blocked)
      × (get_elem? d''.sync_status i ≡ some (taken s passed))
unfolding signal_check_done wait_prior_check_done
signal_check_done-wait i passed d s at held =
    let put = get_elem?-set_self d.sync_status i s (signalled s passed) at in
    let after = set d.sync_status i (signalled s passed) in
    let put' = get_elem?-set_self after i (signalled s passed) (taken s passed) put in
    (
      ground (arith, at, held),
      put_status i d (signalled s passed),
      ground (arith, at),
      put_status i (put_status i d (signalled s passed)) (taken s passed),
      ground (arith, put),
      ground (arith, put'),
      put',
    )

-- The wait for the next task's commit blocks behind a held lock. Once that task has signalled, the
-- wait succeeds every time, and leaves the record as it is.
pub signal_commit_done-wait :
    (i : ℕ) (d : SyncData) (s : SyncStatus)
    → get_elem? d.sync_status (i + 1) ≡ some s
    → s.data_committed ≡ true
    → (wait_next_commit_done i d ≡ blocked)
      × (d' : SyncData) × (signal_commit_done (i + 1) d ≡ done d')
      × (wait_next_commit_done i d' ≡ done d')
unfolding signal_commit_done wait_next_commit_done
signal_commit_done-wait i d s at held =
    let free = record s { data_committed = false } in
    let put = get_elem?-set_self d.sync_status (i + 1) s free at in
    (
      ground (arith, at, held),
      put_status (i + 1) d free,
      ground (arith, at),
      ground (arith, put, set-set_self d.sync_status (i + 1) free free),
    )

set-get_elem? :
    (ss : List SyncStatus) (i : ℕ) (s : SyncStatus) → get_elem? ss i ≡ some s → set ss i s ≡ ss
set-get_elem? [] i s h = refl
set-get_elem? (x ∷ ss) zero s h = ground (arith, h)
set-get_elem? (x ∷ ss) (suc i) s h = ap (λ l. x ∷ l) (set-get_elem? ss i s h)

abbrev released : SyncStatus → SyncStatus
released s = record s { data_committed = false }

retaken : (s : SyncStatus) → s.data_committed ≡ true → record s { data_committed = true } ≡ s
retaken s c i = record s { data_committed = sym c i }

acquire_committed-released :
    (i : ℕ) (d : SyncData) (s : SyncStatus)
    → get_elem? d.sync_status i ≡ some s
    → s.data_committed ≡ true
    → acquire_committed i (put_status i d (released s)) ≡ done d
unfolding acquire_committed
acquire_committed-released i d s e c =
    ground (arith, get_elem?-set_self d.sync_status i s (released s) e)
    ∙ ap (λ ss. done (record d { sync_status = ss }))
        (set-set_self d.sync_status i (released s) (record s { data_committed = true })
          ∙ ap (set d.sync_status i) (retaken s c)
          ∙ set-get_elem? d.sync_status i s e)

wait_turns_step :
    (n i : ℕ) (d d' : SyncData)
    → 0 < n
    → acquire_committed i d ≡ done d'
    → wait_turns n i d ≡ wait_turns (n - 1) (i + 1) d'
unfolding wait_turns
wait_turns_step zero i d d' p e = absurd (omega arith)
wait_turns_step (suc n) i d d' p e = ground (arith, e)

wait_turns_held :
    (n i : ℕ) (d : SyncData)
    → 0 < n
    → acquire_committed i d ≡ blocked
    → wait_turns n i d ≡ spinning i d
unfolding wait_turns
wait_turns_held zero i d p e = absurd (omega arith)
wait_turns_held (suc n) i d p e = ground (arith, e)

-- The wait for the group spins at a task whose commit is not signalled. Once that task has signalled,
-- the wait takes its lock again, and goes on at the next task with the record as it was.
pub wait_group_commit_done-signal :
    (i : ℕ) (d : SyncData) (s : SyncStatus)
    → i + 1 < d.partial_size
    → get_elem? d.sync_status i ≡ some s
    → s.data_committed ≡ true
    → (wait_group_commit_done i d ≡ spinning i d)
      × (d' : SyncData) × (signal_commit_done i d ≡ done d')
      × (wait_group_commit_done i d' ≡ wait_group_commit_done (i + 1) d)
unfolding wait_group_commit_done signal_commit_done acquire_committed
wait_group_commit_done-signal i d s h e c = (
  wait_turns_held (d.partial_size - 1 - i) i d (omega arith) (ground (arith, e, c)),
  put_status i d (released s),
  ground (arith, e),
  wait_turns_step (d.partial_size - 1 - i) i (put_status i d (released s)) d (omega arith)
        (acquire_committed-released i d s e c)
      ∙ ap (λ n. wait_turns n (i + 1) d) (omega arith),
)
