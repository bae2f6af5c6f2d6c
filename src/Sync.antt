-- ===== src/Sync.antt =====
-- bop_ppr_sync.c with the locks of atomic.h: the shared record by which the tasks of a group wait for
-- one another. A lock is a byte, 1 while it is held. An acquire that would spin is `blocked`: the
-- record is as before, and the call is made again when another task has changed it.
pub mod Laws
use cbop.Prelude.{
  ℕ, zero, suc, ◌+◌, ◌-◌, Bool, true, false, ◌&&◌, List, [], ◌∷◌, ◌++◌, Option, none, some, ltb,
  leb, ◌==◌, get_elem?, set, length, if◌then◌else◌,
}
use cbop.Task.{TaskStatus}

-- What a call comes to.
pub data Call (A : Type 0) : Type 0 where
  done : A → Call A
  blocked : Call A
  asserted : Call A
  fault : Call A

infixl 5 ◌>>=◌
abbrev pub ◌>>=◌ : {A B : Type 0} → Call A → (A → Call B) → Call B
done a >>= f = f a
blocked >>= f = blocked
asserted >>= f = asserted
fault >>= f = fault

-- `sync_status_t`
pub record SyncStatus : Type 0 where
  pub spec_checked : Bool
  pub spec_correct : Bool
  pub data_committed : Bool

-- `sync_data_t`
pub record SyncData : Type 0 where
  pub lock : Bool
  pub alloc_size : ℕ
  pub group_size : ℕ
  pub partial_size : ℕ
  pub sync_status : List SyncStatus
  pub undy_created : Bool
  pub undy_pid : ℕ
  pub undy_conceded : Bool

-- `__sync_bool_compare_and_swap( lock, 0, 1 )` until it succeeds.
unfoldable pub bop_lock_acquire : Bool → Call Bool
bop_lock_acquire false = done true
bop_lock_acquire true = blocked

-- Releasing and clearing store 0.
abbrev pub bop_lock_release : Bool
bop_lock_release = false

unfoldable pub partial_group_set_size : ℕ → SyncData → Call SyncData
unfolding bop_lock_acquire
partial_group_set_size psize d =
    if leb 1 psize && leb psize 100
    then (if ltb psize d.partial_size
        then (do
          held ← bop_lock_acquire d.lock
          done (record d { lock = bop_lock_release; partial_size = psize }))
        else done d)
    else asserted

-- `ppr_group_get_size`, also behind `BOP_get_group_size`; `none` is the record before its allocation.
unfoldable pub ppr_group_get_size : Option SyncData → ℕ
ppr_group_get_size none = 1
ppr_group_get_size (some d) = d.group_size

-- One turn of the loop of `ppr_sync_data_reset`: cleared and acquired, both locks are held.
unfoldable pub reset_status : SyncStatus → SyncStatus
reset_status s = record s { spec_checked = true; data_committed = true }

-- The first `n` entries.
unfoldable pub reset_first : ℕ → List SyncStatus → List SyncStatus
unfolding reset_status
reset_first zero ss = ss
reset_first (suc n) [] = []
reset_first (suc n) (s ∷ ss) = reset_status s ∷ reset_first n ss

unfoldable pub ppr_sync_data_reset : SyncData → SyncData
unfolding reset_first
ppr_sync_data_reset d = record d {
  sync_status = reset_first d.alloc_size d.sync_status;
  undy_created = true;
  undy_conceded = true;
  lock = bop_lock_release;
  partial_size = d.group_size;
}

abbrev pub blank_status : SyncStatus
blank_status = record { spec_checked = false; spec_correct = false; data_committed = false }

-- `calloc` clears the entries.
unfoldable pub blank : ℕ → List SyncStatus
blank zero = []
blank (suc n) = blank_status ∷ blank n

-- `realloc` keeps what fits and leaves the rest as `rest` says.
unfoldable pub realloc : ℕ → (ℕ → SyncStatus) → List SyncStatus → List SyncStatus
realloc zero rest ss = []
realloc (suc n) rest [] = rest n ∷ realloc n rest []
realloc (suc n) rest (s ∷ ss) = s ∷ realloc n rest ss

unfoldable pub allocate : ℕ → Option SyncData → SyncData
unfolding blank
allocate gsize (some d) = d
allocate gsize none = record {
  lock = false;
  alloc_size = gsize;
  group_size = 0;
  partial_size = 0;
  sync_status = blank gsize;
  undy_created = false;
  undy_pid = 0;
  undy_conceded = false;
}

unfoldable pub grow : ℕ → (ℕ → SyncStatus) → SyncData → SyncData
unfolding realloc
grow gsize rest d =
    if ltb d.group_size gsize
    then record d { sync_status = realloc gsize rest d.sync_status; alloc_size = gsize }
    else d

-- Any task but a sequential one is told off, and nothing changes.
unfoldable pub ppr_group_set_size :
    TaskStatus → ℕ → (ℕ → SyncStatus) → Option SyncData → Call (Option SyncData)
unfolding ppr_sync_data_reset allocate grow
ppr_group_set_size TaskStatus.seq gsize rest o =
    if leb 1 gsize && leb gsize 100
    then done (
        some (
          ppr_sync_data_reset (record (grow gsize rest (allocate gsize o)) { group_size = gsize })))
    else asserted
ppr_group_set_size _ gsize rest o = if leb 1 gsize && leb gsize 100 then done o else asserted

-- An access to `sync_status[ i ]`.
unfoldable pub status_at : ℕ → SyncData → Call SyncStatus
status_at i d = elim (get_elem? d.sync_status i) [ none ↦ fault | some s ↦ done s ]

abbrev pub put_status : ℕ → SyncData → SyncStatus → SyncData
put_status i d s = record d { sync_status = set d.sync_status i s }

unfoldable pub signal_check_done : ℕ → Bool → SyncData → Call SyncData
unfolding status_at
signal_check_done spec_order passed d = do
  s ← status_at spec_order d
  done (
      put_status spec_order d (record s { spec_correct = passed; spec_checked = bop_lock_release }))

unfoldable pub signal_commit_done : ℕ → SyncData → Call SyncData
unfolding status_at
signal_commit_done spec_order d = do
  s ← status_at spec_order d
  done (put_status spec_order d (record s { data_committed = bop_lock_release }))

unfoldable pub wait_prior_check_done : ℕ → SyncData → Call SyncData
unfolding status_at bop_lock_acquire
wait_prior_check_done zero d = asserted
wait_prior_check_done (suc prior) d = do
  s ← status_at prior d
  held ← bop_lock_acquire s.spec_checked
  done (put_status prior d (record s { spec_checked = held }))

-- Acquired and released at once, so that the lock is free afterwards.
unfoldable pub wait_next_commit_done : ℕ → SyncData → Call SyncData
unfolding status_at bop_lock_acquire
wait_next_commit_done spec_order d = do
  s ← status_at (spec_order + 1) d
  held ← bop_lock_acquire s.data_committed
  done (put_status (spec_order + 1) d (record s { data_committed = bop_lock_release }))

-- One turn of the loop of `wait_group_commit_done`.
unfoldable pub acquire_committed : ℕ → SyncData → Call SyncData
unfolding status_at bop_lock_acquire
acquire_committed i d = do
  s ← status_at i d
  held ← bop_lock_acquire s.data_committed
  done (put_status i d (record s { data_committed = held }))

-- A loop that has ended, or that spins at an index with the entries before it acquired.
pub data Waited : Type 0 where
  finished : SyncData → Waited
  spinning : ℕ → SyncData → Waited
  out_of_bounds : Waited

-- So many turns from an index on.
unfoldable pub wait_turns : ℕ → ℕ → SyncData → Waited
unfolding acquire_committed
wait_turns zero i d = finished d
wait_turns (suc n) i d = elim (acquire_committed i d) [
  | done d' ↦ wait_turns n (i + 1) d'
  | blocked ↦ spinning i d
  | asserted ↦ out_of_bounds
  | fault ↦ out_of_bounds
]

-- `wait_group_commit_done` from an index on: from 0, and again from where it spun. The bound is read
-- when it goes on.
unfoldable pub wait_group_commit_done : ℕ → SyncData → Waited
unfolding wait_turns
wait_group_commit_done i d = wait_turns (d.partial_size - 1 - i) i d

unfoldable pub signal_undy_created : ℕ → SyncData → SyncData
signal_undy_created pid d = record d { undy_pid = pid; undy_created = bop_lock_release }

unfoldable pub signal_undy_conceded : SyncData → SyncData
signal_undy_conceded d = record d { undy_conceded = bop_lock_release }

unfoldable pub wait_undy_created : SyncData → Call SyncData
unfolding bop_lock_acquire
wait_undy_created d = do
  held ← bop_lock_acquire d.undy_created
  done (record d { undy_created = held })

unfoldable pub wait_undy_conceded : SyncData → Call SyncData
unfolding bop_lock_acquire
wait_undy_conceded d = do
  held ← bop_lock_acquire d.undy_conceded
  done (record d { undy_conceded = held })
