-- ===== src/Ppr/Tasks/Views.antt =====
-- The locks of the shared record by the index of a task, and what each call does to them.
use cbop.Prelude.{
  ℕ, zero, suc, ◌+◌, ◌≡◌, refl, ◌∙◌, not, Bool, true, false, List, [], ◌∷◌, none, some, arith,
  get_elem?, set, ◌==◌, if◌then◌else◌,
}
use cbop.Sync.{
  Call, done, ◌>>=◌, SyncStatus, SyncData, put_status, signal_check_done, signal_commit_done,
  wait_prior_check_done, wait_next_commit_done, acquire_committed,
}
use cbop.Ppr.Tasks.System.{update}

-- A call that goes on after another has had its result.
pub bind-done :
    {A B : Type 0} (m : Call A) (f : A → Call B) {b : B}
    → (m >>= f) ≡ done b
    → (a : A) × (m ≡ done a) × (f a ≡ done b)
bind-done (done a) f h = (a, refl, h)
bind-done Call.blocked f h = cc
bind-done Call.asserted f h = cc
bind-done Call.fault f h = cc

-- Whether a task's lock is free; an entry that is not there has none that is.
unfoldable pub check_free : SyncData → ℕ → Bool
check_free d i = elim (get_elem? d.sync_status i) [
  | none ↦ false
  | some s ↦ if s.spec_checked then false else true
]

unfoldable pub commit_free : SyncData → ℕ → Bool
commit_free d i = elim (get_elem? d.sync_status i) [
  | none ↦ false
  | some s ↦ if s.data_committed then false else true
]

-- Everything but the entries is as it was.
pub record SameRest (d d' : SyncData) : Type 0 where
  pub lock : d'.lock ≡ d.lock
  pub partial_size : d'.partial_size ≡ d.partial_size
  pub undy_created : d'.undy_created ≡ d.undy_created
  pub undy_conceded : d'.undy_conceded ≡ d.undy_conceded

get_elem?-set :
    (xs : List SyncStatus) (i j : ℕ) (s u : SyncStatus)
    → get_elem? xs i ≡ some u
    → get_elem? (set xs i s) j ≡ (if i == j then some s else get_elem? xs j)
get_elem?-set [] i j s u h = cc
get_elem?-set (x ∷ xs) zero zero s u h = refl
get_elem?-set (x ∷ xs) zero (suc j) s u h = ground arith
get_elem?-set (x ∷ xs) (suc i) zero s u h = ground arith
get_elem?-set (x ∷ xs) (suc i) (suc j) s u h = ground (arith, get_elem?-set xs i j s u h)

put_status-free :
    (i : ℕ) (d : SyncData) (u s : SyncStatus)
    → get_elem? d.sync_status i ≡ some u
    → (j : ℕ)
    → (check_free (put_status i d s) j ≡ (if i == j then not s.spec_checked else check_free d j))
      × (commit_free (put_status i d s) j
          ≡ (if i == j then not s.data_committed else commit_free d j))
unfolding check_free commit_free
put_status-free i d u s h j = ground (arith, get_elem?-set d.sync_status i j s u h)

-- What a call on one entry leaves: everything else as it was, and the locks that are free.
pub record Changed (d d' : SyncData) (check commit : ℕ → Bool) : Type 0 where
  pub rest : SameRest d d'
  pub check_is : (j : ℕ) → check_free d' j ≡ check j
  pub commit_is : (j : ℕ) → commit_free d' j ≡ commit j

put_status-Changed :
    (i : ℕ) (d d' : SyncData) (u s : SyncStatus)
    → get_elem? d.sync_status i ≡ some u
    → d' ≡ put_status i d s
    → Changed d d'
        (update (check_free d) i (not s.spec_checked))
        (update (commit_free d) i (not s.data_committed))
put_status-Changed i d d' u s h e = record {
  rest = ground (arith, e);
  check_is = λ j. ground (arith, e, put_status-free i d u s h j);
  commit_is = λ j. ground (arith, e, put_status-free i d u s h j);
}

entry :
    (d : SyncData) (i : ℕ) (u : SyncStatus)
    → get_elem? d.sync_status i ≡ some u
    → (check_free d i ≡ not u.spec_checked) × (commit_free d i ≡ not u.data_committed)
unfolding check_free commit_free
entry d i u h = ground (arith, h)

-- One lock is taken or released, and the other one of the entry stays.
same_lock : (f : ℕ → Bool) (i : ℕ) (b : Bool) → f i ≡ b → (j : ℕ) → update f i b j ≡ f j
same_lock f i b e j = ground (arith, e)

keeps_commit :
    (i : ℕ) {b : Bool} {d d' : SyncData} {f : ℕ → Bool}
    → commit_free d i ≡ b
    → Changed d d' f (update (commit_free d) i b)
    → Changed d d' f (commit_free d)
keeps_commit i {b} {d} e c = record {
  rest = c.rest;
  check_is = c.check_is;
  commit_is = λ j. c.commit_is j ∙ same_lock (commit_free d) i b e j;
}

keeps_check :
    (i : ℕ) {b : Bool} {d d' : SyncData} {f : ℕ → Bool}
    → check_free d i ≡ b
    → Changed d d' (update (check_free d) i b) f
    → Changed d d' (check_free d) f
keeps_check i {b} {d} e c = record {
  rest = c.rest;
  check_is = λ j. c.check_is j ∙ same_lock (check_free d) i b e j;
  commit_is = c.commit_is;
}

module _ (i : ℕ) (d d' : SyncData) where
  wait_prior-inv :
      wait_prior_check_done (suc i) d ≡ done d'
      → (u : SyncStatus) × (get_elem? d.sync_status i ≡ some u)
        × (u.spec_checked ≡ false)
        × (d' ≡ put_status i d (record u { spec_checked = true }))
  unfolding wait_prior_check_done
  wait_prior-inv h = ground arith

  signal_check-inv :
      (passed : Bool)
      → signal_check_done i passed d ≡ done d'
      → (u : SyncStatus) × (get_elem? d.sync_status i ≡ some u)
        × (d' ≡ put_status i d (record u { spec_correct = passed; spec_checked = false }))
  unfolding signal_check_done
  signal_check-inv passed h = ground arith

  signal_commit-inv :
      signal_commit_done i d ≡ done d'
      → (u : SyncStatus) × (get_elem? d.sync_status i ≡ some u)
        × (d' ≡ put_status i d (record u { data_committed = false }))
  unfolding signal_commit_done
  signal_commit-inv h = ground arith

  wait_next-inv :
      wait_next_commit_done i d ≡ done d'
      → (u : SyncStatus) × (get_elem? d.sync_status (i + 1) ≡ some u)
        × (u.data_committed ≡ false)
        × (d' ≡ put_status (i + 1) d (record u { data_committed = false }))
  unfolding wait_next_commit_done
  wait_next-inv h = ground arith

  acquire-inv :
      acquire_committed i d ≡ done d'
      → (u : SyncStatus) × (get_elem? d.sync_status i ≡ some u)
        × (u.data_committed ≡ false)
        × (d' ≡ put_status i d (record u { data_committed = true }))
  unfolding acquire_committed
  acquire-inv h = ground arith

  -- The wait finds the lock of the task before free, and takes it.
  pub wait_prior-Changed :
      wait_prior_check_done (suc i) d ≡ done d'
      → (check_free d i ≡ true) × Changed d d' (update (check_free d) i false) (commit_free d)
  wait_prior-Changed h =
      let (u, at, free, e) = wait_prior-inv h in
      (
        ground (arith, entry d i u at, free),
        keeps_commit i (entry d i u at).1
            (put_status-Changed i d d' u (record u { spec_checked = true }) at e),
      )

  pub signal_check-Changed :
      (passed : Bool)
      → signal_check_done i passed d ≡ done d'
      → Changed d d' (update (check_free d) i true) (commit_free d)
  signal_check-Changed passed h =
      let (u, at, e) = signal_check-inv passed h in
      keeps_commit i (entry d i u at).1 (
        put_status-Changed i d d' u (record u { spec_correct = passed; spec_checked = false }) at e)

  pub signal_commit-Changed :
      signal_commit_done i d ≡ done d' → Changed d d' (check_free d) (update (commit_free d) i true)
  signal_commit-Changed h =
      let (u, at, e) = signal_commit-inv h in
      keeps_check i (entry d i u at).0
        (put_status-Changed i d d' u (record u { data_committed = false }) at e)

  -- The wait for the next task's commit leaves all locks as they are.
  pub wait_next-Changed :
      wait_next_commit_done i d ≡ done d'
      → (commit_free d (i + 1) ≡ true) × Changed d d' (check_free d) (commit_free d)
  wait_next-Changed h =
      let (u, at, free, e) = wait_next-inv h in
      (
        ground (arith, entry d (i + 1) u at, free),
        keeps_commit (i + 1) {b = true} (ground (arith, entry d (i + 1) u at, free)) (
            keeps_check (i + 1) (entry d (i + 1) u at).0
              (put_status-Changed (i + 1) d d' u (record u { data_committed = false }) at e)),
      )

  pub acquire-Changed :
      acquire_committed i d ≡ done d'
      → (commit_free d i ≡ true) × Changed d d' (check_free d) (update (commit_free d) i false)
  acquire-Changed h =
      let (u, at, free, e) = acquire-inv h in
      (
        ground (arith, entry d i u at, free),
        keeps_check i (entry d i u at).0
            (put_status-Changed i d d' u (record u { data_committed = true }) at e),
      )
