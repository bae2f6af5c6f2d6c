-- ===== src/Ppr/Tasks/Calm/Turns.antt =====
-- A turn of a task in a calm run.
use cbop.Prelude.{
  ℕ, zero, suc, ◌+◌, ◌≤◌, ◌<◌, ◌≡◌, ◌∙◌, ◌⊎◌, inl, inr, sym, ap, true, false, List, ◌++◌, arith,
  ◌==◌, ltb, Bool-cases, ==_iff,
}
use cbop.Sync.{
  done, SyncData, signal_commit_done, wait_next_commit_done, acquire_committed,
  wait_prior_check_done, signal_check_done,
}
use cbop.Ppr.Tasks.{
  Place, Choice, Mark, Turn, turn, go, go_marked, go_failed, group_by, group_turn, prior_turn,
}
use cbop.Ppr.Tasks.Order.Moves.{checks_of, results_of}
use cbop.Ppr.Tasks.Views.{
  bind-done, commit_free, wait_prior-Changed, signal_check-Changed, signal_commit-Changed,
  wait_next-Changed, acquire-Changed,
}
use cbop.Ppr.Tasks.Calm.Marks.{
  is_calm, all_true, passed_of, committed, Earlier, At, committed-append, Earlier-append,
}

prior-free :
    (i : ℕ) (d : SyncData) (r : Turn)
    → prior_turn i d ≡ done r
    → (j : ℕ) → commit_free r.mem j ≡ commit_free d j
unfolding prior_turn commit_free
prior-free zero d r h j = ground arith
prior-free (suc q) d r h j =
    let (d', e, g) = bind-done (wait_prior_check_done (suc q) d) (λ d'. go d' Place.checking) h in
    ground (arith, g, (wait_prior-Changed q d d' e).1.commit_is j)

module _ (n : ℕ) (c : Choice) (i : ℕ) (d : SyncData) (log : List Mark)
    (size : d.partial_size ≡ n) where
  pub turn-size :
      (p : Place) (r : Turn) → turn c i d p ≡ done r → At n log i p → r.mem.partial_size ≡ n
  unfolding turn signal_commit_done wait_next_commit_done acquire_committed wait_prior_check_done
      signal_check_done
  turn-size p r h a = ground (arith, size)

  module _ (free : (j : ℕ) → j + 1 < n → commit_free d j ≡ true → committed log j ≡ true) where
    -- The turns that change no lock of a commit.
    same_free :
        (r : Turn)
        → ((j : ℕ) → commit_free r.mem j ≡ commit_free d j)
        → (j : ℕ) → j + 1 < n
        → commit_free r.mem j ≡ true
        → committed (r.marks ++ log) j ≡ true
    same_free r same j lt f = committed-append r.marks log j (free j lt (sym (same j) ∙ f))

    -- The turns that free the lock of the task.
    own_free :
        (r : Turn) (d' : SyncData)
        → signal_commit_done i d ≡ done d'
        → r.mem ≡ d'
        → (committed log i ≡ true) ⊎ (i + 1 ≡ n)
        → (j : ℕ) → j + 1 < n
        → commit_free r.mem j ≡ true
        → committed (r.marks ++ log) j ≡ true
    own_free r d' e m a j lt f =
        committed-append r.marks log j
          (ground (arith, m, f, free j lt, (signal_commit-Changed i d d' e).commit_is j))

    pub turn-free :
        (p : Place) (r : Turn)
        → turn c i d p ≡ done r
        → At n log i p
        → (j : ℕ) → j + 1 < n
        → commit_free r.mem j ≡ true
        → committed (r.marks ++ log) j ≡ true
    unfolding turn group_turn commit_free
    turn-free Place.waiting_check r h a = same_free r (prior-free i d r h)
    turn-free (Place.reporting true) r h a =
        let (d', e, g) =
          bind-done (signal_check_done i true d)
            (λ d'. go_marked (Mark.check_reported i true) d' Place.checked) h in
        same_free r (λ j. ground (arith, g, (signal_check-Changed i d d' true e).commit_is j))
    turn-free (Place.reporting false) r h a =
        let (d', e, g) = bind-done (signal_check_done i false d) (go_failed i) h in
        same_free r (λ j. ground (arith, g, (signal_check-Changed i d d' false e).commit_is j))
    turn-free Place.signalling r h a =
        let (d', e, g) = bind-done (signal_commit_done i d) (λ d'. go d' Place.waiting_next) h in
        own_free r d' e (ground (arith, g)) (inl a)
    turn-free Place.group_signalling r h a =
        let (d', e, g) = bind-done (signal_commit_done i d) (λ d'. go d' Place.meeting) h in
        own_free r d' e (ground (arith, g)) (inr a.0)
    turn-free Place.waiting_next r h a =
        let (d', e, g) = bind-done (wait_next_commit_done i d) (λ d'. go d' Place.deciding) h in
        same_free r (λ j. ground (arith, g, (wait_next-Changed i d d' e).1.commit_is j))
    turn-free (Place.waiting_group k) r h a = elim (Bool-cases (ltb (k + 1) d.partial_size)) [
      | inl more ↦
          let (d', e, g) =
            bind-done (acquire_committed k d) (λ d'. go d' (Place.waiting_group (k + 1)))
              (sym (ap (group_by k d) more) ∙ h) in
          λ j lt f.
            committed-append r.marks log j
              (free j lt (ground (arith, g, f, (acquire-Changed k d d' e).1.commit_is j)))
      | inr last ↦ same_free r (λ j. ground (arith, h, last))
    ]
    turn-free p r h a = same_free r (λ j. ground arith)

    Earlier-next :
        (k : ℕ) → (k + 1 < n → committed log k ≡ true) → Earlier n log k → Earlier n log (k + 1)
    Earlier-next k here before j lt e = elim (Bool-cases (j == k)) [
      | inl same ↦ let m = (==_iff j k).0 same in rw m (here (omega (arith, m, e)))
      | inr other ↦ before j (ground (arith, lt, other)) e
    ]

    Earlier-all : (k : ℕ) → n ≤ k + 1 → Earlier n log k → Earlier n log n
    Earlier-all k le before j lt e = before j (omega (arith, le, e)) e

    pub turn-At :
        (p : Place) (r : Turn)
        → turn c i d p ≡ done r
        → is_calm (r.marks ++ log) ≡ true
        → At n log i p
        → At n (r.marks ++ log) i r.place
    unfolding turn group_turn signal_commit_done wait_next_commit_done wait_prior_check_done
        signal_check_done
    turn-At Place.group_committing r h calm a =
        ground (arith, h, a.0, Earlier-append n r.marks log n a.1)
    turn-At (Place.waiting_group k) r h calm a = elim (Bool-cases (ltb (k + 1) d.partial_size)) [
      | inl more ↦
          let (d', e, g) =
            bind-done (acquire_committed k d) (λ d'. go d' (Place.waiting_group (k + 1)))
              (sym (ap (group_by k d) more) ∙ h) in
          let now = Earlier-next k (λ lt. free k lt (acquire-Changed k d d' e).0) a.1 in
          ground (arith, g, now, a.0)
      | inr last ↦
          let all = Earlier-all k (ground (arith, last, size)) a.1 in
          ground (arith, h, last, all, a.0)
    ]
    turn-At p r h calm a = ground (arith, size)

-- Every check that was reported has passed.
pub turn-passed :
    (c : Choice) (i : ℕ) (d : SyncData) (p : Place) (r : Turn)
    → turn c i d p ≡ done r
    → is_calm r.marks ≡ true
    → passed_of r.marks ≡ checks_of r.marks
unfolding turn signal_commit_done wait_next_commit_done wait_prior_check_done signal_check_done
    acquire_committed
turn-passed c i d p r h calm = ground arith

pub turn-true :
    (c : Choice) (i : ℕ) (d : SyncData) (p : Place) (r : Turn)
    → turn c i d p ≡ done r
    → is_calm r.marks ≡ true
    → all_true (results_of r.marks) ≡ true
unfolding turn signal_commit_done wait_next_commit_done wait_prior_check_done signal_check_done
    acquire_committed
turn-true c i d p r h calm = ground arith
