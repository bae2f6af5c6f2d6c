-- ===== src/Ppr/Tasks/Order/Moves.antt =====
-- A turn of a task, as the checks of the group see it.
use cbop.Prelude.{
  ℕ, zero, suc, ◌+◌, ◌≡◌, refl, ◌∙◌, ◌⊎◌, inl, inr, sym, ap, Bool-cases, ltb, Bool, true, false,
  List, [], ◌∷◌, ◌++◌, arith,
}
use cbop.Sync.{
  done, SyncData, wait_prior_check_done, signal_check_done, signal_commit_done,
  wait_next_commit_done, acquire_committed,
}
use cbop.Ppr.Tasks.{
  Lower, Place, Choice, Mark, Turn, turn, go, go_marked, go_failed, group_by, group_turn,
  check_turn,
}
use cbop.Ppr.Tasks.System.{update}
use cbop.Ppr.Tasks.Views.{
  bind-done, check_free, wait_prior-Changed, signal_check-Changed, signal_commit-Changed,
  wait_next-Changed, acquire-Changed,
}

-- The tasks whose checks are reported, the latest first.
abbrev pub checks_of : List Mark → List ℕ
checks_of [] = []
checks_of (Mark.check_reported i passed ∷ log) = i ∷ checks_of log
checks_of (m ∷ log) = checks_of log

-- The results of those checks.
abbrev pub results_of : List Mark → List Bool
results_of [] = []
results_of (Mark.check_reported i passed ∷ log) = passed ∷ results_of log
results_of (m ∷ log) = results_of log

pub results_of-append :
    (ms log : List Mark) → results_of (ms ++ log) ≡ results_of ms ++ results_of log
results_of-append [] log = refl
results_of-append (Mark.check_reported i b ∷ ms) log = ap (λ l. b ∷ l) (results_of-append ms log)
results_of-append (Mark.lowering i l ∷ ms) log = results_of-append ms log
results_of-append (Mark.data_committed i ∷ ms) log = results_of-append ms log
results_of-append (Mark.group_committed i ∷ ms) log = results_of-append ms log

-- The tasks before one, the latest first.
abbrev pub down : ℕ → List ℕ
down zero = []
down (suc n) = n ∷ down n

-- Where a task stands towards its check.
pub data Stage : Type 0 where
  early in_check late over : Stage

abbrev stage_of : Lower → Stage
stage_of Lower.behind = Stage.early
stage_of Lower.itself = Stage.over

abbrev pub stage : Place → Stage
stage Place.in_region = Stage.early
stage (Place.testing l) = stage_of l
stage (Place.locking l) = stage_of l
stage (Place.storing l) = stage_of l
stage Place.aborting = Stage.over
stage Place.waiting_check = Stage.early
stage Place.checking = Stage.in_check
stage (Place.reporting b) = Stage.in_check
stage Place.gone = Stage.over
stage Place.serial = Stage.over
stage p = Stage.late

-- Between the wait for the check before it and the report of its own.
abbrev pub is_checking : Place → Bool
is_checking Place.checking = true
is_checking (Place.reporting b) = true
is_checking p = false

-- What the ports answer at a choice.
abbrev pub passes : Choice → Bool
passes Choice.aborts = false
passes c = true

-- A turn that reports no check.
pub record IsSilent (r : Turn) : Type 0 where
  pub no_check : checks_of r.marks ≡ []
  pub no_result : results_of r.marks ≡ []

-- A turn, as the checks see it.
pub data CheckMove (c : Choice) (i : ℕ) (d : SyncData) (p : Place) (r : Turn) : Type 0 where
  quiet :
      ((j : ℕ) → check_free r.mem j ≡ check_free d j)
      → IsSilent r
      → (stage r.place ≡ stage p) ⊎ (stage r.place ≡ Stage.over)
      → is_checking p ≡ false
      → is_checking r.place ≡ false
      → CheckMove c i d p r
  enters_first :
      i ≡ 0
      → stage p ≡ Stage.early
      → r.place ≡ Place.checking
      → r.mem ≡ d
      → IsSilent r
      → CheckMove c i d p r
  enters :
      (q : ℕ)
      → i ≡ suc q
      → stage p ≡ Stage.early
      → r.place ≡ Place.checking
      → check_free d q ≡ true
      → ((j : ℕ) → check_free r.mem j ≡ update (check_free d) q false j)
      → IsSilent r
      → CheckMove c i d p r
  decides :
      p ≡ Place.checking
      → r.place ≡ Place.reporting (passes c)
      → ((j : ℕ) → check_free r.mem j ≡ check_free d j)
      → IsSilent r
      → CheckMove c i d p r
  reports :
      (b : Bool)
      → p ≡ Place.reporting b
      → (stage r.place ≡ Stage.late) ⊎ (stage r.place ≡ Stage.over)
      → is_checking r.place ≡ false
      → ((j : ℕ) → check_free r.mem j ≡ update (check_free d) i true j)
      → checks_of r.marks ≡ i ∷ []
      → results_of r.marks ≡ b ∷ []
      → CheckMove c i d p r

unchanged :
    (c : Choice) (i : ℕ) (d : SyncData) (p : Place) (r : Turn)
    → r.mem.sync_status ≡ d.sync_status
    → IsSilent r
    → (stage r.place ≡ stage p) ⊎ (stage r.place ≡ Stage.over)
    → is_checking p ≡ false
    → is_checking r.place ≡ false
    → CheckMove c i d p r
unfolding check_free
unchanged c i d p r e m s h k = quiet (λ j. ground (arith, e)) m s h k

checking-CheckMove :
    (c : Choice) (i : ℕ) (d : SyncData) (r : Turn)
    → check_turn c i d ≡ done r
    → CheckMove c i d Place.checking r
unfolding check_turn
checking-CheckMove c i d r h = decides refl (ground arith) (λ j. ground arith) (ground arith)

pub turn-CheckMove :
    (c : Choice) (i : ℕ) (d : SyncData) (p : Place) (r : Turn)
    → turn c i d p ≡ done r
    → CheckMove c i d p r
unfolding turn group_turn
turn-CheckMove c zero d Place.waiting_check r h =
    enters_first refl refl (ground arith) (ground arith) (ground arith)
turn-CheckMove c (suc q) d Place.waiting_check r h =
    let (d', e, g) = bind-done (wait_prior_check_done (suc q) d) (λ d'. go d' Place.checking) h in
    let (free, change) = wait_prior-Changed q d d' e in
    enters q refl refl (ground (arith, g)) free (λ j. ground (arith, g, change.check_is j))
      (ground (arith, g))
turn-CheckMove c i d (Place.reporting true) r h =
    let (d', e, g) =
      bind-done (signal_check_done i true d)
        (λ d'. go_marked (Mark.check_reported i true) d' Place.checked) h in
    reports true refl (ground (arith, g)) (ground (arith, g))
      (λ j. ground (arith, g, (signal_check-Changed i d d' true e).check_is j)) (ground (arith, g))
      (ground (arith, g))
turn-CheckMove c i d (Place.reporting false) r h =
    let (d', e, g) = bind-done (signal_check_done i false d) (go_failed i) h in
    reports false refl (ground (arith, g)) (ground (arith, g))
      (λ j. ground (arith, g, (signal_check-Changed i d d' false e).check_is j)) (ground (arith, g))
      (ground (arith, g))
turn-CheckMove c i d Place.aborting r h =
    let (d', e, g) = bind-done (signal_commit_done i d) (λ d'. go d' Place.gone) h in
    quiet (λ j. ground (arith, g, (signal_commit-Changed i d d' e).check_is j)) (ground (arith, g))
      (ground (arith, g)) refl (ground (arith, g))
turn-CheckMove c i d Place.signalling r h =
    let (d', e, g) = bind-done (signal_commit_done i d) (λ d'. go d' Place.waiting_next) h in
    quiet (λ j. ground (arith, g, (signal_commit-Changed i d d' e).check_is j)) (ground (arith, g))
      (ground (arith, g)) refl (ground (arith, g))
turn-CheckMove c i d Place.group_signalling r h =
    let (d', e, g) = bind-done (signal_commit_done i d) (λ d'. go d' Place.meeting) h in
    quiet (λ j. ground (arith, g, (signal_commit-Changed i d d' e).check_is j)) (ground (arith, g))
      (ground (arith, g)) refl (ground (arith, g))
turn-CheckMove c i d Place.waiting_next r h =
    let (d', e, g) = bind-done (wait_next_commit_done i d) (λ d'. go d' Place.deciding) h in
    quiet (λ j. ground (arith, g, (wait_next-Changed i d d' e).1.check_is j)) (ground (arith, g))
      (ground (arith, g)) refl (ground (arith, g))
turn-CheckMove c i d (Place.waiting_group k) r h = elim (Bool-cases (ltb (k + 1) d.partial_size)) [
  | inl more ↦
      let (d', e, g) =
        bind-done (acquire_committed k d) (λ d'. go d' (Place.waiting_group (k + 1)))
          (sym (ap (group_by k d) more) ∙ h) in
      quiet (λ j. ground (arith, g, (acquire-Changed k d d' e).1.check_is j)) (ground (arith, g))
        (ground (arith, g)) refl (ground (arith, g))
  | inr last ↦
      unchanged c i d (Place.waiting_group k) r (ground (arith, h, last)) (ground (arith, h, last))
        (ground (arith, h, last)) refl (ground (arith, h, last))
]
turn-CheckMove c i d Place.checking r h = checking-CheckMove c i d r h
turn-CheckMove c i d p r h =
    unchanged c i d p r (ground arith) (ground arith) (ground arith) (ground arith) (ground arith)
