-- ===== src/Ppr/Tasks/Order.antt =====
-- The checks of a group: one task at a time, in the order of the tasks, whatever the steps.
pub mod Moves
use cbop.Ppr.Tasks.Order.Moves.{
  checks_of, down, is_checking, Stage, stage, IsSilent, quiet, enters_first, enters, decides,
  reports, turn-CheckMove,
}
use cbop.Prelude.{
  ℕ, zero, suc, ◌+◌, ◌≤◌, ◌<◌, ◌≡◌, ◌≢◌, refl, ◌∙◌, ◌⊎◌, inl, inr, sym, ap, Bool-cases, ltb, Bool,
  true, false, List, [], ◌∷◌, ◌++◌, arith, length, ◌==◌, if◌then◌else◌,
}
use cbop.Sync.{
  done, SyncData, wait_prior_check_done, signal_check_done, signal_commit_done,
  wait_next_commit_done, acquire_committed,
}
use cbop.Sync.Laws.{IsReady}
use cbop.Ppr.Tasks.{
  Lower, Place, Choice, Mark, check_reported, Turn, turn, go, go_marked, go_failed, group_by,
  group_turn,
}
use cbop.Ppr.Tasks.System.{
  update, update-all, System, Step, task, signal, understudy, fork_fails, Reach, start, later,
  start_of, UserSignal, interrupted, UndyEvent, Understudy, UndyTurn, undy_turn,
}
use cbop.Ppr.Tasks.Views.{
  bind-done, check_free, Changed, wait_prior-Changed, signal_check-Changed, signal_commit-Changed,
  wait_next-Changed, acquire-Changed,
}

pub checks_of-append : (ms log : List Mark) → checks_of (ms ++ log) ≡ checks_of ms ++ checks_of log
checks_of-append [] log = refl
checks_of-append (Mark.check_reported i b ∷ ms) log = ap (λ l. i ∷ l) (checks_of-append ms log)
checks_of-append (Mark.lowering i l ∷ ms) log = checks_of-append ms log
checks_of-append (Mark.data_committed i ∷ ms) log = checks_of-append ms log
checks_of-append (Mark.group_committed i ∷ ms) log = checks_of-append ms log

-- What the stage of a task says where `k` checks are reported.
abbrev pub At : ℕ → ℕ → SyncData → ℕ → Stage → Type 0
At n k d i Stage.early = k ≤ i
At n k d i Stage.in_check = (i ≡ k) × ((j : ℕ) → j < n → check_free d j ≡ false)
At n k d i Stage.late = i < k
At n k d i Stage.over = Unit

-- The first `k` tasks have reported, and no lock is free but that of the last one of them.
pub record Inv (n k : ℕ) (d : SyncData) (place : ℕ → Place) (log : List Mark) : Type 0 where
  pub order : checks_of log ≡ down k
  pub most : k ≤ n
  pub at : (i : ℕ) → At n k d i (stage (place i))
  pub free : (j : ℕ) → j < n → check_free d j ≡ true → j + 1 ≡ k

At-same :
    (n k : ℕ) (d d' : SyncData) (i : ℕ) (s : Stage)
    → ((j : ℕ) → check_free d' j ≡ check_free d j)
    → At n k d i s
    → At n k d' i s
At-same n k d d' i Stage.early same a = a
At-same n k d d' i Stage.in_check same a = (a.0, λ j lt. same j ∙ a.1 j lt)
At-same n k d d' i Stage.late same a = a
At-same n k d d' i Stage.over same a = tt

pub At-stage :
    {n k : ℕ} {d : SyncData} {place : ℕ → Place} {log : List Mark}
    → Inv n k d place log
    → (m : ℕ) (s : Stage) → stage (place m) ≡ s
    → At n k d m s
At-stage inv m s e = rw (sym e) (inv.at m)

module _ {n k : ℕ} (i : ℕ) {d : SyncData} {place : ℕ → Place} {log : List Mark}
    (inv : Inv n k d place log) (r : Turn) where
  quiet-Inv :
      ((j : ℕ) → check_free r.mem j ≡ check_free d j)
      → checks_of r.marks ≡ []
      → (stage r.place ≡ stage (place i)) ⊎ (stage r.place ≡ Stage.over)
      → Inv n k r.mem (update place i r.place) (r.marks ++ log)
  quiet-Inv same none_new kept = record {
    most = inv.most;
    order = ground (arith, checks_of-append r.marks log, inv.order, none_new);
    at =
        update-all (λ j p. At n k r.mem j (stage p)) place i r.place
          (elim kept [
            | inl e ↦ rw e (At-same n k d r.mem i (stage (place i)) same (inv.at i))
            | inr e ↦ rw e tt
          ])
          (λ j other. At-same n k d r.mem j (stage (place j)) same (inv.at j));
    free = λ j lt h. inv.free j lt (sym (same j) ∙ h);
  }

  -- Where the check of task `k` may begin, no other task is in its own.
  not_in_check :
      (j : ℕ) → j < n → check_free d j ≡ true → (m : ℕ) → stage (place m) ≢ Stage.in_check
  not_in_check j lt free m e = ground (arith, (At-stage inv m Stage.in_check e).1 j lt, free)

  At-entered :
      (d' : SyncData) (m : ℕ) (s : Stage) → s ≢ Stage.in_check → At n k d m s → At n k d' m s
  At-entered d' m Stage.early e a = a
  At-entered d' m Stage.in_check e a = absurd (e refl)
  At-entered d' m Stage.late e a = a
  At-entered d' m Stage.over e a = tt

  enters_first-Inv :
      i ≡ 0
      → stage (place i) ≡ Stage.early
      → stage r.place ≡ Stage.in_check
      → r.mem ≡ d
      → checks_of r.marks ≡ []
      → Inv n k r.mem (update place i r.place) (r.marks ++ log)
  enters_first-Inv first was now same none_new =
      let none_yet : k ≤ i = At-stage inv i Stage.early was in
      record {
        most = inv.most;
        order = ground (arith, checks_of-append r.marks log, inv.order, none_new);
        at =
            update-all (λ j p. At n k r.mem j (stage p)) place i r.place
              (rw now (ground arith, λ j lt. ground (arith, inv.free j lt)))
              (λ j other.
                At-entered r.mem j (stage (place j))
                  (λ e. ground (arith, other, (At-stage inv j Stage.in_check e).0)) (inv.at j));
        free = λ j lt h. inv.free j lt (ground arith);
      }

  enters-Inv :
      (q : ℕ)
      → q < n
      → i ≡ suc q
      → stage r.place ≡ Stage.in_check
      → check_free d q ≡ true
      → ((j : ℕ) → check_free r.mem j ≡ update (check_free d) q false j)
      → checks_of r.marks ≡ []
      → Inv n k r.mem (update place i r.place) (r.marks ++ log)
  enters-Inv q small next now free taken none_new = record {
    most = inv.most;
    order = ground (arith, checks_of-append r.marks log, inv.order, none_new);
    at =
        update-all (λ j p. At n k r.mem j (stage p)) place i r.place
          (rw now (
            ground (arith, inv.free q small free),
            λ j lt. ground (arith, taken j, inv.free j lt, inv.free q small free),
          ))
          (λ j other.
            At-entered r.mem j (stage (place j)) (not_in_check q small free j) (inv.at j));
    free = λ j lt h. ground (arith, taken j, inv.free j lt, h);
  }

  At-reported :
      (d' : SyncData) → i ≡ k → (m : ℕ) → i ≢ m → (s : Stage) → At n k d m s → At n (suc k) d' m s
  At-reported d' e m other Stage.early a = ground (arith, other)
  At-reported d' e m other Stage.in_check a = absurd (other (e ∙ sym a.0))
  At-reported d' e m other Stage.late a = omega arith
  At-reported d' e m other Stage.over a = tt

  reports-Inv :
      i < n
      → stage (place i) ≡ Stage.in_check
      → (stage r.place ≡ Stage.late) ⊎ (stage r.place ≡ Stage.over)
      → ((j : ℕ) → check_free r.mem j ≡ update (check_free d) i true j)
      → checks_of r.marks ≡ i ∷ []
      → Inv n (suc k) r.mem (update place i r.place) (r.marks ++ log)
  reports-Inv small was now freed new =
      let (mine, held) = At-stage inv i Stage.in_check was in
      record {
        most = omega (arith, mine, small);
        order = ground (arith, checks_of-append r.marks log, inv.order, new, mine);
        at =
            update-all (λ j p. At n (suc k) r.mem j (stage p)) place i r.place
              (elim now [ inl e ↦ rw e (omega arith) | inr e ↦ rw e tt ])
              (λ j other. At-reported r.mem mine j other (stage (place j)) (inv.at j));
        free = λ j lt h. ground (arith, freed j, held j lt, mine, h);
      }

pub interrupted-stage :
    (sg : UserSignal) (i : ℕ) (d : SyncData) (p : Place)
    → (stage (interrupted sg i d p) ≡ stage p) ⊎ (stage (interrupted sg i d p) ≡ Stage.over)
unfolding interrupted
interrupted-stage sg i d p = ground arith

pub understudy-free :
    (e : UndyEvent) (d : SyncData) (u : Understudy) (r : UndyTurn)
    → undy_turn e d u ≡ done r
    → (j : ℕ) → check_free r.mem j ≡ check_free d j
unfolding undy_turn check_free
understudy-free e d u r h j = ground arith

pub Step-Inv :
    {n k : ℕ} {s t : System}
    → Step n s t
    → Inv n k s.mem s.place s.log
    → (m : ℕ) × Inv n m t.mem t.place t.log
Step-Inv {k} {s} (task i c {r} h e) inv = elim (turn-CheckMove c i s.mem (s.place i) r e) [
  | quiet same silent kept off off' ↦ (k, quiet-Inv i inv r same silent.no_check kept)
  | enters_first first was now same silent ↦
      (k, enters_first-Inv i inv r first was (ap stage now) same silent.no_check)
  | enters q next was now free taken silent ↦
      (k, enters-Inv i inv r q (omega arith) next (ap stage now) free taken silent.no_check)
  | decides was now same silent ↦
      (k, quiet-Inv i inv r same silent.no_check (inl (ap stage now ∙ sym (ap stage was))))
  | reports b was now off freed new result ↦
      (suc k, reports-Inv i inv r h (ap stage was) now freed new)
]
Step-Inv {k} {s} (signal i sg h) inv =
    let p = interrupted sg i s.mem (s.place i) in
    (
      k,
      quiet-Inv i inv (record { mem = s.mem; place = p; marks = [] }) (λ j. refl) refl
          (interrupted-stage sg i s.mem (s.place i)),
    )
Step-Inv {k} {s} (fork_fails u lt p) inv = (
  k,
  quiet-Inv 0 inv (record { mem = s.mem; place = Place.serial; marks = [] }) (λ j. refl) refl
      (inr refl),
)
Step-Inv {n} {k} {s} (understudy e {r} h) inv =
    let same = understudy-free e s.mem s.undy r h in
    (
      k,
      record {
        most = inv.most;
        order = inv.order;
        at = λ i. At-same n k s.mem r.mem i (stage (s.place i)) same (inv.at i);
        free = λ j lt f. inv.free j lt (sym (same j) ∙ f);
      },
    )

pub start_held : (n : ℕ) (d : SyncData) → IsReady n d → (j : ℕ) → j < n → check_free d j ≡ false
unfolding check_free
start_held n d ready j lt = let (u, at, held, c) = ready.held j lt in ground (arith, at, held)

pub Reach-Inv :
    {n : ℕ} {d : SyncData} {s : System} → Reach n d s → (k : ℕ) × Inv n k s.mem s.place s.log
Reach-Inv {n} {d} (start ready) = (
  0,
  record {
    most = omega arith;
    order = refl;
    at = λ i. omega arith;
    free = λ j lt h. ground (arith, start_held n d ready j lt, h);
  },
)
Reach-Inv (later r st) = Step-Inv st (Reach-Inv r).1

length-down : (k : ℕ) → length (down k) ≡ k
length-down zero = refl
length-down (suc k) = omega (arith, length-down k)

pub down-injective : (j k : ℕ) → down j ≡ down k → j ≡ k
down-injective j k e = sym (length-down j) ∙ ap length e ∙ length-down k

-- The log tells how many checks are reported.
pub Inv-count :
    {n m k : ℕ} {d : SyncData} {place : ℕ → Place} {log : List Mark}
    → Inv n m d place log
    → checks_of log ≡ down k
    → Inv n k d place log
Inv-count {n} {m} {k} {d} {place} {log} inv e = rw (down-injective k m (sym e ∙ inv.order)) inv

-- A task that commits the group has reported its check.
pub Reach-reported :
    {n : ℕ} {d : SyncData} {s : System}
    → Reach n d s
    → (i : ℕ) → s.place i ≡ Place.group_committing
    → (k : ℕ) × (checks_of s.log ≡ down k) × (i < k) × (k ≤ n)
Reach-reported r i e =
    let (k, inv) = Reach-Inv r in (k, inv.order, At-stage inv i Stage.late (ap stage e), inv.most)

checking-stage : (p : Place) → is_checking p ≡ true → stage p ≡ Stage.in_check
checking-stage p c = ground arith

pub checking_next :
    {n k : ℕ} {d : SyncData} {place : ℕ → Place} {log : List Mark}
    → Inv n k d place log
    → (i : ℕ) → is_checking (place i) ≡ true
    → i ≡ k
checking_next {place} inv i c = (At-stage inv i Stage.in_check (checking-stage (place i) c)).0

-- When a task is in its check, exactly the tasks before it have reported their checks, each once and in
-- their order, and a task that is in its check at the same time is the same task; in every state that a
-- group can reach, with tasks that abort, signals and the understudy at any time.
pub Reach-check :
    {n : ℕ} {d : SyncData} {s : System}
    → Reach n d s
    → (i j : ℕ) → is_checking (s.place i) ≡ true
    → is_checking (s.place j) ≡ true
    → (checks_of s.log ≡ down i) × (i ≡ j)
Reach-check {s} r i j c c' =
    let (k, inv) = Reach-Inv r in
    let mine = checking_next inv i c in (rw mine inv.order, mine ∙ sym (checking_next inv j c'))
