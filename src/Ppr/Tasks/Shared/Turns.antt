-- ===== src/Ppr/Tasks/Shared/Turns.antt =====
-- A turn of a task, and what is known of the shared data.
use cbop.Prelude.{
  ℕ, suc, ◌<◌, ◌≡◌, ◌≢◌, refl, ◌∙◌, inl, inr, sym, ap, Bool-cases, Bool, true, false, [], ◌∷◌, ◌++◌,
  arith,
}
use cbop.Sync.{done}
use cbop.Ppr.Tasks.{Place, Choice, Turn, turn}
use cbop.Ppr.Tasks.System.{update, update-all, System, task}
use cbop.Ppr.Tasks.Views.{check_free}
use cbop.Ppr.Tasks.Order.Moves.{
  checks_of, results_of, results_of-append, down, is_checking, passes, Stage, stage,
}
use cbop.Ppr.Tasks.Order
use cbop.Ppr.Tasks.Order.{
  Inv-count, Reach-Inv, down-injective, checking_next, Step-Inv, At-stage, checks_of-append,
  understudy-free, start_held, interrupted-stage,
}
use cbop.Ppr.Tasks.Shared.Runs.{after_checks, verdicts, AgreesAt}

module _ {A : Type 0} (check : ℕ → A → Bool × A) (a0 : A) where
  -- What a task in its check says of the shared data, where `k` checks are reported.
  abbrev pub Pending : ℕ → A → Place → Type 0
  Pending k a Place.checking = a ≡ after_checks check a0 k
  Pending k a (Place.reporting b) =
      (a ≡ after_checks check a0 (suc k)) × (b ≡ (check k (after_checks check a0 k)).0)
  Pending k a p = Unit

  pub record Inv (n k : ℕ) (s : System) (a : A) : Type 0 where
    pub base : Order.Inv n k s.mem s.place s.log
    pub at : (i : ℕ) → Pending k a (s.place i)
    pub free : (j : ℕ) → j < n → check_free s.mem j ≡ true → a ≡ after_checks check a0 k
    pub first : k ≡ 0 → stage (s.place 0) ≡ Stage.early → a ≡ a0
    pub all : k ≡ n → a ≡ after_checks check a0 n
    pub results : results_of s.log ≡ verdicts check a0 k

  pub Pending-off : (k : ℕ) (a : A) (p : Place) → is_checking p ≡ false → Pending k a p
  Pending-off k a p off = ground (arith, off)

  -- The data stay, and a turn that is not of a check leaves the state as it is.
  pub AgreesAt-off :
      (p : Place) (c : Choice) (i : ℕ) (a b : A)
      → p ≢ Place.checking
      → AgreesAt check a0 p c i a b
      → b ≡ a
  AgreesAt-off Place.checking c i a b off agrees = absurd (off refl)
  AgreesAt-off p c i a b off agrees = ground (arith, agrees)

  pub AgreesAt-on :
      (p : Place) (c : Choice) (i : ℕ) (a b : A)
      → p ≡ Place.checking
      → AgreesAt check a0 p c i a b
      → (passes c ≡ (check i a).0) × (b ≡ (check i a).1)
  AgreesAt-on p c i a b on agrees = ground (arith, on, agrees)

  Pending-checking :
      (k : ℕ) (a : A) (p : Place) → p ≡ Place.checking → Pending k a p → a ≡ after_checks check a0 k
  Pending-checking k a p on pending = ground (arith, on, pending)

  Pending-reporting :
      (k : ℕ) (a : A) (p : Place) (b : Bool)
      → p ≡ Place.reporting b
      → Pending k a p
      → (a ≡ after_checks check a0 (suc k)) × (b ≡ (check k (after_checks check a0 k)).0)
  Pending-reporting k a p b on pending = ground (arith, on, pending)

  abbrev pub next : System → ℕ → Turn → System
  next s i r = record s { mem = r.mem; place = update s.place i r.place; log = r.marks ++ s.log }

  module _ {n k : ℕ} {s : System} {a : A} (inv : Inv n k s a) (i : ℕ) (c : Choice) (r : Turn)
      (lt : i < n) (h : turn c i s.mem (s.place i) ≡ done r) where
    base_next :
        (m : ℕ)
        → checks_of (r.marks ++ s.log) ≡ down m
        → Order.Inv n m r.mem (update s.place i r.place) (r.marks ++ s.log)
    base_next m e = Inv-count (Step-Inv {s = s} (task i c lt h) inv.base).1 e

    -- While a task is in its check, no other one is.
    others_off : is_checking (s.place i) ≡ true → (j : ℕ) → i ≢ j → is_checking (s.place j) ≡ false
    others_off on j other = elim (Bool-cases (is_checking (s.place j))) [
      | inl on' ↦ absurd (other (checking_next inv.base i on ∙ sym (checking_next inv.base j on')))
      | inr off ↦ off
    ]

    pub silent-Inv :
        Pending k a r.place
        → checks_of r.marks ≡ []
        → results_of r.marks ≡ []
        → ((j : ℕ) → j < n → check_free r.mem j ≡ true → check_free s.mem j ≡ true)
        → (stage r.place ≡ Stage.early → stage (s.place i) ≡ Stage.early)
        → Inv n k (next s i r) a
    silent-Inv pending no_check no_result free early = record {
      base = base_next k (ground (arith, checks_of-append r.marks s.log, inv.base.order, no_check));
      at = update-all (λ j p. Pending k a p) s.place i r.place pending (λ j other. inv.at j);
      free = λ j lt f. inv.free j lt (free j lt f);
      first = λ z e. inv.first z (
          update-all (λ j p. stage p ≡ Stage.early → stage (s.place j) ≡ Stage.early) s.place i
            r.place early (λ j other e. e) 0 e);
      all = inv.all;
      results = ground (arith, results_of-append r.marks s.log, inv.results, no_result);
    }

    pub decides-Inv :
        (b : A)
        → s.place i ≡ Place.checking
        → r.place ≡ Place.reporting (passes c)
        → ((j : ℕ) → check_free r.mem j ≡ check_free s.mem j)
        → checks_of r.marks ≡ []
        → results_of r.marks ≡ []
        → (passes c ≡ (check i a).0) × (b ≡ (check i a).1)
        → Inv n k (next s i r) b
    decides-Inv b was now same no_check no_result agrees = record {
      base = base_next k (ground (arith, checks_of-append r.marks s.log, inv.base.order, no_check));
      at =
          update-all (λ j p. Pending k b p) s.place i r.place (rw now (left, answer))
            (λ j other. Pending-off k b (s.place j) (others_off on j other));
      free = λ j low f. absurd (ground (arith, same j, f, held j low));
      first = λ z e. absurd (not_early 0 e (mine ∙ z));
      all = λ e. absurd (omega (arith, e, mine, lt));
      results = ground (arith, results_of-append r.marks s.log, inv.results, no_result);
    }
      where
        on : is_checking (s.place i) ≡ true
        on = ap is_checking was

        mine : i ≡ k
        mine = checking_next inv.base i on

        held : (j : ℕ) → j < n → check_free s.mem j ≡ false
        held = (At-stage inv.base i Stage.in_check (ap stage was)).1

        start : a ≡ after_checks check a0 k
        start = Pending-checking k a (s.place i) was (inv.at i)

        left : b ≡ (check k (after_checks check a0 k)).1
        left = agrees.1 ∙ ap (λ m. (check m a).1) mine ∙ ap (λ x. (check k x).1) start

        answer : passes c ≡ (check k (after_checks check a0 k)).0
        answer = agrees.0 ∙ ap (λ m. (check m a).0) mine ∙ ap (λ x. (check k x).0) start

        not_early : (j : ℕ) → stage (update s.place i r.place j) ≡ Stage.early → i ≢ j
        not_early =
            update-all (λ j p. stage p ≡ Stage.early → i ≢ j) s.place i r.place
              (λ e. absurd (ground (arith, now, e))) (λ j other e. other)

    pub reports-Inv :
        (b : Bool)
        → s.place i ≡ Place.reporting b
        → is_checking r.place ≡ false
        → checks_of r.marks ≡ i ∷ []
        → results_of r.marks ≡ b ∷ []
        → Inv n (suc k) (next s i r) a
    reports-Inv b was off new result = record {
      base =
          base_next (suc k)
            (ground (arith, checks_of-append r.marks s.log, inv.base.order, new, mine));
      at =
          update-all (λ j p. Pending (suc k) a p) s.place i r.place
            (Pending-off (suc k) a r.place off)
            (λ j other. Pending-off (suc k) a (s.place j) (others_off on j other));
      free = λ j low f. (pending).0;
      first = λ z e. absurd (omega (arith, z));
      all = λ e. rw (sym e) pending.0;
      results = ground (arith, results_of-append r.marks s.log, inv.results, result, pending.1);
    }
      where
        on : is_checking (s.place i) ≡ true
        on = ap is_checking was

        mine : i ≡ k
        mine = checking_next inv.base i on

        pending : (a ≡ after_checks check a0 (suc k)) × (b ≡ (check k (after_checks check a0 k)).0)
        pending = Pending-reporting k a (s.place i) b was (inv.at i)
