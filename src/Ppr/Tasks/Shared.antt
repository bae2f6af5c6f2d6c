-- ===== src/Ppr/Tasks/Shared.antt =====
-- What the checks of a group do to data that all its tasks share, against the same checks one after the
-- other.
mod Runs
mod Turns
pub use Runs.*
use Turns.{
  Pending, Inv, Pending-off, AgreesAt-off, AgreesAt-on, silent-Inv, decides-Inv, reports-Inv, next,
}
use cbop.Prelude.{
  ℕ, zero, suc, ◌+◌, ◌≤◌, ◌<◌, ◌≡◌, ◌≢◌, refl, ◌∙◌, inl, inr, sym, ap, Bool-cases, Bool, true,
  false, List, [], ◌∷◌, ◌++◌, arith, ◌==◌, if◌then◌else◌,
}
use cbop.Sync.{done, SyncData}
use cbop.Sync.Laws.{IsReady}
use cbop.Ppr.Tasks.{Place, Choice, Mark, Turn, turn}
use cbop.Ppr.Tasks.System.{
  update, update-all, System, Step, task, signal, understudy, Reach, start, later, start_of,
  interrupted, UserSignal, UndyEvent, UndyTurn, undy_turn, fork_fails, Understudy,
}
use cbop.Ppr.Tasks.Views.{check_free}
use cbop.Ppr.Tasks.Order.Moves.{
  checks_of, results_of, results_of-append, down, is_checking, passes, Stage, stage, quiet,
  enters_first, enters, decides, reports, turn-CheckMove,
}
use cbop.Ppr.Tasks.Order
use cbop.Ppr.Tasks.Order.{
  Inv-count, Reach-Inv, down-injective, checking_next, Step-Inv, At-stage, checks_of-append,
  understudy-free, start_held, interrupted-stage,
}

module _ {A : Type 0} (check : ℕ → A → Bool × A) (a0 : A) where
  -- A task that is not at its check leaves the shared data.
  kept_data :
      (s : System) (i : ℕ) (c : Choice) (a b : A)
      → stage (s.place i) ≢ Stage.in_check
      → AgreesAt check a0 (s.place i) c i a b
      → b ≡ a
  kept_data s i c a b off agrees =
      AgreesAt-off check a0 (s.place i) c i a b (λ e. off (ap stage e)) agrees

  first_data :
      {n k : ℕ} {s : System} {a : A}
      → Inv check a0 n k s a
      → (i : ℕ) → i ≡ 0
      → stage (s.place i) ≡ Stage.early
      → a ≡ after_checks check a0 k
  first_data {k} {s} inv i e was =
      inv.first none (ap (λ m. stage (s.place m)) (sym e) ∙ was)
      ∙ ap (after_checks check a0) (sym none)
    where
      low : k ≤ i
      low = At-stage inv.base i Stage.early was

      none : k ≡ 0
      none = omega (arith, low, e)

  interrupted-Pending :
      (k : ℕ) (a : A) (sg : UserSignal) (i : ℕ) (d : SyncData) (p : Place)
      → Pending check a0 k a p
      → Pending check a0 k a (interrupted sg i d p)
  unfolding interrupted
  interrupted-Pending k a sg i d p pending = ground (arith, pending)

  signal-Inv :
      {n k : ℕ} {s : System} {a : A}
      → Inv check a0 n k s a
      → (i : ℕ) (sg : UserSignal) → i < n
      → Inv check a0 n k
          (record s { place = update s.place i (interrupted sg i s.mem (s.place i)) })
          a
  signal-Inv {k = k} {s = s} {a = a} inv i sg lt = record {
    base = Inv-count (Step-Inv {s = s} (signal i sg lt) inv.base).1 inv.base.order;
    at =
        update-all (λ j p. Pending check a0 k a p) s.place i (interrupted sg i s.mem (s.place i))
          (interrupted-Pending k a sg i s.mem (s.place i) (inv.at i)) (λ j other. inv.at j);
    free = inv.free;
    first = λ z e. inv.first z (
        update-all (λ j p. stage p ≡ Stage.early → stage (s.place j) ≡ Stage.early) s.place i
          (interrupted sg i s.mem (s.place i))
          (λ e. ground (arith, e, interrupted-stage sg i s.mem (s.place i))) (λ j other e. e) 0 e);
    all = inv.all;
    results = inv.results;
  }

  understudy-Inv :
      {n k : ℕ} {s : System} {a : A}
      → Inv check a0 n k s a
      → (e : UndyEvent) {r : UndyTurn} → undy_turn e s.mem s.undy ≡ done r
      → Inv check a0 n k (record s { mem = r.mem; undy = r.undy }) a
  understudy-Inv {s} inv e {r} h = record {
    base = Inv-count (Step-Inv {s = s} (understudy e h) inv.base).1 inv.base.order;
    at = inv.at;
    free = λ j low f. inv.free j low (sym (understudy-free e s.mem s.undy r h j) ∙ f);
    first = inv.first;
    all = inv.all;
    results = inv.results;
  }

  fork_fails-Inv :
      {n k : ℕ} {s : System} {a : A}
      → Inv check a0 n k s a
      → (u : s.undy ≡ Understudy.unborn) (lt : 0 < n) (p : s.place 0 ≡ Place.in_region)
      → Inv check a0 n k
          (record s { place = update s.place 0 Place.serial; undy = Understudy.unforked })
          a
  fork_fails-Inv {k = k} {s = s} {a = a} inv u lt p = record {
    base = Inv-count (Step-Inv {s = s} (fork_fails u lt p) inv.base).1 inv.base.order;
    at = update-all (λ j q. Pending check a0 k a q) s.place 0 Place.serial tt (λ j other. inv.at j);
    free = inv.free;
    first = λ z e. ground (arith, e);
    all = inv.all;
    results = inv.results;
  }

  Step-Shared :
      {n k : ℕ} {s t : System} {a b : A}
      → (st : Step n s t) → Agrees check a0 st a b
      → Inv check a0 n k s a
      → (m : ℕ) × Inv check a0 n m t b
  Step-Shared {n} {k} {s} {a = a} {b = b} (task i c {r} lt h) agrees inv =
      elim (turn-CheckMove c i s.mem (s.place i) r h) [
        | quiet same silent kept off off' ↦ (
          k,
          rw (AgreesAt-off check a0 (s.place i) c i a b (λ e. ground (arith, e, off)) agrees) (
              silent-Inv check a0 inv i c r lt h (Pending-off check a0 k a r.place off')
                silent.no_check silent.no_result (λ j low f. sym (same j) ∙ f)
                (λ e. ground (arith, kept, e))),
        )
        | enters_first first was now same silent ↦ (
          k,
          rw (kept_data s i c a b (λ e. ground (arith, e, was)) agrees) (
              silent-Inv check a0 inv i c r lt h (rw now (first_data inv i first was))
                silent.no_check silent.no_result
                (λ j low f. ap (λ d. check_free d j) (sym same) ∙ f) (λ e. was)),
        )
        | enters q link was now free taken silent ↦ (
          k,
          rw (kept_data s i c a b (λ e. ground (arith, e, was)) agrees) (
              silent-Inv check a0 inv i c r lt h
                (rw now (inv.free q (omega (arith, link, lt)) free)) silent.no_check
                silent.no_result (λ j low f. ground (arith, taken j, f)) (λ e. was)),
        )
        | decides was now same silent ↦ (
          k,
          decides-Inv check a0 inv i c r lt h b was now same silent.no_check silent.no_result
              (AgreesAt-on check a0 (s.place i) c i a b was agrees),
        )
        | reports passed was now off freed new result ↦ (
          suc k,
          rw (AgreesAt-off check a0 (s.place i) c i a b (λ e. ground (arith, e, was)) agrees)
              (reports-Inv check a0 inv i c r lt h passed was off new result),
        )
      ]
  Step-Shared {k} (signal i sg lt) agrees inv = (k, rw agrees (signal-Inv inv i sg lt))
  Step-Shared {k} (fork_fails u lt p) agrees inv = (k, rw agrees (fork_fails-Inv inv u lt p))
  Step-Shared {k} (understudy e h) agrees inv = (k, rw agrees (understudy-Inv inv e h))

  Run-Inv :
      {n : ℕ} {d : SyncData} {s : System} {a : A}
      → Run check a0 n d s a
      → (k : ℕ) × Inv check a0 n k s a
  Run-Inv {n} {d} (begins ready) = (
    0,
    record {
      base = Inv-count (Reach-Inv (start ready)).1 refl;
      at = λ i. tt;
      free = λ j low f. refl;
      first = λ z e. refl;
      all = λ e. ap (after_checks check a0) e;
      results = refl;
    },
  )
  Run-Inv (goes_on r st agrees) = Step-Shared st agrees (Run-Inv r).1

  -- Whatever the order of the steps, and wherever tasks and understudy are, the checks that are reported
  -- are those of the first tasks, in their order, and their results are those of the same checks one
  -- after the other.
  pub Run-results :
      {n : ℕ} {d : SyncData} {s : System} {a : A}
      → Run check a0 n d s a
      → (k : ℕ) × (checks_of s.log ≡ down k) × (results_of s.log ≡ verdicts check a0 k) × (k ≤ n)
  Run-results run = let (k, inv) = Run-Inv run in (k, inv.base.order, inv.results, inv.base.most)

  -- When all tasks have reported, the shared data are as the checks one after the other leave them.
  pub Run-data :
      {n : ℕ} {d : SyncData} {s : System} {a : A}
      → Run check a0 n d s a
      → checks_of s.log ≡ down n
      → (a ≡ after_checks check a0 n) × (results_of s.log ≡ verdicts check a0 n)
  Run-data {n} run e =
      let (k, inv) = Run-Inv run in
      let same : k ≡ n = down-injective k n (sym inv.base.order ∙ e) in
      (inv.all same, inv.results ∙ ap (verdicts check a0) same)
