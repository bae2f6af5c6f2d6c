-- ===== src/Ppr/Tasks/Shared/Runs.antt =====
-- Runs of a group with data that its tasks share, which only the checks change. `check i a` is the
-- answer of the ports in task i, and what it leaves of the data `a`.
use cbop.Prelude.{ℕ, zero, suc, ◌≡◌, Bool, List, [], ◌∷◌}
use cbop.Sync.{SyncData}
use cbop.Sync.Laws.{IsReady}
use cbop.Ppr.Tasks.{Place, Choice}
use cbop.Ppr.Tasks.System.{
  System, Step, task, signal, understudy, Reach, start, later, start_of, fork_fails,
}
use cbop.Ppr.Tasks.Order.Moves.{passes}

module _ {A : Type 0} (check : ℕ → A → Bool × A) (a0 : A) where
  -- The checks one after the other: the data after the first ones, and their results.
  abbrev pub after_checks : ℕ → A
  after_checks zero = a0
  after_checks (suc n) = (check n (after_checks n)).1

  abbrev pub verdicts : ℕ → List Bool
  verdicts zero = []
  verdicts (suc n) = (check n (after_checks n)).0 ∷ verdicts n

  -- A turn of the check itself is that of the ports on the shared data; the other turns leave them.
  abbrev pub AgreesAt : Place → Choice → ℕ → A → A → Type 0
  AgreesAt Place.checking c i a b = (passes c ≡ (check i a).0) × (b ≡ (check i a).1)
  AgreesAt p c i a b = b ≡ a

  abbrev pub Agrees : {n : ℕ} {s t : System} → Step n s t → A → A → Type 0
  Agrees {s = s} (task i c lt h) a b = AgreesAt (s.place i) c i a b
  Agrees (signal i sg lt) a b = b ≡ a
  Agrees (understudy e h) a b = b ≡ a
  Agrees (fork_fails u lt p) a b = b ≡ a

  pub data Run (n : ℕ) (d : SyncData) : System → A → Type 0 where
    begins : IsReady n d → Run n d (start_of d) a0
    goes_on :
        {s t : System} {a b : A} → Run n d s a → (st : Step n s t) → Agrees st a b → Run n d t b

  pub Run-Reach : {n : ℕ} {d : SyncData} {s : System} {a : A} → Run n d s a → Reach n d s
  Run-Reach (begins ready) = start ready
  Run-Reach (goes_on r st agrees) = later (Run-Reach r) st
