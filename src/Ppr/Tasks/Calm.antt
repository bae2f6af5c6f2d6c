-- ===== src/Ppr/Tasks/Calm.antt =====
-- A run in which no task lowers the size of the group: who commits the group, and what stands then.
mod Marks
mod Turns
pub use Marks.{is_calm, passed_of, committed, all_true}
use Marks.{Earlier, At, At-append, is_calm-append, passed_of-append, is_calm-front, all_true-append}
use Turns.{turn-size, turn-free, turn-At, turn-passed, turn-true}
use cbop.Prelude.{
  ℕ, zero, suc, ◌+◌, ◌≤◌, ◌<◌, ◌≡◌, ◌≢◌, refl, ◌∙◌, ◌⊎◌, inl, inr, sym, ap, Bool, true, false, ◌&&◌,
  ◌||◌, List, [], ◌∷◌, ◌++◌, arith, ◌==◌, ltb, if◌then◌else◌, Bool-cases, ==_iff,
}
use cbop.Sync.{
  done, SyncData, signal_commit_done, wait_next_commit_done, acquire_committed,
  wait_prior_check_done, signal_check_done,
}
use cbop.Sync.Laws.{IsReady}
use cbop.Ppr.Tasks.{
  Place, Choice, Mark, Turn, turn, go, go_marked, go_failed, group_by, group_turn, prior_turn,
  check_reported, lowering, data_committed, group_committed,
}
use cbop.Ppr.Tasks.System.{
  update, update-all, System, Step, task, signal, understudy, Reach, start, later, UserSignal,
  interrupted, UndyEvent, Understudy, UndyTurn, undy_turn, fork_fails,
}
use cbop.Ppr.Tasks.Order.Moves.{checks_of, results_of, results_of-append, down}
use cbop.Ppr.Tasks.Order.{checks_of-append, Reach-reported}
use cbop.Ppr.Tasks.Views.{
  bind-done, commit_free, Changed, wait_prior-Changed, signal_check-Changed, signal_commit-Changed,
  wait_next-Changed, acquire-Changed,
}

record Inv (n : ℕ) (d : SyncData) (place : ℕ → Place) (log : List Mark) : Type 0 where
  size : d.partial_size ≡ n
  free : (j : ℕ) → j + 1 < n → commit_free d j ≡ true → committed log j ≡ true
  at : (i : ℕ) → At n log i (place i)

interrupted-At :
    (n : ℕ) (log : List Mark) (sg : UserSignal) (i : ℕ) (d : SyncData) (p : Place)
    → At n log i p
    → At n log i (interrupted sg i d p)
unfolding interrupted
interrupted-At n log sg i d p a = ground (arith, a)

understudy-same :
    (e : UndyEvent) (d : SyncData) (u : Understudy) (r : UndyTurn)
    → undy_turn e d u ≡ done r
    → (r.mem.partial_size ≡ d.partial_size) × ((j : ℕ) → commit_free r.mem j ≡ commit_free d j)
unfolding undy_turn commit_free
understudy-same e d u r h = (ground arith, λ j. ground arith)

Step-calm : {n : ℕ} {s t : System} → Step n s t → is_calm t.log ≡ true → is_calm s.log ≡ true
Step-calm {s} (task i c {r} lt h) calm = is_calm-append r.marks s.log calm
Step-calm (signal i sg lt) calm = calm
Step-calm (understudy e h) calm = calm
Step-calm (fork_fails u lt p) calm = calm

start_held : (n : ℕ) (d : SyncData) → IsReady n d → (j : ℕ) → j < n → commit_free d j ≡ false
unfolding commit_free
start_held n d ready j lt = let (u, at, c, held) = ready.held j lt in ground (arith, at, held)

Step-Inv :
    {n : ℕ} {s t : System}
    → Step n s t
    → is_calm t.log ≡ true
    → Inv n s.mem s.place s.log
    → Inv n t.mem t.place t.log
Step-Inv {n} {s} (task i c {r} lt h) calm inv = record {
  size = turn-size n c i s.mem s.log inv.size (s.place i) r h (inv.at i);
  free = turn-free n c i s.mem s.log inv.size inv.free (s.place i) r h (inv.at i);
  at =
      update-all (At n (r.marks ++ s.log)) s.place i r.place
        (turn-At n c i s.mem s.log inv.size inv.free (s.place i) r h calm (inv.at i))
        (λ j other. At-append n r.marks s.log j (s.place j) (inv.at j));
}
Step-Inv {n} {s} (signal i sg lt) calm inv = record {
  size = inv.size;
  free = inv.free;
  at =
      update-all (At n s.log) s.place i (interrupted sg i s.mem (s.place i))
        (interrupted-At n s.log sg i s.mem (s.place i) (inv.at i)) (λ j other. inv.at j);
}
Step-Inv {n} {s} (fork_fails u lt p) calm inv = record {
  size = inv.size;
  free = inv.free;
  at = update-all (At n s.log) s.place 0 Place.serial tt (λ j other. inv.at j);
}
Step-Inv {n} {s} (understudy e {r} h) calm inv =
    let (size, same) = understudy-same e s.mem s.undy r h in
    record {
      size = size ∙ inv.size;
      free = λ j lt f. inv.free j lt (sym (same j) ∙ f);
      at = inv.at;
    }

Reach-Inv :
    {n : ℕ} {d : SyncData} {s : System}
    → Reach n d s
    → is_calm s.log ≡ true
    → Inv n s.mem s.place s.log
Reach-Inv {n} {d} (start ready) calm = record {
  size = ready.whole;
  free = λ j lt f. ground (arith, start_held n d ready j (omega (arith, lt)), f);
  at = λ i. tt;
}
Reach-Inv {s} (later {s = s'} r st) calm = Step-Inv st calm (Reach-Inv r (Step-calm st calm))

Reach-passed :
    {n : ℕ} {d : SyncData} {s : System}
    → Reach n d s
    → is_calm s.log ≡ true
    → passed_of s.log ≡ checks_of s.log
Reach-passed (start ready) calm = refl
Reach-passed (later {s} r (task i c {r = t} lt h)) calm = ground (
  arith,
  passed_of-append t.marks s.log,
  checks_of-append t.marks s.log,
  turn-passed c i s.mem (s.place i) t h (is_calm-front t.marks s.log calm),
  Reach-passed r (is_calm-append t.marks s.log calm),
)
Reach-passed (later r (signal i sg lt)) calm = Reach-passed r calm
Reach-passed (later r (understudy e h)) calm = Reach-passed r calm
Reach-passed (later r (fork_fails u lt p)) calm = Reach-passed r calm

pub Reach-true :
    {n : ℕ} {d : SyncData} {s : System}
    → Reach n d s
    → is_calm s.log ≡ true
    → all_true (results_of s.log) ≡ true
Reach-true (start ready) calm = refl
Reach-true (later {s} r (task i c {r = t} lt h)) calm = ground (
  arith,
  ap all_true (results_of-append t.marks s.log),
  all_true-append (results_of t.marks) (results_of s.log),
  turn-true c i s.mem (s.place i) t h (is_calm-front t.marks s.log calm),
  Reach-true r (is_calm-append t.marks s.log calm),
)
Reach-true (later r (signal i sg lt)) calm = Reach-true r calm
Reach-true (later r (understudy e h)) calm = Reach-true r calm
Reach-true (later r (fork_fails u lt p)) calm = Reach-true r calm

At-place :
    {n : ℕ} {d : SyncData} {place : ℕ → Place} {log : List Mark}
    → Inv n d place log
    → (i : ℕ) (p : Place) → place i ≡ p
    → At n log i p
At-place inv i p e = rw (sym e) (inv.at i)

-- In a run in which no task has begun to lower the size, only the last task comes to commit the group;
-- all tasks have then passed their checks, in their order, and all but the last one have committed
-- their data.
pub Reach-group_committing :
    {n : ℕ} {d : SyncData} {s : System}
    → Reach n d s
    → is_calm s.log ≡ true
    → (i : ℕ) → s.place i ≡ Place.group_committing
    → (i + 1 ≡ n) × (passed_of s.log ≡ down n) × ((j : ℕ) → (i ≤ j) ⊎ (committed s.log j ≡ true))
Reach-group_committing {n} {s = s} r calm i e =
    let (last, before) = At-place (Reach-Inv r calm) i Place.group_committing e in
    let (k, order, low, high) = Reach-reported r i e in
    (
      last,
      ground (arith, Reach-passed r calm, order, last, low, high),
      λ j. ground (arith, before j, last),
    )
