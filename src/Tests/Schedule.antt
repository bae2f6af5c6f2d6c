-- ===== src/Tests/Schedule.antt =====
-- Groups that are run step by step, in an order that is given.
use cbop.Prelude.{ℕ, ◌≡◌, ◌<◌, refl, arith, Bool, true, false, List, [], ◌∷◌, ltb, ltb→lt}
use cbop.Sync.{Call, done, SyncData, blank, ppr_sync_data_reset}
use cbop.Sync.Laws.{IsReady, reset-IsReady}
use cbop.Ppr.Tasks.{Place, Choice, Turn, turn}
use cbop.Ppr.Tasks.System.{System, task, understudy, start_of, UndyEvent, UndyTurn, undy_turn}
use cbop.Ppr.Tasks.Order.Moves.{passes}
use cbop.Ppr.Tasks.Shared.{AgreesAt, Run, begins, goes_on}

-- The record of a new group, before its reset and after.
abbrev pub new_group : ℕ → SyncData
new_group n = record {
  lock = false;
  alloc_size = n;
  group_size = n;
  partial_size = 0;
  sync_status = blank n;
  undy_created = false;
  undy_pid = 0;
  undy_conceded = false;
}

abbrev pub ready_group : ℕ → SyncData
ready_group n = ppr_sync_data_reset (new_group n)

-- A turn of a task that goes on, that lowers, or that aborts; an event of the understudy.
pub data Move : Type 0 where
  on low abort : ℕ → Move
  undy : UndyEvent → Move

abbrev choice_of : Bool → Choice
choice_of true = Choice.goes_on
choice_of false = Choice.aborts

abbrev passes-choice_of : (b : Bool) → passes (choice_of b) ≡ b
passes-choice_of true = refl
passes-choice_of false = refl

module _ {A : Type 0} (check : ℕ → A → Bool × A) (a0 : A) where
  pub record Ran (n : ℕ) : Type 0 where
    pub last : System
    pub left : A
    pub run : Run check a0 n (ready_group n) last left

  -- The choice of a turn: in a check, that of the ports.
  abbrev chosen : Place → Choice → ℕ → A → Choice
  chosen Place.checking c i a = choice_of (check i a).0
  chosen p c i a = c

  abbrev data_left : Place → ℕ → A → A
  data_left Place.checking i a = (check i a).1
  data_left p i a = a

  abbrev agreed :
      (p : Place) (c : Choice) (i : ℕ) (a : A)
      → AgreesAt check a0 p (chosen p c i a) i a (data_left p i a)
  agreed Place.checking c i a = (passes-choice_of (check i a).0, refl)
  agreed p c i a = refl

  after_turn :
      {n : ℕ} (r : Ran n) (i : ℕ) (c : Choice)
      → i < n
      → (x : Call Turn)
      → turn (chosen (r.last.place i) c i r.left) i r.last.mem (r.last.place i) ≡ x
      → Ran n
  after_turn r i c lt (done t) e = record {
    last = _;
    left = data_left (r.last.place i) i r.left;
    run =
        goes_on r.run (task i (chosen (r.last.place i) c i r.left) lt e)
          (agreed (r.last.place i) c i r.left);
  }
  after_turn r i c lt x e = r

  after_event :
      {n : ℕ} (r : Ran n) (e : UndyEvent) (x : Call UndyTurn)
      → undy_turn e r.last.mem r.last.undy ≡ x
      → Ran n
  after_event r e (done t) h = record {
    last = _;
    left = r.left;
    run = goes_on r.run (understudy e h) refl;
  }
  after_event r e x h = r

  task_turn : {n : ℕ} (r : Ran n) (i : ℕ) → Choice → (b : Bool) → ltb i n ≡ b → Ran n
  unfolding turn after_turn
  task_turn {n} r i c true e = after_turn r i c (ltb→lt i n e) _ refl
  task_turn r i c false e = r

  move : {n : ℕ} → Ran n → Move → Ran n
  unfolding task_turn undy_turn after_event
  move r (on i) = task_turn r i Choice.goes_on _ refl
  move r (low i) = task_turn r i Choice.lowers _ refl
  move r (abort i) = task_turn r i Choice.aborts _ refl
  move r (undy e) = after_event r e _ refl

  unfoldable pub moves : {n : ℕ} → Ran n → List Move → Ran n
  unfolding move
  moves r [] = r
  moves r (m ∷ ms) = moves (move r m) ms

  abbrev pub begin : (n : ℕ) → IsReady n (ready_group n) → Ran n
  begin n ready = record { last = start_of (ready_group n); left = a0; run = begins ready }

pub two-IsReady : IsReady 2 (ready_group 2)
unfolding blank
two-IsReady = reset-IsReady 2 (new_group 2) (omega arith) (omega arith) refl refl (omega arith)

pub three-IsReady : IsReady 3 (ready_group 3)
unfolding blank
three-IsReady = reset-IsReady 3 (new_group 3) (omega arith) (omega arith) refl refl (omega arith)
