-- ===== src/Ppr/Tasks/Calm/Marks.antt =====
-- What the marks of a run say: that it is calm, which checks have passed, and whose data are committed.
use cbop.Prelude.{
  ℕ, ◌+◌, ◌<◌, ◌≡◌, refl, ap, Bool, true, false, ◌&&◌, ◌||◌, List, [], ◌∷◌, ◌++◌, arith, ◌==◌,
}
use cbop.Ppr.Tasks.{Place, Mark}

-- No task has begun to lower the partial size.
abbrev pub is_calm : List Mark → Bool
is_calm [] = true
is_calm (Mark.lowering i l ∷ log) = false
is_calm (m ∷ log) = is_calm log

-- The tasks whose checks have passed, the latest first.
abbrev pub passed_of : List Mark → List ℕ
passed_of [] = []
passed_of (Mark.check_reported i true ∷ log) = i ∷ passed_of log
passed_of (m ∷ log) = passed_of log

abbrev pub all_true : List Bool → Bool
all_true [] = true
all_true (b ∷ bs) = b && all_true bs

pub all_true-append : (bs cs : List Bool) → all_true (bs ++ cs) ≡ (all_true bs && all_true cs)
all_true-append [] cs = refl
all_true-append (true ∷ bs) cs = all_true-append bs cs
all_true-append (false ∷ bs) cs = refl

-- A task has committed its data.
abbrev pub committed : List Mark → ℕ → Bool
committed [] j = false
committed (Mark.data_committed i ∷ log) j = (i == j) || committed log j
committed (m ∷ log) j = committed log j

abbrev pub Earlier : ℕ → List Mark → ℕ → Type 0
Earlier n log w = (j : ℕ) → j < w → j + 1 < n → committed log j ≡ true

-- What the place of a task says in a calm run.
abbrev pub At : ℕ → List Mark → ℕ → Place → Type 0
At n log i (Place.testing l) = ⊥
At n log i (Place.locking l) = ⊥
At n log i (Place.storing l) = ⊥
At n log i Place.aborting = ⊥
At n log i Place.signalling = committed log i ≡ true
At n log i (Place.waiting_group w) = (i + 1 ≡ n) × Earlier n log w
At n log i Place.group_committing = (i + 1 ≡ n) × Earlier n log n
At n log i Place.group_signalling = (i + 1 ≡ n) × Earlier n log n
At n log i Place.meeting = (i + 1 ≡ n) × Earlier n log n
At n log i Place.conceding = (i + 1 ≡ n) × Earlier n log n
At n log i Place.sequential = (i + 1 ≡ n) × Earlier n log n
At n log i p = Unit

pub committed-append :
    (ms log : List Mark) (j : ℕ) → committed log j ≡ true → committed (ms ++ log) j ≡ true
committed-append [] log j h = h
committed-append (Mark.check_reported i b ∷ ms) log j h = committed-append ms log j h
committed-append (Mark.lowering i l ∷ ms) log j h = committed-append ms log j h
committed-append (Mark.data_committed i ∷ ms) log j h = ground (arith, committed-append ms log j h)
committed-append (Mark.group_committed i ∷ ms) log j h = committed-append ms log j h

pub Earlier-append :
    (n : ℕ) (ms log : List Mark) (w : ℕ) → Earlier n log w → Earlier n (ms ++ log) w
Earlier-append n ms log w h j lt e = committed-append ms log j (h j lt e)

pub At-append :
    (n : ℕ) (ms log : List Mark) (i : ℕ) (p : Place) → At n log i p → At n (ms ++ log) i p
At-append n ms log i Place.signalling a = committed-append ms log i a
At-append n ms log i (Place.waiting_group w) a = (a.0, Earlier-append n ms log w a.1)
At-append n ms log i Place.group_committing a = (a.0, Earlier-append n ms log n a.1)
At-append n ms log i Place.group_signalling a = (a.0, Earlier-append n ms log n a.1)
At-append n ms log i Place.meeting a = (a.0, Earlier-append n ms log n a.1)
At-append n ms log i Place.conceding a = (a.0, Earlier-append n ms log n a.1)
At-append n ms log i Place.sequential a = (a.0, Earlier-append n ms log n a.1)
At-append n ms log i p a = ground arith

-- A calm run was calm before.
pub is_calm-append : (ms log : List Mark) → is_calm (ms ++ log) ≡ true → is_calm log ≡ true
is_calm-append [] log h = h
is_calm-append (Mark.check_reported i b ∷ ms) log h = is_calm-append ms log h
is_calm-append (Mark.lowering i l ∷ ms) log h = cc
is_calm-append (Mark.data_committed i ∷ ms) log h = is_calm-append ms log h
is_calm-append (Mark.group_committed i ∷ ms) log h = is_calm-append ms log h

pub passed_of-append : (ms log : List Mark) → passed_of (ms ++ log) ≡ passed_of ms ++ passed_of log
passed_of-append [] log = refl
passed_of-append (Mark.check_reported i true ∷ ms) log = ap (λ l. i ∷ l) (passed_of-append ms log)
passed_of-append (Mark.check_reported i false ∷ ms) log = passed_of-append ms log
passed_of-append (Mark.lowering i l ∷ ms) log = passed_of-append ms log
passed_of-append (Mark.data_committed i ∷ ms) log = passed_of-append ms log
passed_of-append (Mark.group_committed i ∷ ms) log = passed_of-append ms log

pub is_calm-front : (ms log : List Mark) → is_calm (ms ++ log) ≡ true → is_calm ms ≡ true
is_calm-front [] log h = refl
is_calm-front (Mark.check_reported i b ∷ ms) log h = is_calm-front ms log h
is_calm-front (Mark.lowering i l ∷ ms) log h = h
is_calm-front (Mark.data_committed i ∷ ms) log h = is_calm-front ms log h
is_calm-front (Mark.group_committed i ∷ ms) log h = is_calm-front ms log h
