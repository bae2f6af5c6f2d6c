-- ===== src/Ppr/Tasks/System.antt =====
-- The group as a whole: the shared record, the place of every task, and the understudy; what one step
-- of it is, and what it can reach.
use cbop.Prelude.{
  ℕ, ◌+◌, ◌<◌, ◌≡◌, ◌≢◌, sym, inl, inr, arith, Bool-cases, ==_iff, List, [], ◌++◌, ◌==◌,
  if◌then◌else◌,
}
use cbop.Sync.{Call, done, blocked, SyncData, signal_undy_created, signal_undy_conceded}
use cbop.Sync.Laws.{IsReady}
use cbop.Ppr.Tasks.{Place, Choice, Mark, Turn, turn}

pub data Understudy : Type 0 where
  unborn unforked racing conceded finished : Understudy

-- The fork by the main task; SIGUSR1 in the race; the last end of a region.
pub data UndyEvent : Type 0 where
  starts : ℕ → UndyEvent
  concedes wins : UndyEvent

pub record UndyTurn : Type 0 where
  pub mem : SyncData
  pub undy : Understudy

unfoldable pub undy_turn : UndyEvent → SyncData → Understudy → Call UndyTurn
unfolding signal_undy_created signal_undy_conceded
undy_turn (starts pid) d Understudy.unborn =
    done (record { mem = signal_undy_created pid d; undy = Understudy.racing })
undy_turn concedes d Understudy.racing =
    done (record { mem = signal_undy_conceded d; undy = Understudy.conceded })
undy_turn wins d Understudy.racing = done (record { mem = d; undy = Understudy.finished })
undy_turn _ d u = blocked

pub data UserSignal : Type 0 where
  sigusr1 sigusr2 : UserSignal

-- `SigUsr1` and `SigUsr2` in a main or speculative task: all but the last task of the group quit on
-- the first, all on the second. A sequential task ignores both.
unfoldable pub interrupted : UserSignal → ℕ → SyncData → Place → Place
interrupted sg i d Place.sequential = Place.sequential
interrupted sg i d Place.serial = Place.serial
interrupted UserSignal.sigusr1 i d p = if i + 1 == d.partial_size then p else Place.gone
interrupted UserSignal.sigusr2 i d p = Place.gone

abbrev pub update {ℓ} : {A : Type ℓ} → (ℕ → A) → ℕ → A → ℕ → A
update f i a j = if i == j then a else f j

-- What holds at the index and, of the old values, elsewhere, holds of all.
pub update-all :
    {A : Type 0} (P : ℕ → A → Type 0) (f : ℕ → A) (i : ℕ) (a : A)
    → P i a
    → ((j : ℕ) → i ≢ j → P j (f j))
    → (j : ℕ) → P j (update f i a j)
update-all P f i a here there j = elim (Bool-cases (i == j)) [
  | inl same ↦ let e = (==_iff i j).0 same in rw (same, sym e) here
  | inr other ↦ rw other (there j (λ e. ground (arith, e)))
]

pub record System : Type 0 where
  pub mem : SyncData
  pub place : ℕ → Place
  pub undy : Understudy
  pub log : List Mark

-- Marks are logged with the newest in front. A signal may come at any time. At the end
-- of its region the main task forks the understudy; where the fork fails it goes on as the sequential task.
pub data Step (n : ℕ) (s : System) : System → Type 0 where
  task :
      (i : ℕ) (c : Choice) {r : Turn}
      → i < n
      → turn c i s.mem (s.place i) ≡ done r
      → Step n s
          (record s { mem = r.mem; place = update s.place i r.place; log = r.marks ++ s.log })
  signal :
      (i : ℕ) (sg : UserSignal)
      → i < n
      → Step n s (record s { place = update s.place i (interrupted sg i s.mem (s.place i)) })
  understudy :
      (e : UndyEvent) {r : UndyTurn}
      → undy_turn e s.mem s.undy ≡ done r
      → Step n s (record s { mem = r.mem; undy = r.undy })
  fork_fails :
      s.undy ≡ Understudy.unborn
      → 0 < n
      → s.place 0 ≡ Place.in_region
      → Step n s (record s { place = update s.place 0 Place.serial; undy = Understudy.unforked })

-- The group at its start: the shared record is reset, and all tasks are in their regions.
abbrev pub start_of : SyncData → System
start_of d = record { mem = d; place = λ i. Place.in_region; undy = Understudy.unborn; log = [] }

pub data Reach (n : ℕ) (d : SyncData) : System → Type 0 where
  start : IsReady n d → Reach n d (start_of d)
  later : {s t : System} → Reach n d s → Step n s t → Reach n d t
