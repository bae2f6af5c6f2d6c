-- ===== src/Ppr/Tasks/Survivor.antt =====
-- The race at the end of a group: of all tasks and the understudy, at most one process goes on as the
-- sequential one.
use cbop.Prelude.{ℕ, ◌≡◌, ◌≢◌, refl, ◌∙◌, ◌⊎◌, inl, inr, sym, ap, true, false, [], arith}
use mathlib.Core.Path.{subst}
use cbop.Sync.{
  done, SyncData, signal_commit_done, wait_next_commit_done, acquire_committed,
  wait_prior_check_done, signal_check_done,
}
use cbop.Ppr.Tasks.{Place, Choice, Turn, turn}
use cbop.Ppr.Tasks.System.{
  update, update-all, System, Step, task, signal, understudy, Reach, start, later, UserSignal,
  interrupted, UndyEvent, Understudy, UndyTurn, undy_turn, fork_fails,
}

-- How far a task is in the race with the understudy.
data Racing : Type 0 where
  not_yet met won alone : Racing

abbrev racing : Place → Racing
racing Place.conceding = Racing.met
racing Place.sequential = Racing.won
racing Place.serial = Racing.alone
racing p = Racing.not_yet

-- A turn, as the race sees it.
data RaceMove (d : SyncData) (p : Place) (r : Turn) : Type 0 where
  still :
      r.mem.undy_created ≡ d.undy_created
      → r.mem.undy_conceded ≡ d.undy_conceded
      → (racing r.place ≡ racing p) ⊎ (racing r.place ≡ Racing.not_yet)
      → RaceMove d p r
  meets :
      d.undy_created ≡ false
      → r.mem.undy_created ≡ true
      → r.mem.undy_conceded ≡ d.undy_conceded
      → racing p ≡ Racing.not_yet
      → racing r.place ≡ Racing.met
      → RaceMove d p r
  outlasts :
      d.undy_conceded ≡ false
      → r.mem.undy_conceded ≡ true
      → r.mem.undy_created ≡ d.undy_created
      → racing p ≡ Racing.met
      → racing r.place ≡ Racing.won
      → RaceMove d p r

turn-RaceMove :
    (c : Choice) (i : ℕ) (d : SyncData) (p : Place) (r : Turn)
    → turn c i d p ≡ done r
    → RaceMove d p r
unfolding turn signal_commit_done wait_next_commit_done acquire_committed wait_prior_check_done
    signal_check_done
turn-RaceMove c i d Place.meeting r h =
    meets (ground arith) (ground arith) (ground arith) refl (ground arith)
turn-RaceMove c i d Place.conceding r h =
    outlasts (ground arith) (ground arith) (ground arith) refl (ground arith)
turn-RaceMove c i d p r h = still (ground arith) (ground arith) (ground arith)

-- What the race of a task says of the locks and of the understudy.
abbrev Born : Understudy → Type 0
Born Understudy.unborn = ⊥
Born Understudy.unforked = ⊥
Born u = Unit

abbrev At : SyncData → Understudy → Racing → Type 0
At d u Racing.not_yet = Unit
At d u Racing.met = (d.undy_created ≡ true) × Born u
At d u Racing.won = (d.undy_created ≡ true) × (u ≡ Understudy.conceded)
At d u Racing.alone = u ≡ Understudy.unforked

record Inv (d : SyncData) (place : ℕ → Place) (u : Understudy) : Type 0 where
  at : (i : ℕ) → At d u (racing (place i))
  once : (i j : ℕ) → racing (place i) ≢ Racing.not_yet → racing (place j) ≢ Racing.not_yet → i ≡ j
  born : d.undy_created ≡ false → Born u
  conceded : d.undy_conceded ≡ false → u ≡ Understudy.conceded

At-same :
    (d d' : SyncData) (u : Understudy) (x : Racing)
    → d'.undy_created ≡ d.undy_created
    → At d u x
    → At d' u x
At-same d d' u Racing.not_yet c a = tt
At-same d d' u Racing.met c a = (c ∙ a.0, a.1)
At-same d d' u Racing.won c a = (c ∙ a.0, a.1)
At-same d d' u Racing.alone c a = a

Born-unforked : (u : Understudy) → u ≡ Understudy.unforked → Born u → ⊥
Born-unforked u e b = subst Born e b

-- While the understudy's lock is free, nobody has met it.
nobody :
    (d : SyncData) (u : Understudy) (x : Racing)
    → d.undy_created ≡ false
    → Born u
    → At d u x
    → x ≡ Racing.not_yet
nobody d u Racing.not_yet c b a = refl
nobody d u Racing.met c b a = absurd (ground (arith, c, a.0))
nobody d u Racing.won c b a = absurd (ground (arith, c, a.0))
nobody d u Racing.alone c b a = absurd (Born-unforked u a b)

-- Before the fork, nobody is in the race.
before_fork :
    (d : SyncData) (u : Understudy) (x : Racing)
    → u ≡ Understudy.unborn
    → At d u x
    → x ≡ Racing.not_yet
before_fork d u Racing.not_yet e a = refl
before_fork d u Racing.met e a = absurd (subst Born e a.1)
before_fork d u Racing.won e a = absurd (ground (arith, e, a.1))
before_fork d u Racing.alone e a = absurd (ground (arith, e, a))

At-racing :
    {d : SyncData} {place : ℕ → Place} {u : Understudy}
    → Inv d place u
    → (i : ℕ) (x : Racing) → racing (place i) ≡ x
    → At d u x
At-racing inv i x e = rw (sym e) (inv.at i)

module _ (i : ℕ) {d : SyncData} {place : ℕ → Place} {u : Understudy} (inv : Inv d place u)
    (r : Turn) where
  once-kept :
      (racing r.place ≢ Racing.not_yet → racing (place i) ≢ Racing.not_yet)
      → (a b : ℕ) → racing (update place i r.place a) ≢ Racing.not_yet
      → racing (update place i r.place b) ≢ Racing.not_yet
      → a ≡ b
  once-kept back a b ha hb = inv.once a b (before a ha) (before b hb)
    where
      before :
          (j : ℕ)
          → racing (update place i r.place j) ≢ Racing.not_yet
          → racing (place j) ≢ Racing.not_yet
      before =
          update-all (λ j p. racing p ≢ Racing.not_yet → racing (place j) ≢ Racing.not_yet) place i
            r.place back (λ j other h. h)

  still-Inv :
      r.mem.undy_created ≡ d.undy_created
      → r.mem.undy_conceded ≡ d.undy_conceded
      → (racing r.place ≡ racing (place i)) ⊎ (racing r.place ≡ Racing.not_yet)
      → Inv r.mem (update place i r.place) u
  still-Inv c e s = record {
    at =
        update-all (λ j p. At r.mem u (racing p)) place i r.place
          (elim s [
            | inl same ↦ rw same (At-same d r.mem u (racing (place i)) c (inv.at i))
            | inr out ↦ rw out tt
          ])
          (λ j other. At-same d r.mem u (racing (place j)) c (inv.at j));
    once = once-kept (λ h. elim s [ inl same ↦ λ q. h (same ∙ q) | inr out ↦ absurd (h out) ]);
    born = λ f. inv.born (sym c ∙ f);
    conceded = λ f. inv.conceded (sym e ∙ f);
  }

  meets-Inv :
      d.undy_created ≡ false
      → r.mem.undy_created ≡ true
      → r.mem.undy_conceded ≡ d.undy_conceded
      → racing r.place ≡ Racing.met
      → Inv r.mem (update place i r.place) u
  meets-Inv free taken e now = record {
    at =
        update-all (λ j p. At r.mem u (racing p)) place i r.place (rw now (taken, inv.born free))
          (λ j other. rw (none j) tt);
    once = λ a b ha hb. sym (me a ha) ∙ me b hb;
    born = λ f. ground (arith, f, taken);
    conceded = λ f. inv.conceded (sym e ∙ f);
  }
    where
      none : (j : ℕ) → racing (place j) ≡ Racing.not_yet
      none j = nobody d u (racing (place j)) free (inv.born free) (inv.at j)

      me : (j : ℕ) → racing (update place i r.place j) ≢ Racing.not_yet → i ≡ j
      me =
          update-all (λ j p. racing p ≢ Racing.not_yet → i ≡ j) place i r.place (λ h. refl)
            (λ j other h. absurd (h (none j)))

  outlasts-Inv :
      d.undy_conceded ≡ false
      → r.mem.undy_conceded ≡ true
      → r.mem.undy_created ≡ d.undy_created
      → racing (place i) ≡ Racing.met
      → racing r.place ≡ Racing.won
      → Inv r.mem (update place i r.place) u
  outlasts-Inv free taken c was now = record {
    at =
        update-all (λ j p. At r.mem u (racing p)) place i r.place
          (rw now (c ∙ (At-racing inv i Racing.met was).0, inv.conceded free))
          (λ j other. At-same d r.mem u (racing (place j)) c (inv.at j));
    once = once-kept (λ h q. ground (arith, was, q));
    born = λ f. inv.born (sym c ∙ f);
    conceded = λ f. ground (arith, f, taken);
  }

interrupted-racing :
    (sg : UserSignal) (i : ℕ) (d : SyncData) (p : Place)
    → (racing (interrupted sg i d p) ≡ racing p) ⊎ (racing (interrupted sg i d p) ≡ Racing.not_yet)
unfolding interrupted
interrupted-racing sg i d p = ground arith

-- The understudy starts, concedes or wins: nobody has won before.
understudy-Inv :
    {d : SyncData} {place : ℕ → Place} {u : Understudy}
    → Inv d place u
    → (e : UndyEvent) (r : UndyTurn) → undy_turn e d u ≡ done r
    → Inv r.mem place r.undy
unfolding undy_turn
understudy-Inv {d} {place} {u} inv e r h = record {
  at = λ i. At-undy (racing (place i)) (inv.at i);
  once = inv.once;
  born = ground (arith, inv.born);
  conceded = ground (arith, inv.conceded);
}
  where
    At-undy : (x : Racing) → At d u x → At r.mem r.undy x
    At-undy Racing.not_yet a = tt
    At-undy Racing.met a = ground arith
    At-undy Racing.won a = ground arith
    At-undy Racing.alone a = ground arith

Step-Inv : {n : ℕ} {s t : System} → Step n s t → Inv s.mem s.place s.undy → Inv t.mem t.place t.undy
Step-Inv {s} (task i c {r} h e) inv = elim (turn-RaceMove c i s.mem (s.place i) r e) [
  | still c e s ↦ still-Inv i inv r c e s
  | meets free taken e was now ↦ meets-Inv i inv r free taken e now
  | outlasts free taken c was now ↦ outlasts-Inv i inv r free taken c was now
]
Step-Inv {s} (signal i sg h) inv =
    still-Inv i inv (record { mem = s.mem; place = interrupted sg i s.mem (s.place i); marks = [] })
      refl refl (interrupted-racing sg i s.mem (s.place i))
Step-Inv (understudy e {r} h) inv = understudy-Inv inv e r h
-- The main task goes on alone: nobody else is in the race, nor can be.
Step-Inv {s} (fork_fails u lt p) inv = record {
  at =
      update-all (λ j q. At s.mem Understudy.unforked (racing q)) s.place 0 Place.serial refl
        (λ j other. rw (none j) tt);
  once = λ a b ha hb. sym (me a ha) ∙ me b hb;
  born = λ f. subst Born u (inv.born f);
  conceded = λ f. ground (arith, inv.conceded f, u);
}
  where
    none : (j : ℕ) → racing (s.place j) ≡ Racing.not_yet
    none j = before_fork s.mem s.undy (racing (s.place j)) u (inv.at j)

    me : (j : ℕ) → racing (update s.place 0 Place.serial j) ≢ Racing.not_yet → 0 ≡ j
    me =
        update-all (λ j q. racing q ≢ Racing.not_yet → 0 ≡ j) s.place 0 Place.serial (λ h. refl)
          (λ j other h. absurd (h (none j)))

Reach-Inv : {n : ℕ} {d : SyncData} {s : System} → Reach n d s → Inv s.mem s.place s.undy
Reach-Inv (start ready) = record {
  at = λ i. tt;
  once = λ i j h. absurd (h refl);
  born = ground (arith, ready.no_understudy);
  conceded = ground (arith, ready.no_understudy);
}
Reach-Inv (later r st) = Step-Inv st (Reach-Inv r)

-- A task that goes on as the sequential one: it has won the race, or the fork of the understudy failed.
abbrev pub IsSequential : Place → Type 0
IsSequential p = (p ≡ Place.sequential) ⊎ (p ≡ Place.serial)

IsSequential-racing :
    (d : SyncData) (u : Understudy) (p : Place)
    → At d u (racing p)
    → IsSequential p
    → (racing p ≢ Racing.not_yet) × ((u ≡ Understudy.conceded) ⊎ (u ≡ Understudy.unforked))
IsSequential-racing d u p a (inl e) = (ground (arith, e), inl (At-won (racing p) (ap racing e) a))
  where
    At-won : (x : Racing) → x ≡ Racing.won → At d u x → u ≡ Understudy.conceded
    At-won Racing.won e a = a.1
    At-won Racing.not_yet e a = cc
    At-won Racing.met e a = cc
    At-won Racing.alone e a = cc
IsSequential-racing d u p a (inr e) = (ground (arith, e), inr (At-alone (racing p) (ap racing e) a))
  where
    At-alone : (x : Racing) → x ≡ Racing.alone → At d u x → u ≡ Understudy.unforked
    At-alone Racing.alone e a = a
    At-alone Racing.not_yet e a = cc
    At-alone Racing.met e a = cc
    At-alone Racing.won e a = cc

-- At most one process gets to be sequential: where a task is, the understudy has conceded, or its fork
-- has failed and there is none, and two tasks that are, are the same; in every state that a group can
-- reach, with signals at any time.
pub Reach-survivor :
    {n : ℕ} {d : SyncData} {s : System}
    → Reach n d s
    → (i j : ℕ) → IsSequential (s.place i)
    → IsSequential (s.place j)
    → ((s.undy ≡ Understudy.conceded) ⊎ (s.undy ≡ Understudy.unforked)) × (i ≡ j)
Reach-survivor {s} r i j e e' =
    let inv = Reach-Inv r in
    let (in_race, survives) = IsSequential-racing s.mem s.undy (s.place i) (inv.at i) e in
    let (in_race', survives') = IsSequential-racing s.mem s.undy (s.place j) (inv.at j) e' in
    (survives, inv.once i j in_race in_race')
