-- ===== src/Ppr/Monitor/Exit.antt =====
-- The exit value of the monitor process of bop_ppr.c.
use cbop.Prelude.{
  ℕ, ◌≡◌, ◌⊎◌, inl, inr, ◌∙◌, refl, ap, Bool, true, false, ◌||◌, not, List, [], ◌∷◌, Option, none,
  some, ◌==◌, if◌then◌else◌, arith, Bool-cases,
}
use cbop.Ppr.Monitor.{
  Signal, WaitStatus, exited, signaled, stopped, continued, unknown, Child, Monitor, is_fatal,
  report_child, report_status, reap, reap_all, Event, usr1, usr2, polled, handle, watch,
  finish_wait, wait_process, stop_by_first, stop_monitoring,
}

-- A child that ended with a value other than 0, or by a fatal signal.
abbrev pub has_failed : WaitStatus → Bool
has_failed (exited n) = not (n == 0)
has_failed (signaled s) = is_fatal s
has_failed _ = false

abbrev pub any_failed : List Child → Bool
any_failed [] = false
any_failed (c ∷ cs) = has_failed c.status || any_failed cs

abbrev is_killed : WaitStatus → Bool
is_killed (signaled s) = is_fatal s
is_killed _ = false

-- The children that the polls find.
abbrev pub found : List (Option Child) → List Child
found [] = []
found (none ∷ cs) = found cs
found (some c ∷ cs) = c ∷ found cs

-- Polls, then a signal of a task, and then anything.
abbrev pub polls : List (Option Child) → List Event → List Event
polls [] rest = rest
polls (c ∷ cs) rest = polled c ∷ polls cs rest

-- The two signals that end the loop.
abbrev pub stop_signal : Bool → Event
stop_signal true = usr2
stop_signal false = usr1

abbrev child_failed : Option Child → Bool
child_failed none = false
child_failed (some c) = has_failed c.status

-- One poll: a failure counts, SIGUSR2 is not forgotten, and the monitor stops only on a failure.
record Reaps (c : Option Child) (e : Bool) (m : Monitor) (out : Bool × Monitor) : Type 0 where
  counted : out.0 ≡ (e || child_failed c)
  kept : out.1.errored ≡ m.errored
  going : m.is_monitoring ≡ true → (out.1.is_monitoring ≡ true) ⊎ (out.0 ≡ true)

abbrev Reported : Bool → WaitStatus → Monitor → ℕ × Monitor → Type 0
Reported f s m out =
    (not (out.0 == 0) ≡ has_failed s)
    × (out.1.errored ≡ m.errored)
    × (m.is_monitoring ≡ true → (out.1.is_monitoring ≡ true) ⊎ (not (out.0 == 0) ≡ true))

report_status-Reported :
    (f : Bool) (s : WaitStatus) (m : Monitor) → Reported f s m (report_status f s m)
unfolding report_status is_fatal stop_by_first
report_status-Reported f (exited n) m = (refl, refl, λ h. inl h)
report_status-Reported true (signaled Signal.other_signal) m = (refl, refl, λ h. inl h)
report_status-Reported false (signaled Signal.other_signal) m = (refl, refl, λ h. inl h)
report_status-Reported true (signaled _) m = (refl, refl, λ h. inr refl)
report_status-Reported false (signaled _) m = (refl, refl, λ h. inl h)
report_status-Reported f stopped m = (refl, refl, λ h. inl h)
report_status-Reported f continued m = (refl, refl, λ h. inl h)
report_status-Reported f unknown m = (refl, refl, λ h. inl h)

reap-Reaps : (c : Option Child) (e : Bool) (m : Monitor) → Reaps c e m (reap c (e, m))
unfolding reap report_child report_status stop_by_first
reap-Reaps c true m = record { counted = refl; kept = refl; going = λ h. inl h }
reap-Reaps none false m = record { counted = refl; kept = refl; going = λ h. inl h }
reap-Reaps (some c) false m =
    let r = report_status-Reported c.is_first c.status m in
    record { counted = r.0; kept = r.1; going = r.2 }

record ReapsAll (cs : List Child) (e : Bool) (m : Monitor) (out : Bool × Monitor) : Type 0 where
  counted : out.0 ≡ (e || any_failed cs)
  kept : out.1.errored ≡ m.errored

reap_all-ReapsAll :
    (cs : List Child) (e : Bool) (m : Monitor) → ReapsAll cs e m (reap_all cs (e, m))
unfolding reap_all
reap_all-ReapsAll [] e m = record { counted = ground arith; kept = refl }
reap_all-ReapsAll (c ∷ cs) e m =
    let first = reap-Reaps (some c) e m in
    let later = reap_all-ReapsAll cs (reap (some c) (e, m)).0 (reap (some c) (e, m)).1 in
    record {
      counted = ground (arith, later.counted, first.counted);
      kept = later.kept ∙ first.kept;
    }

-- The polls and then a signal: the loop ends there, or at a failure before.
record Watched (cs : List (Option Child)) (sigusr2 : Bool) (rest : List Event) (e : Bool)
    (m : Monitor) : Type 0 where
  left : Bool × Monitor
  result : watch (polls cs (stop_signal sigusr2 ∷ rest)) (e, m) ≡ some left
  counted : (left.0 || left.1.errored) ≡ (e || (any_failed (found cs) || (sigusr2 || m.errored)))

watch-cons :
    (event : Event) (events : List Event) (e : Bool) (m : Monitor) (out : Option (Bool × Monitor))
    → m.is_monitoring ≡ true
    → watch events (handle event (e, m)) ≡ out
    → watch (event ∷ events) (e, m) ≡ out
unfolding watch
watch-cons event events e m out g h =
    ap (λ b. if b then watch events (handle event (e, m)) else some (e, m)) g ∙ h

-- A loop that is left has no turn.
watch-left :
    (event : Event) (events : List Event) (e : Bool) (m : Monitor)
    → m.is_monitoring ≡ false
    → watch (event ∷ events) (e, m) ≡ some (e, m)
unfolding watch
watch-left event events e m g =
    ap (λ b. if b then watch events (handle event (e, m)) else some (e, m)) g

watch-none :
    (events : List Event) (e : Bool) (m : Monitor)
    → m.is_monitoring ≡ false
    → watch events (e, m) ≡ some (e, m)
unfolding watch
watch-none [] e m g = ap (λ b. if b then none else some (e, m)) g
watch-none (event ∷ events) e m g = watch-left event events e m g

any_failed-cons :
    (c : Option Child) (cs : List (Option Child))
    → any_failed (found (c ∷ cs)) ≡ (child_failed c || any_failed (found cs))
any_failed-cons none cs = refl
any_failed-cons (some c) cs = refl

watch-Watched :
    (cs : List (Option Child)) (sigusr2 : Bool) (rest : List Event) (e : Bool) (m : Monitor)
    → m.is_monitoring ≡ true
    → Watched cs sigusr2 rest e m
unfolding handle stop_monitoring
watch-Watched [] false rest e m g = record {
  left = (e, record m { is_monitoring = false });
  result =
      watch-cons usr1 rest e m _ g (watch-none rest e (record m { is_monitoring = false }) refl);
  counted = ground arith;
}
watch-Watched [] true rest e m g = record {
  left = (e, record { is_monitoring = false; errored = true });
  result =
      watch-cons usr2 rest e m _ g
        (watch-none rest e (record { is_monitoring = false; errored = true }) refl);
  counted = ground arith;
}
watch-Watched (c ∷ cs) sigusr2 rest e m g =
    let (e', m') = reap c (e, m) in
    let first = reap-Reaps c e m in
    let events = polls cs (stop_signal sigusr2 ∷ rest) in
    elim (Bool-cases m'.is_monitoring) [
      | inl on ↦
          let later = watch-Watched cs sigusr2 rest e' m' on in
          record {
            left = later.left;
            result = watch-cons (polled c) events e m (some later.left) g later.result;
            counted =
                ground (arith, later.counted, first.counted, first.kept, any_failed-cons c cs);
          }
      | inr off ↦ record {
        left = (e', m');
        result = watch-cons (polled c) events e m (some (e', m')) g (watch-none events e' m' off);
        counted = ground (arith, first.going g, off, first.counted, any_failed-cons c cs);
      }
    ]

-- Whatever the polls of the loop find, children or none, a signal of a task, SIGUSR1 or SIGUSR2, ends the
-- loop if the fatal end of the first child has not, and the monitor process exits: with 0 if no child,
-- polled or remaining, has failed and no SIGUSR2 came, and else with 1.
pub wait_process-exit :
    (polled_children : List (Option Child)) (sigusr2 : Bool) (rest : List Event)
    (remaining : List Child) (late : Bool) (m : Monitor)
    → m.is_monitoring ≡ true
    → m.errored ≡ false
    → wait_process (polls polled_children (stop_signal sigusr2 ∷ rest)) remaining late false m
      ≡ some (
          if any_failed (found polled_children) || (any_failed remaining || (sigusr2 || late))
          then 1
          else 0)
unfolding wait_process finish_wait
wait_process-exit polled_children sigusr2 rest remaining late m going good =
    let w = watch-Watched polled_children sigusr2 rest false m going in
    let r = reap_all-ReapsAll remaining w.left.0 w.left.1 in
    let code : finish_wait remaining late false w.left ≡ (
        if any_failed (found polled_children) || (any_failed remaining || (sigusr2 || late))
        then 1
        else 0) =
      ground (arith, r.counted, r.kept, w.counted, good) in
    rw (wait_process, w.result) (ap some code)

-- Behind a failure, the fatal end of the first child does not end the loop: it is reaped without a report.
pub watch-first_lost :
    (events : List Event) (m : Monitor) (c : Child)
    → m.is_monitoring ≡ true
    → watch (polled (some c) ∷ events) (true, m) ≡ watch events (true, m)
unfolding handle reap
watch-first_lost events m c g = watch-cons (polled (some c)) events true m _ g refl
