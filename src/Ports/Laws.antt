-- ===== src/Ports/Laws.antt =====
-- What the port table of bop_ports.c keeps, and which ports a check calls.
use cbop.Prelude.{
  ℕ, ◌+◌, ◌*◌, ◌^◌, ◌≤◌, ◌<◌, ◌≡◌, refl, Bool, true, false, List, [], ◌∷◌, ◌++◌, Option, none, some,
  arith, length, length-append, if◌then◌else◌, ◌==◌,
}
use cbop.Task.{TaskStatus}
use cbop.Ports.{
  Port, PortTable, register_port, port_call_int_func, report_conflict, ppr_check_correctness,
}

-- The counters agree with the table, and the entries fit in the memory that is allocated.
abbrev pub Entries : {S : Type 0} → PortTable S → Option (List (Port S)) → Type 0
Entries t none = (t.num_ports ≡ 0) × (t.alloc_size ≡ 0)
Entries t (some ports) =
    (length ports ≡ t.num_ports) × (t.num_ports ≤ t.alloc_size) × (0 < t.alloc_size)

abbrev pub IsValid : {S : Type 0} → PortTable S → Type 0
IsValid t = Entries t t.bop_ports

-- The ports in the order of their registration.
abbrev pub registered : {S : Type 0} → Option (List (Port S)) → List (Port S)
registered none = []
registered (some ports) = ports

-- What registering promises of the table that it leaves.
pub record Registered {S : Type 0} (t : PortTable S) (port : Port S) (t' : PortTable S)
    : Type 0 where
  pub valid : IsValid t'
  pub appended : t'.bop_ports ≡ some (registered t.bop_ports ++ (port ∷ []))
  pub counted : t'.num_ports ≡ t.num_ports + 1
  pub grown : t.alloc_size ≤ t'.alloc_size

register_at :
    {S : Type 0} (t : PortTable S) (port : Port S) (o : Option (List (Port S)))
    → t.bop_ports ≡ o
    → Entries t o
    → t.alloc_size < 2 ^ 31
    → (t' : PortTable S) × (register_port TaskStatus.seq t port ≡ some t') × Registered t port t'
unfolding register_port
register_at t port none e v small = (
  record { bop_ports = some (port ∷ []); num_ports = 1; alloc_size = 10 },
  ground (arith, e),
  record {
    valid = omega arith;
    appended = ground (arith, e);
    counted = omega (arith, v);
    grown = omega (arith, v);
  },
)
register_at t port (some ports) e v small = (
  record {
    bop_ports = some (ports ++ (port ∷ []));
    num_ports = t.num_ports + 1;
    alloc_size = if t.num_ports == t.alloc_size then t.alloc_size * 2 else t.alloc_size;
  },
  ground (arith, e),
  record {
    valid = ground (arith, v, length-append ports (port ∷ []));
    appended = ground (arith, e);
    counted = omega arith;
    grown = ground arith;
  },
)

-- A sequential task can always register a port: it is appended to the table, whose counters agree
-- with it and whose memory has room for it.
pub register_port-Registered :
    {S : Type 0} (t : PortTable S) (port : Port S)
    → IsValid t
    → t.alloc_size < 2 ^ 31
    → (t' : PortTable S) × (register_port TaskStatus.seq t port ≡ some t') × Registered t port t'
register_port-Registered t port v small = register_at t port t.bop_ports refl v small

-- A port without a function for it is not told.
abbrev pub told_by : {S : Type 0} → Option (ℕ → S → S) → ℕ → S → S
told_by none addr s = s
told_by (some func) addr s = func addr s

module _ {S : Type 0} where
  -- All ports of the list pass their checks, one after the other, from the first state to the last.
  abbrev pub Passing : List (Port S) → S → S → Type 0
  Passing [] s s' = s ≡ s'
  Passing (p ∷ ps) s s' =
      ((port_call_int_func p.ppr_check_correctness s).1 ≡ true)
      × Passing ps (port_call_int_func p.ppr_check_correctness s).0 s'

  -- The first port that fails, after those that pass, and the state that it leaves.
  pub record FirstFailure (ports : List (Port S)) (s s' : S) : Type 0 where
    pub before : List (Port S)
    pub failing : Port S
    pub after : List (Port S)
    pub reached : S
    pub split : ports ≡ before ++ (failing ∷ after)
    pub passing : Passing before s reached
    pub fails : port_call_int_func failing.ppr_check_correctness reached ≡ (s', false)

  abbrev Verdict : List (Port S) → S → S × Bool → Type 0
  Verdict ports s (s', true) = Passing ports s s'
  Verdict ports s (s', false) = FirstFailure ports s s'

  -- One port after the other is told of the conflict, from the first state to the last.
  abbrev pub Told : ℕ → List (Port S) → S → S → Type 0
  Told addr [] s s' = s ≡ s'
  Told addr (p ∷ ps) s s' = Told addr ps (told_by p.report_conflict addr s) s'

  -- What a group's check answers and leaves. After a failure the conflict is reported once, to all
  -- ports, with the address that the failing check recorded.
  abbrev pub CheckResult : (S → ℕ) → List (Port S) → S → S × Bool → Type 0
  CheckResult conflict_addr ports s (s', true) = Passing ports s s'
  CheckResult conflict_addr ports s (s', false) =
      (failed : S) × FirstFailure ports s failed × Told (conflict_addr failed) ports failed s'
