-- ===== src/Ports.antt =====
-- bop_ports.c: the table of ports and the calls that go through it. `S` is the state that the ports'
-- functions act on.
pub mod Laws
use cbop.Prelude.{
  ℕ, ◌+◌, ◌*◌, ◌%◌, ◌^◌, Bool, true, false, List, [], ◌∷◌, ◌++◌, Option, none, some, ◌==◌,
  if◌then◌else◌,
}
use cbop.Task.{TaskStatus}

-- `bop_port_t`; `none` is a NULL function.
pub record Port (S : Type 0) : Type 0 where
  pub ppr_group_init : Option (S → S)
  pub ppr_task_init : Option (S → S)
  pub ppr_check_correctness : Option (S → S × Bool)
  pub report_conflict : Option (ℕ → S → S)
  pub data_commit : Option (S → S)
  pub task_group_commit : Option (S → S)
  pub task_group_succ_fini : Option (S → S)
  pub undy_init : Option (S → S)
  pub undy_succ_fini : Option (S → S)
  pub on_enter_ordered : Option (S → S)
  pub on_exit_ordered : Option (S → S)
  pub on_main_complete : Option (S → S)

-- `bop_ports` with its two 32-bit counters; `none` is the NULL table.
pub record PortTable (S : Type 0) : Type 0 where
  pub bop_ports : Option (List (Port S))
  pub num_ports : ℕ
  pub alloc_size : ℕ

abbrev pub no_ports : {S : Type 0} → PortTable S
no_ports = record { bop_ports = none; num_ports = 0; alloc_size = 0 }

-- The table before the new entry is written: allocated, or grown to twice its size.
unfoldable pub make_room : {S : Type 0} → PortTable S → Option (List (Port S)) → PortTable S
make_room t none = record { bop_ports = some []; num_ports = 0; alloc_size = 10 }
make_room t (some ports) =
    if t.num_ports == t.alloc_size then record t { alloc_size = t.alloc_size * 2 % 2 ^ 32 } else t

-- `bop_ports[ num_ports ] = port; num_ports ++;`
unfoldable pub append_port :
    {S : Type 0} → PortTable S → Port S → Option (List (Port S)) → PortTable S
append_port t port none = t
append_port t port (some ports) = record t {
  bop_ports = some (ports ++ (port ∷ []));
  num_ports = (t.num_ports + 1) % 2 ^ 32;
}

-- `none` is the failure of the assertion that the task is sequential.
unfoldable pub register_port :
    {S : Type 0} → TaskStatus → PortTable S → Port S → Option (PortTable S)
unfolding make_room append_port
register_port TaskStatus.seq t port =
    let t' = make_room t t.bop_ports in some (append_port t' port t'.bop_ports)
register_port _ t port = none

module _ {S : Type 0} where
  unfoldable pub port_call : Option (S → S) → S → S
  port_call none s = s
  port_call (some func) s = func s

  -- TRUE where the port has no such function.
  unfoldable pub port_call_int_func : Option (S → S × Bool) → S → S × Bool
  port_call_int_func none s = (s, true)
  port_call_int_func (some func) s = func s

  -- `for (i = 0; i < num_ports; i ++) port_call( bop_ports[i]->... );`, one loop for each function.
  unfoldable pub call_all : (Port S → Option (S → S)) → List (Port S) → S → S
  unfolding port_call
  call_all field [] s = s
  call_all field (p ∷ ps) s = call_all field ps (port_call (field p) s)

  unfoldable pub report_conflict : ℕ → List (Port S) → S → S
  report_conflict conflict_addr =
      call_all (λ p. elim p.report_conflict [ none ↦ none | some func ↦ some (func conflict_addr) ])

  -- `passed && ...`: what comes next is called only if the last check passed.
  unfoldable pub and_then : S × Bool → (S → S × Bool) → S × Bool
  and_then (s, true) next = next s
  and_then (s, false) next = (s, false)

  -- The loop runs while the checks pass.
  unfoldable pub check_all : List (Port S) → S → S × Bool
  unfolding port_call_int_func and_then
  check_all [] s = (s, true)
  check_all (p ∷ ps) s = and_then (port_call_int_func p.ppr_check_correctness s) (check_all ps)

  -- `conflict_addr` is a global variable of bop_merge.c, read after the checks.
  unfoldable pub conclude : (S → ℕ) → List (Port S) → S × Bool → S × Bool
  unfolding report_conflict
  conclude conflict_addr ports (s, true) = (s, true)
  conclude conflict_addr ports (s, false) = (report_conflict (conflict_addr s) ports s, false)

  unfoldable pub ppr_check_correctness : (S → ℕ) → List (Port S) → S → S × Bool
  unfolding check_all conclude
  ppr_check_correctness conflict_addr ports s = conclude conflict_addr ports (check_all ports s)

  -- The loops that call one function of each port. A test for NULL before the call changes nothing.
  unfoldable pub ppr_group_init : List (Port S) → S → S
  ppr_group_init ports = call_all (λ p. p.ppr_group_init) ports

  unfoldable pub ppr_task_init : List (Port S) → S → S
  ppr_task_init ports = call_all (λ p. p.ppr_task_init) ports

  unfoldable pub data_commit : List (Port S) → S → S
  data_commit ports = call_all (λ p. p.data_commit) ports

  unfoldable pub task_group_commit : List (Port S) → S → S
  task_group_commit ports = call_all (λ p. p.task_group_commit) ports

  unfoldable pub task_group_succ_fini : List (Port S) → S → S
  task_group_succ_fini ports = call_all (λ p. p.task_group_succ_fini) ports

  unfoldable pub undy_init : List (Port S) → S → S
  undy_init ports = call_all (λ p. p.undy_init) ports

  unfoldable pub undy_succ_fini : List (Port S) → S → S
  undy_succ_fini ports = call_all (λ p. p.undy_succ_fini) ports

  unfoldable pub on_exit_ordered : List (Port S) → S → S
  on_exit_ordered ports = call_all (λ p. p.on_exit_ordered) ports

  unfoldable pub on_enter_ordered : List (Port S) → S → S
  on_enter_ordered ports = call_all (λ p. p.on_enter_ordered) ports

  unfoldable pub on_main_complete : List (Port S) → S → S
  on_main_complete ports = call_all (λ p. p.on_main_complete) ports
