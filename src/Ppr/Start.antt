-- ===== src/Ppr/Start.antt =====
-- `BOP_init` of bop_ppr.c: the limits from the environment, the shared record, the monitor process, and
-- the ports. What the system calls bring is given.
use cbop.Prelude.{
  ℕ, ◌≤◌, ◌≡◌, ◌⊎◌, inl, inr, refl, ◌∙◌, Bool, true, false, List, [], ◌∷◌, Option, none, some,
  arith, ltb, ◌==◌, if◌then◌else◌, Bool-cases,
}
use cbop.Task.{TaskStatus, BopMode, CInt, get_int_from_env, get_int_from_env_bounds}
use cbop.Sync.{Call, done, SyncStatus, SyncData, ppr_group_set_size}
use cbop.Sync.Laws.{IsReady, ppr_group_set_size-IsReady}
use cbop.Ports.{Port, PortTable, no_ports, register_port}
use cbop.Ppr.{Fork}

-- `BOP_Verbose` and `BOP_GroupSize`, as `atoi` reads them; `none` is not set.
pub record Environment : Type 0 where
  pub verbose : Option CInt
  pub group_size : Option CInt

-- What the system calls bring: the process group before the start, the process that goes on, the one
-- that the fork has made, and whether `setpgid` works.
pub record Kernel : Type 0 where
  pub pgrp : ℕ
  pub pid : ℕ
  pub child_pid : ℕ
  pub fork : Fork
  pub setpgid_works : Bool

-- The program behind its start. `monitor_group` is the number of the group; 0 is the initial value.
pub record Started (S : Type 0) : Type 0 where
  pub bop_verbose : ℕ
  pub mode : BopMode
  pub status : TaskStatus
  pub monitor_group : ℕ
  pub sync : Option SyncData
  pub ports : PortTable S
  pub exit_registered : Bool

-- The process ends, it is the monitor of a group, or it goes on.
pub data Startup (S : Type 0) : Type 0 where
  exits : ℕ → Startup S
  failed_assert : Startup S
  monitors : ℕ → Startup S
  runs : Started S → Startup S

unfoldable pub mode_of : ℕ → BopMode
mode_of g = if ltb g 2 then BopMode.serial else BopMode.parallel

-- The calls of `register_port`, in their order.
unfoldable pub register_all : {S : Type 0} → List (Port S) → PortTable S → Option (PortTable S)
unfolding register_port
register_all [] t = some t
register_all (p ∷ ps) t = elim (register_port TaskStatus.seq t p) [
  | none ↦ none
  | some t' ↦ register_all ps t'
]

-- From the assertion on: the process group against that of the tasks.
unfoldable pub load_ports : {S : Type 0} → List (Port S) → ℕ → Started S → Startup S
unfolding register_all
load_ports ports pgrp st =
    if pgrp == st.monitor_group
    then elim (register_all ports st.ports) [
      | none ↦ failed_assert
      | some t ↦ runs (record st { status = TaskStatus.seq; ports = t })
    ]
    else failed_assert

-- Only a parallel program has a monitor, and only its child registers `BOP_fini`.
unfoldable pub split_monitor :
    {S : Type 0} → BopMode → Fork → Kernel → List (Port S) → Started S → Startup S
unfolding load_ports
split_monitor BopMode.serial fork k ports st = load_ports ports k.pgrp st
split_monitor BopMode.parallel Fork.failed k ports st = exits 255
split_monitor BopMode.parallel Fork.parent k ports st = monitors k.child_pid
split_monitor BopMode.parallel Fork.child k ports st =
    if k.setpgid_works
    then load_ports ports k.pid (record st { monitor_group = k.pid; exit_registered = true })
    else exits 255

unfoldable pub with_sizes :
    {S : Type 0} → Kernel → List (Port S) → (ℕ → SyncStatus) → ℕ → ℕ → Startup S
unfolding split_monitor mode_of
with_sizes k ports rest v g = elim (ppr_group_set_size TaskStatus.seq g rest none) [
  | Call.done sync ↦ split_monitor (mode_of g) k.fork k ports (record {
    bop_verbose = v;
    mode = mode_of g;
    status = TaskStatus.seq;
    monitor_group = 0;
    sync = sync;
    ports = no_ports;
    exit_registered = false;
  })
  | Call.blocked ↦ failed_assert
  | Call.asserted ↦ failed_assert
  | Call.fault ↦ failed_assert
]

unfoldable pub bop_init :
    {S : Type 0} → Environment → Kernel → List (Port S) → (ℕ → SyncStatus) → Startup S
unfolding with_sizes get_int_from_env
bop_init env k ports rest = elim (get_int_from_env env.verbose 0 6 0) [
  | none ↦ failed_assert
  | some v ↦ elim (get_int_from_env env.group_size 1 100 2) [
    | none ↦ failed_assert
    | some g ↦ with_sizes k ports rest v g
  ]
]

module _ {S : Type 0} (merge postwait ordered io alloc : Port S) where
  abbrev pub all_ports : List (Port S)
  all_ports = merge ∷ postwait ∷ ordered ∷ io ∷ alloc ∷ []

  five_ports : PortTable S
  five_ports = record { bop_ports = some all_ports; num_ports = 5; alloc_size = 10 }

  register_all-all_ports : register_all all_ports no_ports ≡ some five_ports
  unfolding register_all register_port five_ports
  register_all-all_ports = refl

  -- The first sequential task, in a group that is its own.
  pub record IsStarted (g : ℕ) (k : Kernel) (st : Started S) : Type 0 where
    pub sequential : st.status ≡ TaskStatus.seq
    pub parallel : st.mode ≡ BopMode.parallel
    pub own_group : st.monitor_group ≡ k.pid
    pub sizes : (d : SyncData) × (st.sync ≡ some d) × IsReady g d
    pub in_order : st.ports.bop_ports ≡ some all_ports
    pub will_exit : st.exit_registered ≡ true

  -- What the start of a parallel program comes to, by the fork.
  abbrev pub Starts : ℕ → Kernel → Fork → Startup S → Type 0
  Starts g k Fork.failed out = out ≡ exits 255
  Starts g k Fork.parent out = out ≡ monitors k.child_pid
  Starts g k Fork.child out =
      ((k.setpgid_works ≡ false) × (out ≡ exits 255))
      ⊎ ((st : Started S) × (out ≡ runs st) × IsStarted g k st)

  module _ (env : Environment) (k : Kernel) (rest : ℕ → SyncStatus) where
    abbrev at_split : ℕ → BopMode → SyncData → Started S
    at_split v m d = record {
      bop_verbose = v;
      mode = m;
      status = TaskStatus.seq;
      monitor_group = 0;
      sync = some d;
      ports = no_ports;
      exit_registered = false;
    }

    to_split :
        (v g : ℕ) (d : SyncData)
        → get_int_from_env env.verbose 0 6 0 ≡ some v
        → get_int_from_env env.group_size 1 100 2 ≡ some g
        → ppr_group_set_size TaskStatus.seq g rest none ≡ done (some d)
        → bop_init env k all_ports rest
          ≡ split_monitor (mode_of g) k.fork k all_ports (at_split v (mode_of g) d)
    unfolding bop_init
    to_split v g d ev eg sized = rw (ev, eg, with_sizes, sized) refl

    loaded :
        (pgrp : ℕ) (st : Started S)
        → st.ports ≡ no_ports
        → st.monitor_group ≡ pgrp
        → load_ports all_ports pgrp st
          ≡ runs (record st { status = TaskStatus.seq; ports = five_ports })
    unfolding load_ports
    loaded pgrp st p e = ground (arith, p, e, register_all-all_ports)

    split-Starts :
        (v g : ℕ) (d : SyncData) (fork : Fork)
        → IsReady g d
        → Starts g k fork
            (split_monitor BopMode.parallel fork k all_ports (at_split v BopMode.parallel d))
    unfolding split_monitor five_ports
    split-Starts v g d Fork.failed ready = refl
    split-Starts v g d Fork.parent ready = refl
    split-Starts v g d Fork.child ready = elim (Bool-cases k.setpgid_works) [
      | inl works ↦
          let st : Started S = record (at_split v BopMode.parallel d) {
            monitor_group = k.pid;
            exit_registered = true;
          } in
          inr (
            record st { ports = five_ports },
            rw works (loaded k.pid st refl refl),
            record {
              sequential = refl;
              parallel = refl;
              own_group = refl;
              sizes = (d, refl, ready);
              in_order = refl;
              will_exit = refl;
            },
          )
      | inr fails ↦ inl (fails, rw fails refl)
    ]

    serial-fails :
        (v g : ℕ) (d : SyncData)
        → 1 ≤ k.pgrp
        → split_monitor BopMode.serial k.fork k all_ports (at_split v BopMode.serial d)
          ≡ failed_assert
    unfolding split_monitor load_ports
    serial-fails v g d some_group = ground (arith, some_group)

    -- The limits of the environment give a size of 1 to 100. With size 1 the start fails its
    -- assertion on the process group, since a process group has a number of at least 1. With a larger
    -- size a failed fork ends the program, the parent becomes the monitor, and the child, where it gets
    -- a group of its own, goes on as the sequential task, with a record that is ready for the group, the
    -- five ports in their order, and its exit registered.
    pub bop_init-Starts :
        1 ≤ k.pgrp
        → (g : ℕ) × (get_int_from_env env.group_size 1 100 2 ≡ some g)
          × (1 ≤ g)
          × (g ≤ 100)
          × (((g ≡ 1) × (bop_init env k all_ports rest ≡ failed_assert))
              ⊎ ((2 ≤ g) × Starts g k k.fork (bop_init env k all_ports rest)))
    unfolding mode_of
    bop_init-Starts some_group =
        let (v, ev, lv, hv) =
          get_int_from_env_bounds env.verbose 0 6 0 (omega arith) (omega arith) (omega arith) in
        let (g, e, low, high) =
          get_int_from_env_bounds env.group_size 1 100 2 (omega arith) (omega arith)
            (omega arith) in
        let (d, sized, ready) = ppr_group_set_size-IsReady g rest none low high tt in
        (
          g,
          e,
          low,
          high,
          elim (Bool-cases (ltb g 2)) [
            | inl one ↦ inl (
              ground (arith, one, low),
              to_split v g d ev e sized ∙ rw one (serial-fails v g d some_group),
            )
            | inr more ↦ inr (
              ground (arith, more),
              rw (to_split v g d ev e sized, more) (split-Starts v g d k.fork ready),
            )
          ],
        )
