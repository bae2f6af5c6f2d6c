-- ===== src/Task.antt =====
-- The task state that bop_api.h declares, bop_ppr.c holds and utils.c reads.
use cbop.Prelude.{ℕ, ◌+◌, ◌≤◌, ◌<◌, ◌≡◌, Option, none, some, arith, ltb, if◌then◌else◌}

-- `task_status_t`
pub data TaskStatus : Type 0 where
  seq undy main spec : TaskStatus

-- `ppr_pos_t`
pub data PprPos : Type 0 where
  ppr gap pseq : PprPos

-- `bop_mode_t`
pub data BopMode : Type 0 where
  serial parallel : BopMode

-- In a gap the index is that of the PPR to come.
unfoldable pub bop_ppr_index : PprPos → ℕ → ℕ
bop_ppr_index gap ppr_index = ppr_index + 1
bop_ppr_index ppr ppr_index = ppr_index
bop_ppr_index pseq ppr_index = ppr_index

-- A C int: `negative n` is -(n + 1).
pub data CInt : Type 0 where
  natural negative : ℕ → CInt

-- `if ( ival < min ) ival = min;` for a limit that is not negative.
unfoldable pub raise_to : ℕ → CInt → ℕ
raise_to lo (natural n) = if ltb n lo then lo else n
raise_to lo (negative n) = lo

-- The value of an environment variable, as `atoi` reads it, clamped; the outer `none` is the failure
-- of the assertion, the inner one a variable that is not set. The limits of all calls are natural.
unfoldable pub get_int_from_env : Option CInt → ℕ → ℕ → ℕ → Option ℕ
unfolding raise_to
get_int_from_env cval lo hi def =
    if ltb lo hi
    then elim cval [
      | none ↦ some def
      | some ival ↦ let raised = raise_to lo ival in some (if ltb hi raised then hi else raised)
    ]
    else none

-- Whatever the environment holds, the call returns a value between the limits, if the default does
-- lie there.
pub get_int_from_env_bounds :
    (cval : Option CInt) (lo hi def : ℕ)
    → lo < hi
    → lo ≤ def
    → def ≤ hi
    → (v : ℕ) × (get_int_from_env cval lo hi def ≡ some v) × (lo ≤ v) × (v ≤ hi)
unfolding get_int_from_env
get_int_from_env_bounds none lo hi def h p q = (def, ground arith, p, q)
get_int_from_env_bounds (some (natural k)) lo hi def h p q = (
  (if ltb hi (if ltb k lo then lo else k) then hi else (if ltb k lo then lo else k)),
  ground arith,
  ground arith,
  ground arith,
)
get_int_from_env_bounds (some (negative k)) lo hi def h p q =
    (lo, ground arith, ground arith, ground arith)
