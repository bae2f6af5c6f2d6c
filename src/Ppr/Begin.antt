-- ===== src/Ppr/Begin.antt =====
-- `_BOP_ppr_begin` of bop_ppr.c: which task enters a region, and as what.
use cbop.Prelude.{ℕ, ◌≤◌, ◌<◌, ◌≡◌, Bool, true, false, List, [], ◌∷◌, arith, ◌⊎◌}
use cbop.Task.{TaskStatus, PprPos, BopMode, CInt, natural, negative}
use cbop.Ppr.{Task, Effect, Fork, ppr_begin, next_order}

-- The order of a task lies within the part of the group that still runs; a sequential task and the
-- understudy stand outside the group.
abbrev pub InGroup : TaskStatus → CInt → ℕ → Type 0
InGroup TaskStatus.main order partial = (order ≡ natural 0) × (1 ≤ partial)
InGroup TaskStatus.spec (natural n) partial = n < partial
InGroup TaskStatus.spec (negative n) partial = ⊥
InGroup _ order partial = Unit

pub record IsValid (t : Task) : Type 0 where
  pub sized : 1 ≤ t.group_size
  pub placed : InGroup t.status t.spec_order t.partial_size

-- Entering a region, with any outcome of the fork, leaves the task within its group.
pub ppr_begin-IsValid :
    (id : ℕ) (fork : Fork) (t : Task)
    → IsValid t
    → t.mode ≡ BopMode.parallel
    → IsValid (ppr_begin id fork t).task
unfolding ppr_begin
ppr_begin-IsValid id fork t v p = ground arith

abbrev pub fails : List Effect → Bool
fails [] = false
fails (Effect.failed_assert ∷ es) = true
fails (e ∷ es) = fails es

-- With a partial size as the group's size allows it, no assertion of the group's or the task's initialisation fails on the way.
pub fails-ppr_begin :
    (id : ℕ) (fork : Fork) (t : Task)
    → IsValid t
    → t.mode ≡ BopMode.parallel
    → t.partial_size ≤ 100
    → fails (ppr_begin id fork t).effects ≡ false
unfolding ppr_begin
fails-ppr_begin id fork t v p small = ground arith

-- The call returns 1, so that the caller jumps behind the region, only in a new child: it is then a
-- speculative task of the next order, in the gap behind this region, and its parent was sequential
-- or stood itself in a gap.
pub ppr_begin-jumped :
    (id : ℕ) (fork : Fork) (t : Task)
    → (ppr_begin id fork t).jumped ≡ true
    → (fork ≡ Fork.child)
      × ((ppr_begin id fork t).task.status ≡ TaskStatus.spec)
      × ((ppr_begin id fork t).task.pos ≡ PprPos.gap)
      × ((ppr_begin id fork t).task.static_id ≡ id)
      × (((t.status ≡ TaskStatus.seq) × ((ppr_begin id fork t).task.spec_order ≡ natural 1))
          ⊎ ((t.status ≡ TaskStatus.spec)
              × (t.pos ≡ PprPos.gap)
              × ((ppr_begin id fork t).task.spec_order ≡ next_order t.spec_order)))
unfolding ppr_begin
ppr_begin-jumped id fork t j = ground arith
