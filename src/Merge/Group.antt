-- ===== src/Merge/Group.antt =====
-- The start of a group in bop_merge.c and postwait.c: the patches and the shared map are made ready, and
-- the blocks of the channels' patches are freed.
use cbop.Prelude.{
  ℕ, zero, suc, ◌-◌, ◌≤◌, ◌<◌, ◌≡◌, refl, Bool, false, List, [], ◌∷◌, ◌++◌, Option, none, some, ltb,
  ◌==◌, length, length-append, get_elem?, arith, if◌then◌else◌, Bool-cases, inl, inr,
}
use cbop.Task.{TaskStatus}
use cbop.RangeTree.Tree.{to_list}
use cbop.RangeTree.Map.{RangeMap, IsWellFormed, covered, init_empty_map, map_clear}
use cbop.RangeTree.SetOps.Union.{init_empty_map-IsWellFormed}
use cbop.RangeTree.SetOps.Intersect.{map_clear-IsWellFormed}
use cbop.Merge.{Memory, Space, clear_patch}
use cbop.Merge.Check.{answered, CheckState}
use cbop.Merge.Check.Serial.{TaskRun, AllRecorded, DisjointWrites, check_tasks}
use cbop.Merge.Check.Refine.{Serial, check_tasks-Serial}
use cbop.Postwait.{LocalChannel, channel_local_reset}
use cbop.Postwait.Board.{Channel, Board}

-- The shared variables of bop_merge.c; the patches are the array, and `num_patches` their use.
pub record MergeState : Type 0 where
  pub write_union : RangeMap
  pub patches : List RangeMap
  pub num_patches : ℕ
  pub read_map : RangeMap
  pub write_map : RangeMap

unfoldable pub copies : ℕ → RangeMap → List RangeMap
copies zero m = []
copies (suc n) m = m ∷ copies n m

-- `calloc` and `realloc` of the patches; `junk` is what a patch holds that is new in a larger array.
unfoldable pub larger : RangeMap → ℕ → ℕ → List RangeMap → List RangeMap
unfolding copies
larger junk num gs patches = if ltb num gs then patches ++ copies (gs - num) junk else patches

unfoldable pub bop_merge_init : ℕ → ℕ → RangeMap → RangeMap → ℕ → Option MergeState → MergeState
unfolding larger copies
bop_merge_init commit_space metacow_space blank junk gs none = record {
  write_union = init_empty_map commit_space;
  patches = copies gs blank;
  num_patches = gs;
  read_map = init_empty_map metacow_space;
  write_map = init_empty_map metacow_space;
}
bop_merge_init commit_space metacow_space blank junk gs (some s) = record s {
  write_union = map_clear s.write_union;
  patches = larger junk s.num_patches gs s.patches;
  num_patches = gs;
}

-- What a task has received and used, with the channel that it fills.
pub record PostwaitTask : Type 0 where
  pub local : LocalChannel
  pub received : RangeMap
  pub received_n_used : RangeMap

-- At the start of a task.
unfoldable pub ppr_reset : PostwaitTask → PostwaitTask
unfolding channel_local_reset
ppr_reset t = record {
  local = channel_local_reset t.local;
  received = map_clear t.received;
  received_n_used = map_clear t.received_n_used;
}

-- The loop over the first n channels of the board, with the blocks that are freed.
unfoldable pub clear_channels : ℕ → (ℕ → Channel) → List ℕ → List ℕ
unfolding clear_patch
clear_channels zero channels freed = freed
clear_channels (suc n) channels freed =
    let before = clear_channels n channels freed in
    if (channels n).id == 0 then before else (clear_patch (channels n).patch before).0

unfoldable pub clear_channel_shm_data : Board → List ℕ → List ℕ
unfolding clear_channels
clear_channel_shm_data b freed = clear_channels b.size b.channels freed

-- The state that the checks of a new group start in.
unfoldable pub checks_of : MergeState → PostwaitTask → CheckState
unfolding ppr_reset
checks_of s t = record {
  write_union = s.write_union;
  received = (ppr_reset t).received;
  received_n_used = (ppr_reset t).received_n_used;
  conflict_addr = 0;
}

length-copies : (n : ℕ) (m : RangeMap) → length (copies n m) ≡ n
unfolding copies
length-copies zero m = refl
length-copies (suc n) m = omega (arith, length-copies n m)

-- The map of a new group is well formed and covers nothing.
empty_union :
    (commit_space metacow_space gs : ℕ) (blank junk : RangeMap) (old : Option MergeState)
    → IsWellFormed (bop_merge_init commit_space metacow_space blank junk gs old).write_union
      × ((a : ℕ)
          → covered (bop_merge_init commit_space metacow_space blank junk gs old).write_union a
            ≡ false)
unfolding bop_merge_init
empty_union commit_space metacow_space gs blank junk none = init_empty_map-IsWellFormed commit_space
empty_union commit_space metacow_space gs blank junk (some s) = map_clear-IsWellFormed s.write_union

-- There is a patch for every task of the new group.
pub bop_merge_init-patches :
    (commit_space metacow_space gs : ℕ) (blank junk : RangeMap) (s : MergeState)
    → s.num_patches ≤ length s.patches
    → gs ≤ length (bop_merge_init commit_space metacow_space blank junk gs (some s)).patches
unfolding bop_merge_init larger
bop_merge_init-patches commit_space metacow_space gs blank junk s h =
    elim (Bool-cases (ltb s.num_patches gs)) [
      | inl more ↦ ground (
        arith,
        more,
        length-append s.patches (copies (gs - s.num_patches) junk),
        length-copies (gs - s.num_patches) junk,
      )
      | inr enough ↦ ground (arith, enough)
    ]

abbrev pub AllCleared : List RangeMap → Type 0
AllCleared [] = Unit
AllCleared (p ∷ ps) = (to_list p.root ≡ []) × AllCleared ps

-- The patches that a new group finds have no ranges: the first group's are cleared by `calloc`; a later
-- group's were cleared by the commit of the one before, and the array need not grow.
abbrev pub HasCleared : ℕ → RangeMap → Option MergeState → Type 0
HasCleared gs blank none = to_list blank.root ≡ []
HasCleared gs blank (some s) =
    (gs ≤ s.num_patches) × (s.num_patches ≤ length s.patches) × AllCleared s.patches

AllCleared-at :
    (ps : List RangeMap) (i : ℕ)
    → i < length ps
    → AllCleared ps
    → (p : RangeMap) × (get_elem? ps i ≡ some p) × (to_list p.root ≡ [])
AllCleared-at [] i lt h = absurd (omega (arith, lt))
AllCleared-at (p ∷ ps) zero lt h = (p, refl, h.0)
AllCleared-at (p ∷ ps) (suc i) lt h = AllCleared-at ps i (omega (arith, lt)) h.1

copies-AllCleared : (n : ℕ) (m : RangeMap) → to_list m.root ≡ [] → AllCleared (copies n m)
unfolding copies
copies-AllCleared zero m e = tt
copies-AllCleared (suc n) m e = (e, copies-AllCleared n m e)

-- So has every task of the group.
bop_merge_init-cleared :
    (commit_space metacow_space gs : ℕ) (blank junk : RangeMap) (old : Option MergeState) (i : ℕ)
    → HasCleared gs blank old
    → i < gs
    → (p : RangeMap) × (get_elem?
          (bop_merge_init commit_space metacow_space blank junk gs old).patches
          i
        ≡ some p)
      × (to_list p.root ≡ [])
unfolding bop_merge_init larger
bop_merge_init-cleared commit_space metacow_space gs blank junk none i h lt =
    AllCleared-at (copies gs blank) i (omega (arith, lt, length-copies gs blank))
      (copies-AllCleared gs blank h)
bop_merge_init-cleared commit_space metacow_space gs blank junk (some s) i h lt =
    let same : ltb s.num_patches gs ≡ false = ground (arith, h.0) in
    rw same (AllCleared-at s.patches i (omega (arith, lt, h.0, h.1)) h.2)

module _ (calloc : ℕ → ℕ) (fresh : (i j : ℕ) → calloc i ≡ calloc j → i ≡ j)
    (residence clone ppr_index : ℕ) (before : List TaskRun) (last : TaskRun) (spec_order : ℕ)
    (space : Space) (memory : Memory) (commit_space metacow_space gs : ℕ) (blank junk : RangeMap)
    (old : Option MergeState) (t : PostwaitTask) where
  abbrev pub starting : CheckState
  starting = checks_of (bop_merge_init commit_space metacow_space blank junk gs old) t

  -- The array of the patches at the start of the group.
  abbrev pub patches_at_start : List RangeMap
  patches_at_start = (bop_merge_init commit_space metacow_space blank junk gs old).patches

  -- A group, the first one or a later one that finds its patches cleared and no more tasks than there were
  -- patches, of tasks that have recorded their accesses, that have received no data, and no two of which
  -- write one address, has all its checks answered up to the first that fails. If all pass, and all tasks
  -- but the last have made their patches, the commit of the group by the last one, on its own memory,
  -- succeeds, and leaves the memory that the tasks leave when they run one after the other. If one fails,
  -- some task read an address that an earlier one wrote.
  pub bop_merge_init-Serial :
      length before ≡ spec_order
      → spec_order < gs
      → HasCleared gs blank old
      → AllRecorded (before ++ (last ∷ []))
      → DisjointWrites (before ++ (last ∷ []))
      → (out : Bool × CheckState) × (check_tasks clone ppr_index TaskStatus.main
            (before ++ (last ∷ []))
            starting
          ≡ answered out)
        × Serial calloc residence spec_order patches_at_start before last space memory out
  unfolding checks_of ppr_reset map_clear
  bop_merge_init-Serial e inside cleared rec d =
      let (valid, none_covered) = empty_union commit_space metacow_space gs blank junk old in
      let (p, at, empty) =
        bop_merge_init-cleared commit_space metacow_space gs blank junk old spec_order cleared
          inside in
      check_tasks-Serial calloc fresh residence clone ppr_index before last spec_order
        patches_at_start p space memory starting e at empty rec d valid none_covered refl
