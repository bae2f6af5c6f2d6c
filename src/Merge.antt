-- ===== src/Merge.antt =====
-- bop_merge.c: what a task accesses, the patch that it makes of its writes, and the patches' way into
-- the memory of the task that survives. A memory is a function from addresses to bytes. The memory
-- space that the patches stand in is a parameter: `calloc n` is the address of its n-th allocation.
pub mod Record
pub mod Patch
pub mod Commit
pub mod Overlay
pub mod Cleared
pub mod Check
pub mod Group
pub mod Memmove
pub mod Tasks
use cbop.Prelude.{
  ℕ, zero, suc, ◌+◌, ◌-◌, ◌%◌, ◌^◌, Bool, true, false, List, [], ◌∷◌, Option, none, some, ltb, ◌==◌,
  if◌then◌else◌,
}
use cbop.Task.{TaskStatus, PprPos}
use cbop.RangeTree.Range.{MemRange, within}
use cbop.RangeTree.Tree.{to_list}
use cbop.RangeTree.Map.{RangeMap, init_empty_map, map_clear, map_to_array}
use cbop.RangeTree.Add.{map_add_range, add_range}

-- The maps of a task, with that of its ordered region.
pub record AccessMaps : Type 0 where
  pub read_map : RangeMap
  pub write_map : RangeMap
  pub in_ordered_region : Bool
  pub ordered_writes : RangeMap

-- `task_status == UNDY || task_status == SEQ`
unfoldable pub is_outside_group : TaskStatus → Bool
is_outside_group TaskStatus.undy = true
is_outside_group TaskStatus.seq = true
is_outside_group _ = false

unfoldable pub is_at_gap : PprPos → Bool
is_at_gap PprPos.gap = true
is_at_gap _ = false

-- The early returns of both recording functions.
unfoldable pub is_ignored : TaskStatus → PprPos → AccessMaps → Bool
unfolding is_outside_group is_at_gap
is_ignored status pos maps =
    if is_outside_group status
    then true
    else (if is_at_gap pos then true else maps.read_map.residence == 0)

-- `none` is the failure of the assertion that the size is not 0.
unfoldable pub record_read : TaskStatus → PprPos → ℕ → ℕ → AccessMaps → Option AccessMaps
unfolding is_ignored
record_read status pos addr size maps =
    if is_ignored status pos maps
    then some maps
    else elim (map_add_range maps.read_map addr size 0) [
      | none ↦ none
      | some reads ↦ some (record maps { read_map = reads })
    ]

unfoldable pub record_ordered : ℕ → ℕ → AccessMaps → Option AccessMaps
record_ordered addr size maps =
    if maps.in_ordered_region
    then elim (map_add_range maps.ordered_writes addr size 0) [
      | none ↦ none
      | some writes ↦ some (record maps { ordered_writes = writes })
    ]
    else some maps

unfoldable pub record_write : TaskStatus → PprPos → ℕ → ℕ → AccessMaps → Option AccessMaps
unfolding is_ignored record_ordered
record_write status pos addr size maps =
    if is_ignored status pos maps
    then some maps
    else elim (map_add_range maps.write_map addr size 0) [
      | none ↦ none
      | some writes ↦ record_ordered addr size (record maps { write_map = writes })
    ]

-- At the start of a task.
unfoldable pub ppr_reset : AccessMaps → AccessMaps
ppr_reset maps = record maps {
  read_map = map_clear maps.read_map;
  write_map = map_clear maps.write_map;
}

abbrev pub Memory : Type 0
Memory = ℕ → ℕ

-- The blocks of the shared space by their address, with the number of allocations and the addresses
-- that were freed.
pub record Space : Type 0 where
  pub blocks : ℕ → ℕ → ℕ
  pub made : ℕ
  pub freed : List ℕ

-- `patch_inject_t`, with the space.
pub record PatchInject : Type 0 where
  pub space : Space
  pub patch : RangeMap
  pub total : ℕ

-- `map_inject`: the function runs over the ranges in their order.
unfoldable pub inject : {S : Type 0} → (S → MemRange → S) → S → List MemRange → S
inject func sum [] = sum
inject func sum (r ∷ rs) = inject func (func sum r) rs

-- `memcpy` of a range into a block that `calloc` has cleared.
unfoldable pub fill_block : Memory → MemRange → (ℕ → ℕ → ℕ) → ℕ → ℕ → ℕ → ℕ
fill_block memory range blocks data_rec a i =
    if a == data_rec then (if ltb i range.size then memory (range.base + i) else 0) else blocks a i

module _ (calloc : ℕ → ℕ) where
  unfoldable pub add_range_block : Memory → PatchInject → MemRange → PatchInject
  add_range_block memory sum range = record {
    space = record sum.space {
      blocks = fill_block memory range sum.space.blocks (calloc sum.space.made);
      made = sum.space.made + 1;
    };
    patch = add_range sum.patch range.base range.size (calloc sum.space.made);
    total = (sum.total + range.size) % 2 ^ 32;
  }

  unfoldable pub create_patch : Memory → RangeMap → ℕ → Space → PatchInject
  unfolding inject add_range_block
  create_patch memory change_set residence space =
      inject (add_range_block memory)
        (record { space = space; patch = init_empty_map residence; total = 0 })
        (to_list change_set.root)

  -- `ppr_commit` by one task after the other: each makes a patch of its write map and its memory. The
  -- last task of a group, which commits the group, is none of them.
  unfoldable pub commit_tasks : ℕ → Space → List (RangeMap × Memory) → Space × List RangeMap
  unfolding create_patch
  commit_tasks residence space [] = (space, [])
  commit_tasks residence space ((write_map, memory) ∷ tasks) =
      let made = create_patch memory write_map residence space in
      let (space', patches) = commit_tasks residence made.space tasks in
      (space', made.patch ∷ patches)

-- The array with the patches of its first tasks written; those behind stay as they were.
unfoldable pub fill_patches : List RangeMap → List RangeMap → List RangeMap
fill_patches [] patches = patches
fill_patches (made ∷ mades) [] = []
fill_patches (made ∷ mades) (p ∷ ps) = made ∷ fill_patches mades ps

-- The memory and the running sum.
unfoldable pub apply_range_block : (ℕ → ℕ → ℕ) → Memory × ℕ → MemRange → Memory × ℕ
apply_range_block blocks (memory, sum) range = (
  (λ a. if within range.base range.size a then blocks range.rec (a - range.base) else memory a),
  (sum + range.size) % 2 ^ 32,
)

-- The memory, and the map that is left.
unfoldable pub apply_patch : (ℕ → ℕ → ℕ) → RangeMap → Memory → Memory × RangeMap
unfolding inject apply_range_block
apply_patch blocks patch memory =
    ((inject (apply_range_block blocks) (memory, 0) (to_list patch.root)).0, map_clear patch)

unfoldable pub free_range_data : List ℕ → MemRange → List ℕ
free_range_data freed range = range.rec ∷ freed

-- The addresses that are freed, and the map that is left.
unfoldable pub clear_patch : RangeMap → List ℕ → List ℕ × RangeMap
unfolding inject free_range_data
clear_patch patch freed = (inject free_range_data freed (to_list patch.root), map_clear patch)

-- The loops of `ppr_group_commit` over the first patches; `none` is an access beyond their array.
unfoldable pub apply_first :
    ℕ → (ℕ → ℕ → ℕ) → List RangeMap → Memory → Option (Memory × List RangeMap)
unfolding apply_patch
apply_first zero blocks patches memory = some (memory, patches)
apply_first (suc n) blocks [] memory = none
apply_first (suc n) blocks (p ∷ ps) memory =
    let (memory', p') = apply_patch blocks p memory in
    elim (apply_first n blocks ps memory') [ none ↦ none | some (m, ps') ↦ some (m, p' ∷ ps') ]

unfoldable pub clear_first : ℕ → List RangeMap → List ℕ → Option (List ℕ × List RangeMap)
unfolding clear_patch
clear_first zero patches freed = some (freed, patches)
clear_first (suc n) [] freed = none
clear_first (suc n) (p ∷ ps) freed =
    let (freed', p') = clear_patch p freed in
    elim (clear_first n ps freed') [ none ↦ none | some (f, ps') ↦ some (f, p' ∷ ps') ]

-- What the commit of a group leaves.
pub record Committed : Type 0 where
  pub memory : Memory
  pub patches : List RangeMap
  pub space : Space

unfoldable pub ppr_group_commit : ℕ → List RangeMap → Space → Memory → Option Committed
unfolding apply_first clear_first
ppr_group_commit spec_order patches space memory =
    elim (apply_first (spec_order + 1) space.blocks patches memory) [
      | none ↦ none
      | some (memory', applied) ↦ elim (clear_first (spec_order + 1) applied space.freed) [
        | none ↦ none
        | some (freed, cleared) ↦
            some (record {
              memory = memory';
              patches = cleared;
              space = record space { freed = freed };
            })
      ]
    ]
