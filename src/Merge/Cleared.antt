-- ===== src/Merge/Cleared.antt =====
-- What the commit of a group in bop_merge.c leaves for the next group: patches without a range.
use cbop.Prelude.{ℕ, zero, suc, ◌+◌, ◌≤◌, ◌<◌, ◌≡◌, refl, ap, List, [], ◌∷◌, some, arith, length}
use cbop.RangeTree.Tree.{to_list}
use cbop.RangeTree.Map.{RangeMap, map_clear}
use cbop.Merge.{
  Memory, Space, Committed, apply_patch, apply_first, clear_patch, clear_first, ppr_group_commit,
}
use cbop.Merge.Group.{MergeState, AllCleared, HasCleared}

-- All patches but the first ones have no range.
abbrev pub ClearedFrom : ℕ → List RangeMap → Type 0
ClearedFrom zero ps = AllCleared ps
ClearedFrom (suc n) [] = Unit
ClearedFrom (suc n) (p ∷ ps) = ClearedFrom n ps

map_clear-to_list : (m : RangeMap) → to_list (map_clear m).root ≡ []
unfolding map_clear
map_clear-to_list m = refl

apply_first-AllCleared :
    (n : ℕ) (blocks : ℕ → ℕ → ℕ) (ps : List RangeMap) (memory : Memory)
    → n ≤ length ps
    → ClearedFrom n ps
    → (memory' : Memory) × (ps' : List RangeMap) × (apply_first n blocks ps memory
        ≡ some (memory', ps'))
      × (length ps' ≡ length ps)
      × AllCleared ps'
unfolding apply_first apply_patch
apply_first-AllCleared zero blocks ps memory low h = (memory, ps, refl, refl, h)
apply_first-AllCleared (suc n) blocks [] memory low h = absurd (omega (arith, low))
apply_first-AllCleared (suc n) blocks (p ∷ ps) memory low h =
    let (memory', ps', e, same, cleared) =
      apply_first-AllCleared n blocks ps (apply_patch blocks p memory).0 (omega (arith, low)) h in
    (memory', map_clear p ∷ ps', ground (arith, e), ap suc same, (map_clear-to_list p, cleared))

clear_first-AllCleared :
    (n : ℕ) (ps : List RangeMap) (freed : List ℕ)
    → n ≤ length ps
    → AllCleared ps
    → (freed' : List ℕ) × (ps' : List RangeMap) × (clear_first n ps freed ≡ some (freed', ps'))
      × (length ps' ≡ length ps)
      × AllCleared ps'
unfolding clear_first clear_patch
clear_first-AllCleared zero ps freed low h = (freed, ps, refl, refl, h)
clear_first-AllCleared (suc n) [] freed low h = absurd (omega (arith, low))
clear_first-AllCleared (suc n) (p ∷ ps) freed low h =
    let (freed', ps', e, same, cleared) =
      clear_first-AllCleared n ps (clear_patch p freed).0 (omega (arith, low)) h.1 in
    (freed', map_clear p ∷ ps', ground (arith, e), ap suc same, (map_clear-to_list p, cleared))

-- The commit of a group that has a patch for every task succeeds, whatever the patches of its tasks, and
-- leaves an array that the next group, of no more tasks than there are patches, finds cleared, if those
-- behind the tasks were cleared before.
pub ppr_group_commit-HasCleared :
    (spec_order gs : ℕ) (blank : RangeMap) (s : MergeState) (space : Space) (memory : Memory)
    → spec_order < s.num_patches
    → s.num_patches ≤ length s.patches
    → gs ≤ s.num_patches
    → ClearedFrom (spec_order + 1) s.patches
    → (c : Committed) × (ppr_group_commit spec_order s.patches space memory ≡ some c)
      × HasCleared gs blank (some (record s { patches = c.patches }))
unfolding ppr_group_commit
ppr_group_commit-HasCleared spec_order gs blank s space memory inside room fewer h =
    let (memory', applied, e, same, cleared) =
      apply_first-AllCleared (spec_order + 1) space.blocks s.patches memory
        (omega (arith, inside, room)) h in
    let (freed, left, e', same', cleared') =
      clear_first-AllCleared (spec_order + 1) applied space.freed
        (omega (arith, inside, room, same)) cleared in
    (
      record { memory = memory'; patches = left; space = record space { freed = freed } },
      ground (arith, e, e'),
      (fewer, omega (arith, room, same, same'), cleared'),
    )
