-- ===== src/Merge/Commit.antt =====
-- `ppr_commit` and `ppr_group_commit` of bop_merge.c, and the memory that a group leaves.
use cbop.Prelude.{
  ℕ, suc, ◌+◌, ◌≡◌, refl, sym, ap, ◌∙◌, List, [], ◌∷◌, ◌++◌, some, arith, length, get_elem?,
}
use mathlib.Core.Path.{subst}
use cbop.RangeTree.Range.{MemRange}
use cbop.RangeTree.Tree.{to_list, covers_list, covers-to_list}
use cbop.RangeTree.Map.{RangeMap, init_empty_map}
use cbop.RangeTree.Add.{new_node}
use cbop.RangeTree.Gaps.Add.{HasGaps, add_range-HasGaps, init_empty_map-HasGaps}
use cbop.Merge.{
  PatchInject, inject, add_range_block, Memory, Space, create_patch, commit_tasks, fill_patches,
  Committed, ppr_group_commit,
}
use cbop.Merge.Patch.{Apart, Stores, Made, Made-mono, copied, Copies, inject-Copies}
use cbop.Merge.Overlay.{
  overlay, overlay-append_nothing, AllGapped, HasGaps-Apart, Holds, AllHold, AllHold-FirstHold,
  apply_first-Applied, fill_patches-FirstHold, length-append_one,
}

covers_list-copied :
    (calloc : ℕ → ℕ) (fresh : (i j : ℕ) → calloc i ≡ calloc j → i ≡ j) (n : ℕ) (rs : List MemRange)
    (a : ℕ)
    → covers_list (copied calloc fresh n rs) a ≡ covers_list rs a
unfolding new_node
covers_list-copied calloc fresh n [] a = refl
covers_list-copied calloc fresh n (r ∷ rs) a =
    ground (arith, covers_list-copied calloc fresh (n + 1) rs a)

module _ (calloc : ℕ → ℕ) (fresh : (i j : ℕ) → calloc i ≡ calloc j → i ≡ j) (residence : ℕ) where
  Made-copied :
      (n : ℕ) (rs : List MemRange) → Made calloc fresh (n + length rs) (copied calloc fresh n rs)
  unfolding new_node
  Made-copied n [] = tt
  Made-copied n (r ∷ rs) = (
    (n, omega arith, refl),
    Made-mono calloc fresh (n + 1 + length rs) (n + suc (length rs))
        (copied calloc fresh (n + 1) rs) (omega arith) (Made-copied (n + 1) rs),
  )

  pub create_patch-Copies :
      (source : Memory) (w : RangeMap) (space : Space)
      → Apart 0 (to_list w.root)
      → Copies calloc fresh source
          (to_list w.root)
          (record { space = space; patch = init_empty_map residence; total = 0 })
          (create_patch calloc source w residence space)
  unfolding create_patch init_empty_map
  create_patch-Copies source w space a =
      inject-Copies calloc fresh source (to_list w.root)
        (record { space = space; patch = init_empty_map residence; total = 0 }) 0 (omega arith) a

  -- The patch of one task, in any space that still has its blocks.
  pub create_patch-Holds :
      (source : Memory) (w : RangeMap) (space : Space) (blocks : ℕ → ℕ → ℕ)
      → Copies calloc fresh source
          (to_list w.root)
          (record { space = space; patch = init_empty_map residence; total = 0 })
          (create_patch calloc source w residence space)
      → Stores blocks source (copied calloc fresh space.made (to_list w.root))
      → Holds blocks w source (create_patch calloc source w residence space).patch
  unfolding init_empty_map
  create_patch-Holds source w space blocks c h = record {
    stored = subst (Stores blocks source) (sym c.ranges) h;
    same = λ a.
        covers-to_list (create_patch calloc source w residence space).patch.root a
        ∙ ap (λ l. covers_list l a) c.ranges
        ∙ covers_list-copied calloc fresh space.made (to_list w.root) a
        ∙ sym (covers-to_list w.root a);
  }

  inject-HasGaps :
      (source : Memory) (rs : List MemRange) (lo : ℕ) (b : PatchInject)
      → Apart lo rs
      → HasGaps b.patch
      → HasGaps (inject (add_range_block calloc source) b rs).patch
  unfolding inject add_range_block
  inject-HasGaps source [] lo b a v = v
  inject-HasGaps source (r ∷ rs) lo b a v =
      inject-HasGaps source rs (r.base + r.size) (add_range_block calloc source b r) a.3 (
        add_range-HasGaps b.patch r.base r.size (calloc b.space.made) (omega (arith, a.0)) a.1 a.2
          v)

  pub create_patch-HasGaps :
      (source : Memory) (w : RangeMap) (space : Space)
      → HasGaps w
      → HasGaps (create_patch calloc source w residence space).patch
  unfolding create_patch
  create_patch-HasGaps source w space v =
      inject-HasGaps source (to_list w.root) 0
        (record { space = space; patch = init_empty_map residence; total = 0 }) (HasGaps-Apart w v)
        (init_empty_map-HasGaps residence)

  -- The patch of one task, as it stands in the space right after its making.
  pub create_patch-own :
      (source : Memory) (w : RangeMap) (space : Space)
      → HasGaps w
      → Holds
          (create_patch calloc source w residence space).space.blocks
          w
          source
          (create_patch calloc source w residence space).patch
        × (to_list (create_patch calloc source w residence space).patch.root
            ≡ copied calloc fresh space.made (to_list w.root))
  unfolding init_empty_map
  create_patch-own source w space v =
      let c = create_patch-Copies source w space (HasGaps-Apart w v) in
      (
        create_patch-Holds source w space
            (create_patch calloc source w residence space).space.blocks c c.own,
        c.ranges,
      )

  -- What the commits of a list of tasks leave.
  record AllMade (tasks : List (RangeMap × Memory)) (space : Space) (out : Space × List RangeMap)
      : Type 0 where
    held : AllHold out.0.blocks tasks out.1
    kept :
        (source : Memory) (xs : List MemRange)
        → Made calloc fresh space.made xs
        → Stores space.blocks source xs
        → Stores out.0.blocks source xs

  commit_tasks-AllMade :
      (tasks : List (RangeMap × Memory)) (space : Space)
      → AllGapped tasks
      → AllMade tasks space (commit_tasks calloc residence space tasks)
  unfolding commit_tasks
  commit_tasks-AllMade [] space h = record { held = tt; kept = λ source xs made stored. stored }
  commit_tasks-AllMade ((w, source) ∷ tasks) space h =
      let c = create_patch-Copies source w space (HasGaps-Apart w h.0) in
      let next = (create_patch calloc source w residence space).space in
      let later = commit_tasks-AllMade tasks next h.1 in
      record {
        held = (
          create_patch-Holds source w space (commit_tasks calloc residence next tasks).0.blocks c (
              later.kept source (copied calloc fresh space.made (to_list w.root))
                (subst (λ n. Made calloc fresh n (copied calloc fresh space.made (to_list w.root)))
                  (sym c.counted) (Made-copied space.made (to_list w.root)))
                c.own),
          later.held,
        );
        kept = λ source' xs made stored.
            later.kept source' xs
              (Made-mono calloc fresh space.made next.made xs (omega (arith, c.counted)) made)
              (c.earlier source' xs made stored);
      }

  -- When every task of a group has made its patch, the commit of the group succeeds. The memory then
  -- has at every address what the last task wrote there that wrote it at all, and what it had before
  -- where no task wrote. No block is freed.
  pub ppr_group_commit-overlay :
      (tasks : List (RangeMap × Memory)) (spec_order : ℕ) (space : Space) (memory : Memory)
      → length tasks ≡ spec_order + 1
      → AllGapped tasks
      → (c : Committed) × (ppr_group_commit spec_order
            (commit_tasks calloc residence space tasks).1
            (commit_tasks calloc residence space tasks).0
            memory
          ≡ some c)
        × ((a : ℕ) → c.memory a ≡ overlay tasks memory a)
        × (c.space ≡ (commit_tasks calloc residence space tasks).0)
  unfolding ppr_group_commit
  ppr_group_commit-overlay tasks spec_order space memory e h =
      let (out, ps) = commit_tasks calloc residence space tasks in
      let (memory', ps', eq, applied) =
        apply_first-Applied out.blocks tasks ps memory
          (AllHold-FirstHold out.blocks tasks ps (commit_tasks-AllMade tasks space h).held) in
      (
        record { memory = memory'; patches = ps'; space = out },
        ground (arith, e, eq, applied.emptied out.freed),
        applied.result,
        refl,
      )

  -- The same where the last task has made no patch, as it commits the group itself: where its place in
  -- the array has a patch without a range, its memory gets the writes of the others.
  pub ppr_group_commit-last :
      (tasks : List (RangeMap × Memory)) (spec_order : ℕ) (space : Space) (memory : Memory)
      (patches : List RangeMap) (p : RangeMap)
      → length tasks ≡ spec_order
      → AllGapped tasks
      → get_elem? patches spec_order ≡ some p
      → to_list p.root ≡ []
      → (c : Committed) × (ppr_group_commit spec_order
            (fill_patches (commit_tasks calloc residence space tasks).1 patches)
            (commit_tasks calloc residence space tasks).0
            memory
          ≡ some c)
        × ((a : ℕ) → c.memory a ≡ overlay tasks memory a)
  unfolding ppr_group_commit
  ppr_group_commit-last tasks spec_order space memory patches p e h at none =
      let (out, made) = commit_tasks calloc residence space tasks in
      let (memory', ps', eq, applied) =
        apply_first-Applied out.blocks (tasks ++ ((p, memory) ∷ [])) (fill_patches made patches)
          memory
          (fill_patches-FirstHold out.blocks tasks made patches p memory
            (commit_tasks-AllMade tasks space h).held (ap (get_elem? patches) e ∙ at) none) in
      let counted : length (tasks ++ ((p, memory) ∷ [])) ≡ spec_order + 1 =
        length-append_one tasks (p, memory) ∙ ap (λ n. n + 1) e in
      (
        record { memory = memory'; patches = ps'; space = out },
        ground (arith, counted, eq, applied.emptied out.freed),
        λ a. applied.result a ∙ overlay-append_nothing tasks p memory memory a none,
      )
