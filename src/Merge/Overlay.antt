-- ===== src/Merge/Overlay.antt =====
-- The memory of a task with the patches of others, and the loops of `ppr_group_commit` of bop_merge.c that
-- copy and clear them.
use cbop.Prelude.{
  ℕ, suc, ◌+◌, ◌≡◌, refl, sym, ap, ◌∙◌, List, [], ◌∷◌, ◌++◌, some, arith, length, length-append,
  get_elem?, if◌then◌else◌,
}
use mathlib.Core.Path.{subst}
use cbop.RangeTree.Range.{MemRange}
use cbop.RangeTree.Tree.{to_list, covers_list, covers-to_list}
use cbop.RangeTree.Map.{RangeMap, map_clear, covered}
use cbop.Prelude.Word.{max_addr}
use cbop.RangeTree.Gaps.{GapChain, GapChain-lt, Gapped-iff}
use cbop.RangeTree.Gaps.Add.{HasGaps}
use cbop.Merge.{Memory, fill_patches, apply_patch, apply_first, clear_first}
use cbop.Merge.Patch.{Apart, Stores, inject-apply_range_block}

-- A memory with the writes of some tasks, in their order.
abbrev pub overlay : List (RangeMap × Memory) → Memory → Memory
overlay [] memory a = memory a
overlay ((write_map, source) ∷ tasks) memory a =
    overlay tasks (λ x. if covered write_map x then source x else memory x) a

pub overlay-cong :
    (tasks : List (RangeMap × Memory)) (m m' : Memory) (a : ℕ)
    → ((x : ℕ) → m x ≡ m' x)
    → overlay tasks m a ≡ overlay tasks m' a
overlay-cong [] m m' a h = h a
overlay-cong ((w, source) ∷ tasks) m m' a h =
    overlay-cong tasks _ _ a (λ x. ap (λ v. if covered w x then source x else v) (h x))

-- The write map of every task is as its recording leaves it.
abbrev pub AllGapped : List (RangeMap × Memory) → Type 0
AllGapped [] = Unit
AllGapped ((write_map, source) ∷ tasks) = HasGaps write_map × AllGapped tasks

GapChain-Apart : (rs : List MemRange) (lo : ℕ) → GapChain lo rs (max_addr + 1) → Apart lo rs
GapChain-Apart [] lo h = tt
GapChain-Apart (r ∷ rs) lo h = (
  h.0,
  h.1,
  omega (arith, GapChain-lt rs (r.base + r.size) (max_addr + 1) h.2),
  GapChain-Apart rs (r.base + r.size) h.2,
)

pub HasGaps-Apart : (m : RangeMap) → HasGaps m → Apart 0 (to_list m.root)
HasGaps-Apart m g =
    GapChain-Apart (to_list m.root) 0 ((Gapped-iff m.root 0 (max_addr + 1)).0 g.gapped)

-- A patch that holds the writes of a task.
pub record Holds (blocks : ℕ → ℕ → ℕ) (write_map : RangeMap) (source : Memory) (patch : RangeMap)
    : Type 0 where
  pub stored : Stores blocks source (to_list patch.root)
  pub same : (a : ℕ) → covered patch a ≡ covered write_map a

abbrev pub AllHold : (ℕ → ℕ → ℕ) → List (RangeMap × Memory) → List RangeMap → Type 0
AllHold blocks [] [] = Unit
AllHold blocks [] (p ∷ ps) = ⊥
AllHold blocks (t ∷ ts) [] = ⊥
AllHold blocks ((w, source) ∷ ts) (p ∷ ps) = Holds blocks w source p × AllHold blocks ts ps

apply_patch-Holds :
    (blocks : ℕ → ℕ → ℕ) (w : RangeMap) (source : Memory) (p : RangeMap) (memory : Memory) (a : ℕ)
    → Holds blocks w source p
    → (apply_patch blocks p memory).0 a ≡ (if covered w a then source a else memory a)
unfolding apply_patch
apply_patch-Holds blocks w source p memory a h =
    inject-apply_range_block blocks source (to_list p.root) memory 0 a h.stored
    ∙ ap (λ b. if b then source a else memory a) (sym (covers-to_list p.root a) ∙ h.same a)

-- The first patches hold the writes of the tasks.
abbrev pub FirstHold : (ℕ → ℕ → ℕ) → List (RangeMap × Memory) → List RangeMap → Type 0
FirstHold blocks [] ps = Unit
FirstHold blocks (t ∷ ts) [] = ⊥
FirstHold blocks ((w, source) ∷ ts) (p ∷ ps) = Holds blocks w source p × FirstHold blocks ts ps

pub AllHold-FirstHold :
    (blocks : ℕ → ℕ → ℕ) (tasks : List (RangeMap × Memory)) (patches : List RangeMap)
    → AllHold blocks tasks patches
    → FirstHold blocks tasks patches
AllHold-FirstHold blocks [] ps h = tt
AllHold-FirstHold blocks (t ∷ ts) [] h = absurd h
AllHold-FirstHold blocks ((w, source) ∷ ts) (p ∷ ps) h = (h.0, AllHold-FirstHold blocks ts ps h.1)

-- What the loop of the copying leaves.
pub record Applied (tasks : List (RangeMap × Memory)) (memory memory' : Memory)
    (patches' : List RangeMap) : Type 0 where
  pub result : (a : ℕ) → memory' a ≡ overlay tasks memory a
  pub emptied :
      (freed : List ℕ) → (clear_first (length tasks) patches' freed) ≡ some (freed, patches')

clear_first-map_clear :
    (n : ℕ) (p : RangeMap) (ps : List RangeMap)
    → ((freed : List ℕ) → clear_first n ps freed ≡ some (freed, ps))
    → (freed : List ℕ)
    → clear_first (suc n) (map_clear p ∷ ps) freed ≡ some (freed, map_clear p ∷ ps)
unfolding clear_first map_clear
clear_first-map_clear n p ps h freed = ground (arith, h freed)

pub apply_first-Applied :
    (blocks : ℕ → ℕ → ℕ) (tasks : List (RangeMap × Memory)) (patches : List RangeMap)
    (memory : Memory)
    → FirstHold blocks tasks patches
    → (memory' : Memory) × (patches' : List RangeMap) × (apply_first
          (length tasks)
          blocks
          patches
          memory
        ≡ some (memory', patches'))
      × Applied tasks memory memory' patches'
unfolding apply_first clear_first
apply_first-Applied blocks [] ps memory h =
    (memory, ps, refl, record { result = λ a. refl; emptied = λ freed. refl })
apply_first-Applied blocks (t ∷ ts) [] memory h = absurd h
apply_first-Applied blocks ((w, source) ∷ ts) (p ∷ ps) memory h =
    let (memory', ps', eq, later) =
      apply_first-Applied blocks ts ps (apply_patch blocks p memory).0 h.1 in
    (
      memory',
      map_clear p ∷ ps',
      ground (arith, eq),
      record {
        result = λ a.
            later.result a
            ∙ overlay-cong ts _ _ a (λ x. apply_patch-Holds blocks w source p memory x h.0);
        emptied = clear_first-map_clear (length ts) p ps' later.emptied;
      },
    )

pub overlay-append_nothing :
    (tasks : List (RangeMap × Memory)) (p : RangeMap) (source memory : Memory) (a : ℕ)
    → to_list p.root ≡ []
    → overlay (tasks ++ ((p, source) ∷ [])) memory a ≡ overlay tasks memory a
overlay-append_nothing [] p source memory a e =
    ap (λ b. if b then source a else memory a)
      (covers-to_list p.root a ∙ ap (λ l. covers_list l a) e)
overlay-append_nothing (t ∷ ts) p source memory a e = overlay-append_nothing ts p source _ a e

-- The patches of the tasks before the last one, and the patch without a range that stands behind them.
pub fill_patches-FirstHold :
    (blocks : ℕ → ℕ → ℕ) (tasks : List (RangeMap × Memory)) (made patches : List RangeMap)
    (p : RangeMap) (source : Memory)
    → AllHold blocks tasks made
    → get_elem? patches (length tasks) ≡ some p
    → to_list p.root ≡ []
    → FirstHold blocks (tasks ++ ((p, source) ∷ [])) (fill_patches made patches)
unfolding fill_patches
fill_patches-FirstHold blocks [] [] [] p source h at e = cc
fill_patches-FirstHold blocks [] [] (q ∷ qs) p source h at e =
    let same : q ≡ p = ground (arith, at) in
    subst (λ x. Holds blocks p source x × Unit) (sym same)
      (record { stored = subst (Stores blocks source) (sym e) tt; same = λ a. refl }, tt)
fill_patches-FirstHold blocks [] (m ∷ ms) patches p source h at e = absurd h
fill_patches-FirstHold blocks (t ∷ ts) [] patches p source h at e = absurd h
fill_patches-FirstHold blocks (t ∷ ts) (m ∷ ms) [] p source h at e = cc
fill_patches-FirstHold blocks ((w, s) ∷ ts) (m ∷ ms) (q ∷ qs) p source h at e =
    (h.0, fill_patches-FirstHold blocks ts ms qs p source h.1 at e)

pub length-append_one :
    (tasks : List (RangeMap × Memory)) (t : RangeMap × Memory)
    → length (tasks ++ (t ∷ [])) ≡ length tasks + 1
length-append_one tasks t = length-append tasks (t ∷ [])
