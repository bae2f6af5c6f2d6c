-- ===== src/Postwait/AfterPost.antt =====
-- The check of postwait.c at a task's commit: whether data that it received and used were changed by their
-- sender after the post.
pub mod Laws
use cbop.Prelude.{
  ℕ, zero, suc, ◌+◌, ◌-◌, ◌%◌, ◌^◌, ◌≤◌, ◌<◌, ◌≡◌, ◌≢◌, ◌∙◌, refl, sym, ap, Bool, true, false, ◌&&◌,
  List, [], ◌∷◌, Option, none, some, ◌==◌, ==_iff, arith, get_elem?, set, inl, inr, ◌⊎◌, ◌↔◌,
  Bool-cases, if◌then◌else◌, ltb,
}
use cbop.Prelude.Word.{max_addr}
use cbop.RangeTree.Range.{MemRange, within, holds}
use cbop.RangeTree.Tree.{to_list}
use cbop.RangeTree.Map.{RangeMap, IsWellFormed, covered}
use cbop.RangeTree.Contains.{map_contains, Finds, map_contains-Finds}
use cbop.Merge.{Memory}
use cbop.Merge.Patch.{Stores}

-- What the check comes to, with the patches, which a lookup splays; an access beyond the patches counts as
-- a failed assertion.
pub data AfterPost : Type 0 where
  unmodified : List RangeMap → AfterPost
  modified : AfterPost
  failed_assert : AfterPost

-- 32-bit words.
unfoldable pub sender_spec_order : ℕ → ℕ → ℕ → ℕ
sender_spec_order spec_order ppr_index task =
    (spec_order + 2 ^ 32 - (ppr_index + 2 ^ 32 - task) % 2 ^ 32) % 2 ^ 32

-- `memcmp` of some bytes in two blocks, a 32-bit word.
abbrev pub Memcmp : Type 0
Memcmp = (ℕ → ℕ) → (ℕ → ℕ) → ℕ → ℕ

-- The bytes that the sender committed, from the block of its range, against those that were received: their
-- difference is kept in a `char`, which has the low byte of the word.
unfoldable pub compare_data :
    Memcmp
    → (ℕ → ℕ → ℕ)
    → (ℕ → ℕ → ℕ)
    → MemRange
    → List RangeMap
    → ℕ
    → Option (Option MemRange) × RangeMap
    → AfterPost
compare_data memcmp shared own mem patches sender (none, patch) = failed_assert
compare_data memcmp shared own mem patches sender (some none, patch) = failed_assert
compare_data memcmp shared own mem patches sender (some (some found), patch) =
    if memcmp (λ i. shared found.rec (mem.base - found.base + i)) (own mem.rec) mem.size % 2 ^ 8
      == 0
    then unmodified (set patches sender patch)
    else modified

unfoldable pub mdfy_aftr_pst_chk :
    Memcmp → (ℕ → ℕ → ℕ) → (ℕ → ℕ → ℕ) → ℕ → ℕ → MemRange → List RangeMap → AfterPost
unfolding compare_data sender_spec_order
mdfy_aftr_pst_chk memcmp shared own spec_order ppr_index mem patches =
    let sender = sender_spec_order spec_order ppr_index mem.task in
    elim (get_elem? patches sender) [
      | none ↦ failed_assert
      | some patch ↦ compare_data memcmp shared own mem patches sender (map_contains patch mem.base)
    ]

unfoldable pub check_used :
    Memcmp → (ℕ → ℕ → ℕ) → (ℕ → ℕ → ℕ) → ℕ → ℕ → List MemRange → List RangeMap → AfterPost
unfolding mdfy_aftr_pst_chk
check_used memcmp shared own spec_order ppr_index [] patches = unmodified patches
check_used memcmp shared own spec_order ppr_index (mem ∷ mems) patches =
    elim (mdfy_aftr_pst_chk memcmp shared own spec_order ppr_index mem patches) [
      | unmodified patches' ↦ check_used memcmp shared own spec_order ppr_index mems patches'
      | modified ↦ modified
      | failed_assert ↦ failed_assert
    ]

unfoldable pub ppr_commit :
    Memcmp → (ℕ → ℕ → ℕ) → (ℕ → ℕ → ℕ) → ℕ → ℕ → RangeMap → List RangeMap → AfterPost
unfolding check_used
ppr_commit memcmp shared own spec_order ppr_index received_n_used patches =
    if received_n_used.size == 0
    then unmodified patches
    else check_used memcmp shared own spec_order ppr_index (to_list received_n_used.root) patches
