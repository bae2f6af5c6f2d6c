-- ===== src/Bitmap/Marks.antt =====
-- The two bitmaps of ary_bitmap.c through any sequence of marks, up to the scan.
use cbop.Prelude.{
  ℕ, zero, suc, ◌+◌, ◌*◌, ◌/◌, ◌%◌, ◌^◌, ◌≤◌, ◌<◌, ◌≡◌, ◌≢◌, ◌∙◌, refl, sym, ap, Bool, false, ◌||◌,
  not, List, [], ◌∷◌, ◌++◌, arith, ◌==◌,
}
use cbop.Prelude.Word.{max_addr, add64, add64_exact}
use cbop.Bitmap.{
  Words, ary_map_entries, get_ary_use_map, get_ary_mod_map, ary_maps_reset, bit_of, ary_use_elem,
  ary_promise_elem, Monitor, read, write, scan_one_map, scan_ary_maps,
}
use cbop.Bitmap.Bits.{is_marked, is_marked-mark_bit, is_marked-other}
use cbop.Bitmap.Scan.{ary_map_entries-bounds, reports, reports-cong, scan_words-reports}

-- A call of `ary_use_elem` or `ary_promise_elem`.
pub data ElemOp : Type 0 where
  use_elem : ℕ → ElemOp
  promise_elem : ℕ → ElemOp

abbrev pub index_of : ElemOp → ℕ
index_of (use_elem idx) = idx
index_of (promise_elem idx) = idx

abbrev pub used : List ElemOp → ℕ → Bool
used [] k = false
used (use_elem idx ∷ ops) k = k == idx || used ops k
used (promise_elem idx ∷ ops) k = used ops k

abbrev pub promised : List ElemOp → ℕ → Bool
promised [] k = false
promised (use_elem idx ∷ ops) k = promised ops k
promised (promise_elem idx ∷ ops) k = k == idx || promised ops k

abbrev pub InArray : ℕ → List ElemOp → Type 0
InArray length [] = Unit
InArray length (op ∷ ops) = (index_of op < length) × InArray length ops

bit_of-zero : (j : ℕ) → bit_of 0 j ≡ 0
unfolding bit_of
bit_of-zero zero = refl
bit_of-zero (suc j) = bit_of-zero j

module _ (base length elem_size : ℕ) where
  -- The calls, with the last one first in the list, after a reset of the maps.
  unfoldable pub mark_elems : List ElemOp → Words → Words
  unfolding ary_maps_reset ary_use_elem ary_promise_elem
  mark_elems [] words = ary_maps_reset base length elem_size words
  mark_elems (use_elem idx ∷ ops) words =
      ary_use_elem base length elem_size idx (mark_elems ops words)
  mark_elems (promise_elem idx ∷ ops) words =
      ary_promise_elem base length elem_size idx (mark_elems ops words)

  module _
      (fits : base + (elem_size * length) % 2 ^ 32 + ary_map_entries length * 8 ≤ max_addr) where
    use_map : get_ary_use_map base length elem_size ≡ base + (elem_size * length) % 2 ^ 32
    unfolding get_ary_use_map
    use_map = omega (arith, fits, add64_exact base ((elem_size * length) % 2 ^ 32))

    mod_map :
        get_ary_mod_map base length elem_size
        ≡ get_ary_use_map base length elem_size + ary_map_entries length * 4
    unfolding get_ary_mod_map get_ary_use_map
    mod_map =
        let inner = add64_exact base ((elem_size * length) % 2 ^ 32) (omega (arith, fits)) in
        omega (
          arith,
          fits,
          inner,
          add64_exact (add64 base ((elem_size * length) % 2 ^ 32)) (ary_map_entries length * 4),
        )

    -- Both maps are in the block that is cleared.
    reset_word :
        (words : Words) (k : ℕ)
        → k < ary_map_entries length * 2
        → ary_maps_reset base length elem_size words (get_ary_use_map base length elem_size + 4 * k)
          ≡ 0
    unfolding ary_maps_reset
    reset_word words k p = ground (arith, p)

    -- Which elements the maps have, after the calls.
    record Marks (ops : List ElemOp) (words : Words) : Type 0 where
      uses :
          (k : ℕ)
          → k < ary_map_entries length * 32
          → is_marked words (get_ary_use_map base length elem_size) k ≡ used ops k
      mods :
          (k : ℕ)
          → k < ary_map_entries length * 32
          → is_marked words (get_ary_mod_map base length elem_size) k ≡ promised ops k

    cleared :
        (words : Words) (at k n : ℕ)
        → at + 4 * (k / 32) ≡ get_ary_use_map base length elem_size + 4 * n
        → n < ary_map_entries length * 2
        → is_marked (ary_maps_reset base length elem_size words) at k ≡ false
    cleared words at k n e p =
        ap (λ w. not (bit_of w (k % 32) == 0))
          (ap (ary_maps_reset base length elem_size words) e ∙ reset_word words n p)
        ∙ ap (λ n. not (n == 0)) (bit_of-zero (k % 32))

    reset-Marks : (words : Words) → Marks [] (ary_maps_reset base length elem_size words)
    reset-Marks words = record {
      uses = λ k p.
          cleared words (get_ary_use_map base length elem_size) k (k / 32) refl (omega arith);
      mods = λ k p.
          cleared words (get_ary_mod_map base length elem_size) k (ary_map_entries length + k / 32)
            (omega (arith, mod_map)) (omega arith);
    }

    -- A word of one map is no word of the other one.
    apart :
        (i j : ℕ)
        → i < ary_map_entries length * 32
        → (get_ary_mod_map base length elem_size + 4 * (j / 32))
          ≢ (get_ary_use_map base length elem_size + 4 * (i / 32))
    apart i j p e = omega (arith, e, mod_map)

    use-Marks :
        (ops : List ElemOp) (words : Words) (idx : ℕ)
        → idx < length
        → Marks ops words
        → Marks (use_elem idx ∷ ops) (ary_use_elem base length elem_size idx words)
    unfolding ary_use_elem
    use-Marks ops words idx p m =
        let at = get_ary_use_map base length elem_size in
        let inside : idx < ary_map_entries length * 32 =
          omega (arith, ary_map_entries-bounds length) in
        record {
          uses = λ k q. is_marked-mark_bit words at idx k ∙ ap (λ b. k == idx || b) (m.uses k q);
          mods = λ k q.
              is_marked-other words at (get_ary_mod_map base length elem_size) idx k
                (apart idx k inside)
              ∙ m.mods k q;
        }

    promise-Marks :
        (ops : List ElemOp) (words : Words) (idx : ℕ)
        → idx < length
        → Marks ops words
        → Marks (promise_elem idx ∷ ops) (ary_promise_elem base length elem_size idx words)
    unfolding ary_promise_elem
    promise-Marks ops words idx p m =
        let at = get_ary_mod_map base length elem_size in
        record {
          uses = λ k q.
              is_marked-other words at (get_ary_use_map base length elem_size) idx k
                (λ e. apart k idx q (sym e))
              ∙ m.uses k q;
          mods = λ k q. is_marked-mark_bit words at idx k ∙ ap (λ b. k == idx || b) (m.mods k q);
        }

    mark_elems-Marks :
        (ops : List ElemOp) (words : Words) → InArray length ops → Marks ops (mark_elems ops words)
    unfolding mark_elems
    mark_elems-Marks [] words h = reset-Marks words
    mark_elems-Marks (use_elem idx ∷ ops) words h =
        use-Marks ops (mark_elems ops words) idx h.0 (mark_elems-Marks ops words h.1)
    mark_elems-Marks (promise_elem idx ∷ ops) words h =
        promise-Marks ops (mark_elems ops words) idx h.0 (mark_elems-Marks ops words h.1)

scan_one_map-reports :
    (base length elem_size at : ℕ) (bop_mon : Monitor) (words : Words) (p : ℕ → Bool)
    → ((k : ℕ) → k < ary_map_entries length * 32 → is_marked words at k ≡ p k)
    → scan_one_map base length elem_size at bop_mon words
      ≡ reports base elem_size bop_mon p (ary_map_entries length * 32) 0
unfolding scan_one_map
scan_one_map-reports base length elem_size at bop_mon words p h =
    scan_words-reports base elem_size bop_mon words at (ary_map_entries length) 0
    ∙ reports-cong base elem_size bop_mon (is_marked words at) p (ary_map_entries length * 32) 0
        (λ k q. h k (omega arith))

-- Whatever elements a task has marked as used and as promised since the maps were reset, in whatever
-- order, the scan reports a read of exactly the used ones and then a write of exactly the promised ones,
-- each once and in the order of the array. The elements are within the array, and the array and its maps
-- do not wrap around the address space.
pub scan_ary_maps-reports :
    (base length elem_size : ℕ) (ops : List ElemOp) (words : Words)
    → base + (elem_size * length) % 2 ^ 32 + ary_map_entries length * 8 ≤ max_addr
    → InArray length ops
    → scan_ary_maps base length elem_size (mark_elems base length elem_size ops words)
      ≡ reports base elem_size read (used ops) (ary_map_entries length * 32) 0
        ++ reports base elem_size write (promised ops) (ary_map_entries length * 32) 0
unfolding scan_ary_maps
scan_ary_maps-reports base length elem_size ops words fits h =
    let marks = mark_elems-Marks base length elem_size fits ops words h in
    let marked = mark_elems base length elem_size ops words in
    ap
      (λ l.
        l
        ++ scan_one_map base length elem_size (get_ary_mod_map base length elem_size) write marked)
      (scan_one_map-reports base length elem_size (get_ary_use_map base length elem_size) read
        marked (used ops) marks.uses)
    ∙ ap (λ l. reports base elem_size read (used ops) (ary_map_entries length * 32) 0 ++ l)
        (scan_one_map-reports base length elem_size (get_ary_mod_map base length elem_size) write
          marked (promised ops) marks.mods)
