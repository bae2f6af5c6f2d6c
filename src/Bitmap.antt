-- ===== src/Bitmap.antt =====
-- ary_bitmap.c: arrays with two bitmaps behind them, of the elements that a task uses and of those that it
-- promises. Memory is a function from the address of an aligned 32-bit word to its number.
pub mod Bits
pub mod Scan
pub mod Marks
use Prim.Native.Nat.{bit_or}
use cbop.Prelude.{
  ℕ, zero, suc, ◌+◌, ◌*◌, ◌/◌, ◌%◌, ◌^◌, Bool, true, false, List, [], ◌∷◌, ◌++◌, ltb, ◌==◌,
  if◌then◌else◌,
}
use cbop.Prelude.Word.{add64}
use cbop.RangeTree.Range.{within}

abbrev pub Words : Type 0
Words = ℕ → ℕ

-- `ary_size >> 5` and `ary_size & 0x1f` in arithmetic.
unfoldable pub ary_map_entries : ℕ → ℕ
ary_map_entries ary_size = ary_size / 32 + (if ary_size % 32 == 0 then 0 else 1)

-- The product is a 32-bit number.
unfoldable pub get_ary_use_map : ℕ → ℕ → ℕ → ℕ
get_ary_use_map base length elem_size = add64 base ((elem_size * length) % 2 ^ 32)

unfoldable pub get_ary_mod_map : ℕ → ℕ → ℕ → ℕ
unfolding ary_map_entries
get_ary_mod_map base length elem_size =
    add64 (add64 base ((elem_size * length) % 2 ^ 32)) (ary_map_entries length * 4)

-- The memory; the call of `BOP_promise` for the maps is of no effect on it.
unfoldable pub ary_maps_reset : ℕ → ℕ → ℕ → Words → Words
unfolding get_ary_use_map ary_map_entries
ary_maps_reset base length elem_size words a =
    if within (get_ary_use_map base length elem_size) (ary_map_entries length * 2 * 4) a
    then 0
    else words a

-- `0x1 << offset`
unfoldable pub shifted_bit : ℕ → ℕ
shifted_bit zero = 1
shifted_bit (suc offset) = 2 * shifted_bit offset

-- `( word >> j ) & 0x1`
unfoldable pub bit_of : ℕ → ℕ → ℕ
bit_of word zero = word % 2
bit_of word (suc j) = bit_of (word / 2) j

unfoldable pub mark_bit : ℕ → ℕ → Words → Words
unfolding shifted_bit
mark_bit at idx words a =
    if a == at + 4 * (idx / 32) then bit_or (words a) (shifted_bit (idx % 32)) else words a

unfoldable pub ary_use_elem : ℕ → ℕ → ℕ → ℕ → Words → Words
unfolding get_ary_use_map mark_bit
ary_use_elem base length elem_size idx = mark_bit (get_ary_use_map base length elem_size) idx

unfoldable pub ary_promise_elem : ℕ → ℕ → ℕ → ℕ → Words → Words
unfolding get_ary_mod_map mark_bit
ary_promise_elem base length elem_size idx = mark_bit (get_ary_mod_map base length elem_size) idx

-- A call of `BOP_record_read` or `BOP_record_write`.
pub data MonitorCall : Type 0 where
  read : ℕ → ℕ → MonitorCall
  write : ℕ → ℕ → MonitorCall

abbrev pub Monitor : Type 0
Monitor = ℕ → ℕ → MonitorCall

-- The loop over the bits of a word, from the j-th on.
unfoldable pub scan_bits : ℕ → ℕ → Monitor → ℕ → ℕ → ℕ → ℕ → List MonitorCall
unfolding bit_of
scan_bits base elem_size bop_mon word idx zero j = []
scan_bits base elem_size bop_mon word idx (suc left) j =
    let later = scan_bits base elem_size bop_mon word idx left (j + 1) in
    if bit_of word j == 0
    then later
    else bop_mon (add64 base (((idx + j) * elem_size) % 2 ^ 32)) elem_size ∷ later

-- The loop over the words, from the i-th on.
unfoldable pub scan_words : ℕ → ℕ → ℕ → Monitor → Words → ℕ → ℕ → List MonitorCall
unfolding scan_bits
scan_words base elem_size at bop_mon words zero i = []
scan_words base elem_size at bop_mon words (suc left) i =
    scan_bits base elem_size bop_mon (words (at + 4 * i)) (i * 32) 32 0
    ++ scan_words base elem_size at bop_mon words left (i + 1)

unfoldable pub scan_one_map : ℕ → ℕ → ℕ → ℕ → Monitor → Words → List MonitorCall
unfolding scan_words ary_map_entries
scan_one_map base length elem_size at bop_mon words =
    scan_words base elem_size at bop_mon words (ary_map_entries length) 0

unfoldable pub scan_ary_maps : ℕ → ℕ → ℕ → Words → List MonitorCall
unfolding scan_one_map get_ary_use_map get_ary_mod_map
scan_ary_maps base length elem_size words =
    scan_one_map base length elem_size (get_ary_use_map base length elem_size) read words
    ++ scan_one_map base length elem_size (get_ary_mod_map base length elem_size) write words
