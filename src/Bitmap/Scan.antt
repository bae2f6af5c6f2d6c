-- ===== src/Bitmap/Scan.antt =====
-- The scan of the bitmaps of ary_bitmap.c, against the elements that were marked.
use cbop.Prelude.{
  ℕ, zero, suc, ◌+◌, ◌*◌, ◌/◌, ◌%◌, ◌^◌, ◌≤◌, ◌<◌, ◌≡◌, ◌∙◌, refl, sym, ap, Bool, true, false, not,
  List, [], ◌∷◌, ◌++◌, arith, ◌==◌, if◌then◌else◌,
}
use cbop.Prelude.Word.{add64}
use cbop.Bitmap.{Words, ary_map_entries, bit_of, MonitorCall, Monitor, scan_bits, scan_words}
use cbop.Bitmap.Bits.{is_marked}

-- The bitmap of an array has a bit for every element, and less than one word more.
pub ary_map_entries-bounds :
    (length : ℕ)
    → (length ≤ ary_map_entries length * 32) × (ary_map_entries length * 32 < length + 32)
unfolding ary_map_entries
ary_map_entries-bounds length = ground arith

-- The calls for the elements of a set among the next n ones, in their order.
unfoldable pub reports : ℕ → ℕ → Monitor → (ℕ → Bool) → ℕ → ℕ → List MonitorCall
reports base elem_size bop_mon p zero k = []
reports base elem_size bop_mon p (suc n) k =
    if p k
    then bop_mon (add64 base ((k * elem_size) % 2 ^ 32)) elem_size
      ∷ reports base elem_size bop_mon p n (k + 1)
    else reports base elem_size bop_mon p n (k + 1)

if_append :
    (b : Bool) (x : MonitorCall) (xs ys zs : List MonitorCall)
    → xs ++ ys ≡ zs
    → (if b then x ∷ xs else xs) ++ ys ≡ (if b then x ∷ zs else zs)
if_append false x xs ys zs e = e
if_append true x xs ys zs e = ap (λ l. x ∷ l) e

if_zero :
    (b : Bool) (x : MonitorCall) (xs ys : List MonitorCall)
    → xs ≡ ys
    → (if b then xs else x ∷ xs) ≡ (if not b then x ∷ ys else ys)
if_zero false x xs ys e = ap (λ l. x ∷ l) e
if_zero true x xs ys e = e

module _ (base elem_size : ℕ) (bop_mon : Monitor) where
  reports-append :
      (p : ℕ → Bool) (n m k : ℕ)
      → reports base elem_size bop_mon p n k ++ reports base elem_size bop_mon p m (k + n)
        ≡ reports base elem_size bop_mon p (n + m) k
  unfolding reports
  reports-append p zero m k =
      ap (λ x. reports base elem_size bop_mon p m x) (omega arith)
      ∙ ap (λ x. reports base elem_size bop_mon p x k) (omega arith)
  reports-append p (suc n) m k =
      let later =
        ap (λ x. reports base elem_size bop_mon p n (k + 1) ++ reports base elem_size bop_mon p m x)
          (omega arith)
        ∙ reports-append p n m (k + 1) in
      if_append (p k) _ (reports base elem_size bop_mon p n (k + 1))
        (reports base elem_size bop_mon p m (k + suc n)) _ later
      ∙ ap (λ x. reports base elem_size bop_mon p x k) (sum n m)
    where
      sum : (n m : ℕ) → suc (n + m) ≡ suc n + m
      sum n m = omega arith

  pub reports-cong :
      (p q : ℕ → Bool) (n k : ℕ)
      → ((i : ℕ) → i < k + n → p i ≡ q i)
      → reports base elem_size bop_mon p n k ≡ reports base elem_size bop_mon q n k
  unfolding reports
  reports-cong p q zero k h = refl
  reports-cong p q (suc n) k h =
      let later = reports-cong p q n (k + 1) (λ i l. h i (omega arith)) in
      rw (h k (omega arith), later) refl

  is_marked-bit :
      (words : Words) (at i j : ℕ)
      → j < 32
      → is_marked words at (i * 32 + j) ≡ not (bit_of (words (at + 4 * i)) j == 0)
  is_marked-bit words at i j h =
      let word : (i * 32 + j) / 32 ≡ i = omega arith in
      let bit : (i * 32 + j) % 32 ≡ j = omega arith in rw (word, bit) refl

  scan_bits-reports :
      (words : Words) (at i n j : ℕ)
      → j + n ≤ 32
      → scan_bits base elem_size bop_mon (words (at + 4 * i)) (i * 32) n j
        ≡ reports base elem_size bop_mon (is_marked words at) n (i * 32 + j)
  unfolding scan_bits reports
  scan_bits-reports words at i zero j h = refl
  scan_bits-reports words at i (suc n) j h =
      let later =
        scan_bits-reports words at i n (j + 1) (omega arith)
        ∙ ap (reports base elem_size bop_mon (is_marked words at) n) (omega arith) in
      if_zero (bit_of (words (at + 4 * i)) j == 0) _ _
        (reports base elem_size bop_mon (is_marked words at) n (i * 32 + j + 1)) later
      ∙ ap
          (λ b.
            if b
            then bop_mon (add64 base (((i * 32 + j) * elem_size) % 2 ^ 32)) elem_size
              ∷ reports base elem_size bop_mon (is_marked words at) n (i * 32 + j + 1)
            else reports base elem_size bop_mon (is_marked words at) n (i * 32 + j + 1))
          (sym (is_marked-bit words at i j (omega arith)))

  no_reports : (p : ℕ → Bool) (k : ℕ) → [] ≡ reports base elem_size bop_mon p (0 * 32) k
  unfolding reports
  no_reports p k = refl

  pub scan_words-reports :
      (words : Words) (at left i : ℕ)
      → scan_words base elem_size at bop_mon words left i
        ≡ reports base elem_size bop_mon (is_marked words at) (left * 32) (i * 32)
  unfolding scan_words
  scan_words-reports words at zero i = no_reports (is_marked words at) (i * 32)
  scan_words-reports words at (suc left) i =
      let p = is_marked words at in
      let first = scan_bits-reports words at i 32 0 (omega arith) in
      let rest = scan_words-reports words at left (i + 1) in
      let start = ap (λ x. reports base elem_size bop_mon p 32 x) (plus_zero (i * 32)) in
      let next = ap (λ x. reports base elem_size bop_mon p (left * 32) x) (step i) in
      ap (λ l. l ++ scan_words base elem_size at bop_mon words left (i + 1)) (first ∙ start)
      ∙ ap (λ l. reports base elem_size bop_mon p 32 (i * 32) ++ l) (rest ∙ next)
      ∙ reports-append p 32 (left * 32) (i * 32)
      ∙ ap (λ x. reports base elem_size bop_mon p x (i * 32)) (total left)
    where
      plus_zero : (n : ℕ) → n + 0 ≡ n
      plus_zero n = omega arith

      step : (n : ℕ) → (n + 1) * 32 ≡ n * 32 + 32
      step n = omega arith

      total : (n : ℕ) → 32 + n * 32 ≡ suc n * 32
      total n = omega arith
