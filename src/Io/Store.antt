-- ===== src/Io/Store.antt =====
-- `BOP_printf` of bop_io.c by an understudy: what its buffer holds after it.
use cbop.Prelude.{
  ℕ, zero, suc, ◌+◌, ◌*◌, ◌-◌, ◌^◌, ◌%◌, ◌≤◌, ◌<◌, ◌≡◌, ◌∙◌, refl, ap, true, false, List, [], ◌∷◌,
  ◌++◌, some, ltb, ◌==◌, length, arith, if◌then◌else◌, length-append, inl, inr, ◌⊎◌, Bool-cases,
}
use cbop.Prelude.Word.{word, add64, sub64, add64_exact, sub64_exact}
use mathlib.Core.Path.{subst}
use cbop.Task.{TaskStatus}
use cbop.Io.{
  Output, bop_printf, print_undy, Block, OutputBuffer, vsnprintf, wrote, doubled, realloc, count_in,
  store_grown, store_text, store_checked,
}

-- A text without a 0 stands in a block from a place on.
abbrev pub Holds : Block → ℕ → List ℕ → Type 0
Holds d at [] = Unit
Holds d at (c ∷ cs) = (d at ≡ c) × (0 < c) × Holds d (at + 1) cs

-- No byte ends the text.
abbrev pub Proper : List ℕ → Type 0
Proper [] = Unit
Proper (c ∷ cs) = (0 < c) × Proper cs

-- A buffer with a text, whose closing 0 counts as used.
pub record IsBuffer (b : OutputBuffer) (text : List ℕ) : Type 0 where
  pub block : Block
  pub own : b.content ≡ some block
  pub held : Holds block 0 text
  pub closed : block (length text) ≡ 0
  pub counted : b.used ≡ length text + 1
  pub fits : b.used ≤ b.alloc

Holds-agree :
    (d d' : Block) (at : ℕ) (text : List ℕ)
    → ((i : ℕ) → i < at + length text → d' i ≡ d i)
    → Holds d at text
    → Holds d' at text
Holds-agree d d' at [] same h = tt
Holds-agree d d' at (c ∷ cs) same h = (
  same at (omega arith) ∙ h.0,
  h.1,
  Holds-agree d d' (at + 1) cs (λ i p. same i (omega arith)) h.2,
)

plus_zero : (n : ℕ) → n + 0 ≡ n
plus_zero n = omega arith

plus_suc : (n k : ℕ) → n + suc k ≡ n + 1 + k
plus_suc n k = omega arith

Holds-append :
    (d : Block) (at : ℕ) (xs ys : List ℕ)
    → Holds d at xs
    → Holds d (at + length xs) ys
    → Holds d at (xs ++ ys)
Holds-append d at [] ys h k = subst (λ n. Holds d n ys) (plus_zero at) k
Holds-append d at (x ∷ xs) ys h k = (
  h.0,
  h.1,
  Holds-append d (at + 1) xs ys h.2 (subst (λ n. Holds d n ys) (plus_suc at (length xs)) k),
)

pub vsnprintf-before :
    (text : List ℕ) (avail at : ℕ) (d : Block) (i : ℕ) → i < at → vsnprintf text avail at d i ≡ d i
unfolding vsnprintf
vsnprintf-before text zero at d i p = refl
vsnprintf-before [] (suc avail) at d i p = ground arith
vsnprintf-before (c ∷ cs) (suc zero) at d i p = ground arith
vsnprintf-before (c ∷ cs) (suc (suc avail)) at d i p =
    ground (arith, vsnprintf-before cs (suc avail) (at + 1) (λ i. if i == at then c else d i) i)

-- A text that fits with its 0 is written whole.
vsnprintf-Holds :
    (text : List ℕ) (avail at : ℕ) (d : Block)
    → length text < avail
    → Proper text
    → Holds (vsnprintf text avail at d) at text × (vsnprintf text avail at d (at + length text) ≡ 0)
unfolding vsnprintf
vsnprintf-Holds text zero at d p h = absurd (omega arith)
vsnprintf-Holds [] (suc avail) at d p h = (tt, ground arith)
vsnprintf-Holds (c ∷ cs) (suc zero) at d p h = absurd (omega arith)
vsnprintf-Holds (c ∷ cs) (suc (suc avail)) at d p h =
    let later =
      vsnprintf-Holds cs (suc avail) (at + 1) (λ i. if i == at then c else d i) (omega arith) h.1 in
    (
      (
        ground
            (arith, vsnprintf-before cs (suc avail) (at + 1) (λ i. if i == at then c else d i) at),
        h.0,
        later.0,
      ),
      ap (vsnprintf cs (suc avail) (at + 1) (λ i. if i == at then c else d i))
            (plus_suc at (length cs))
          ∙ later.1,
    )

-- The doubling ends with a size that is enough.
pub doubled-enough :
    (steps size need : ℕ)
    → 0 < size
    → size < need
    → need ≤ 2 ^ 63
    → need ≤ size + steps
    → (n : ℕ) × (doubled steps size need ≡ some n) × (need ≤ n) × (n < 2 ^ 64)
unfolding doubled
doubled-enough zero size need p q fits enough = absurd (omega arith)
doubled-enough (suc steps) size need p q fits enough =
    let twice : (size * 2) % word ≡ size * 2 = omega arith in
    elim (Bool-cases (ltb ((size * 2) % word) need)) [
      | inl less ↦
          let (n, e, le, lt) =
            doubled-enough steps ((size * 2) % word) need (omega (arith, twice)) (ground arith) fits
              (omega (arith, twice)) in
          (n, ground (arith, less, e), le, lt)
      | inr more ↦ ((size * 2) % word, ground (arith, more), ground arith, ground (arith, twice))
    ]

-- A text behind another one.
pub Holds-behind :
    (d d' : Block) (at : ℕ) (old text : List ℕ)
    → Holds d 0 old
    → at ≡ length old
    → ((i : ℕ) → i < at → d' i ≡ d i)
    → Holds d' at text × (d' (at + length text) ≡ 0)
    → Holds d' 0 (old ++ text) × (d' (length (old ++ text)) ≡ 0)
Holds-behind d d' at old text h place same (written, closed) =
    let behind : length (old ++ text) ≡ at + length text =
      omega (arith, place, length-append old text) in
    (
      Holds-append d' 0 old text (Holds-agree d d' 0 old (λ i q. same i (omega (arith, place))) h)
          (subst (λ n. Holds d' n text) (omega (arith, place)) written),
      ap d' behind ∙ closed,
    )

-- A block with a text and room behind it gets another text.
placed-IsBuffer :
    (b : OutputBuffer) (d : Block) (old text : List ℕ) (avail at : ℕ)
    → Holds d 0 old
    → Proper text
    → length text < avail
    → at ≡ length old
    → b.used ≡ length old + 1
    → b.used + length text ≤ b.alloc
    → IsBuffer
        (record b { used = b.used + length text; content = some (vsnprintf text avail at d) })
        (old ++ text)
placed-IsBuffer b d old text avail at h p room place counted fits =
    let d' = vsnprintf text avail at d in
    let (held, closed) =
      Holds-behind d d' at old text h place (λ i q. vsnprintf-before text avail at d i q)
        (vsnprintf-Holds text avail at d room p) in
    record {
      block = d';
      own = refl;
      held = held;
      closed = closed;
      counted = omega (arith, counted, length-append old text);
      fits = fits;
    }

-- What a call leaves in the buffer: the old text and the new one, unless the buffer is now full.
pub record Stored (old text : List ℕ) (b b' : OutputBuffer) : Type 0 where
  pub used : b'.used ≡ b.used + length text
  pub kept : (b'.used ≡ b'.alloc) ⊎ IsBuffer b' (old ++ text)

module _ (junk : Block) (b : OutputBuffer) (old text : List ℕ) (h : IsBuffer b old)
    (proper : Proper text) (small : b.alloc + length text ≤ 2 ^ 62) where
  place : sub64 b.used 1 ≡ length old
  place = omega (arith, h.counted, h.fits, sub64_exact b.used 1)

  -- Where the text and its 0 fit, or just do not.
  count_in-Stored :
      (alloc : ℕ) (d : Block)
      → Holds d 0 old
      → b.used + length text ≤ alloc
      → alloc < 2 ^ 64
      → (b' : OutputBuffer) × (count_in
            (record b { alloc = alloc })
            (vsnprintf text (sub64 alloc b.used) (sub64 b.used 1) d)
            (length text)
          ≡ wrote (length text) b')
        × Stored old text b b'
  unfolding count_in
  count_in-Stored alloc d held fits lt =
      let room : sub64 alloc b.used ≡ alloc - b.used = omega (arith, sub64_exact alloc b.used) in
      (
        record b {
          alloc = alloc;
          used = b.used + length text;
          content = some (vsnprintf text (sub64 alloc b.used) (sub64 b.used 1) d);
        },
        ground (arith, fits),
        record {
          used = refl;
          kept = elim (Bool-cases (ltb (b.used + length text) alloc)) [
            | inl less ↦ inr (
                placed-IsBuffer (record b { alloc = alloc }) d old text (sub64 alloc b.used)
                  (sub64 b.used 1) held proper (ground (arith, less, room)) place h.counted fits)
            | inr full ↦ inl (ground (arith, full))
          ];
        },
      )

  tried_before :
      (d : Block) (i : ℕ)
      → i < length old
      → realloc junk (vsnprintf text (sub64 b.alloc b.used) (sub64 b.used 1) d) b.alloc i ≡ d i
  unfolding realloc
  tried_before d i p = ground (
    arith,
    h.counted,
    h.fits,
    vsnprintf-before text (sub64 b.alloc b.used) (sub64 b.used 1) d i (omega (arith, place)),
  )

  store_grown-Stored :
      (d : Block) (n : ℕ)
      → Holds d 0 old
      → b.used + length text ≤ n
      → n < 2 ^ 64
      → (b' : OutputBuffer) × (store_grown junk text b
            (vsnprintf text (sub64 b.alloc b.used) (sub64 b.used 1) d)
            (some n)
          ≡ wrote (length text) b')
        × Stored old text b b'
  unfolding store_grown
  store_grown-Stored d n held fits lt =
      let tried = vsnprintf text (sub64 b.alloc b.used) (sub64 b.used 1) d in
      let (b', e, out) =
        count_in-Stored n (realloc junk tried b.alloc)
          (Holds-agree d (realloc junk tried b.alloc) 0 old (λ i p. tried_before d i (omega arith))
            held)
          fits lt in
      let enough : ltb (sub64 n b.used) (length text) ≡ false =
        ground (arith, sub64_exact n b.used) in
      (b', rw enough e, out)

  store_text-Stored :
      (steps : ℕ) (d : Block)
      → Holds d 0 old
      → b.used + length text ≤ steps
      → (b' : OutputBuffer) × (store_text steps true junk text b d ≡ wrote (length text) b')
        × Stored old text b b'
  unfolding store_text
  store_text-Stored steps d held enough =
      elim (Bool-cases (ltb (sub64 b.alloc b.used) (length text))) [
        | inl less ↦
            let need : add64 b.used (length text) ≡ b.used + length text =
              omega (arith, h.fits, add64_exact b.used (length text)) in
            let short : b.alloc < b.used + length text =
              ground (arith, less, h.fits, sub64_exact b.alloc b.used) in
            let (n, e, le, lt) =
              doubled-enough steps b.alloc (add64 b.used (length text))
                (omega (arith, h.fits, h.counted)) (omega (arith, need, short))
                (omega (arith, need, h.fits)) (omega (arith, need)) in
            let (b', e', out) = store_grown-Stored d n held (omega (arith, need, le)) lt in
            (b', rw (less, e) e', out)
        | inr more ↦
            let (b', e', out) =
              count_in-Stored b.alloc d held
                (ground (arith, more, h.fits, sub64_exact b.alloc b.used)) (omega arith) in
            (b', rw more e', out)
      ]

  store_checked-Stored :
      (steps : ℕ)
      → b.used + length text ≤ steps
      → (b' : OutputBuffer) × (store_checked steps true junk (some text) b b.content
          ≡ wrote (length text) b')
        × Stored old text b b'
  unfolding store_checked
  store_checked-Stored steps enough =
      let (b', e, out) = store_text-Stored steps h.block h.held enough in
      let ends : (h.block (sub64 b.used 1) == 0) ≡ true =
        ground (arith, ap h.block place, h.closed) in
      (b', rw h.own (rw ends e), out)

-- What an understudy prints gets behind what it has printed since the buffer was new, and the number of
-- its bytes is returned, with a larger block where the text did not fit. The one case in which the text may
-- not be there whole is that the buffer is full afterwards, with no room for the closing 0 counted. The
-- allocator has memory, the text has no 0, the sizes are at most 2^62, and the steps of the doubling are
-- at least the bytes that are to be stored.
pub bop_printf-Stored :
    (steps : ℕ) (junk : Block) (old text : List ℕ) (o : Output)
    → IsBuffer o.undy_buffer old
    → Proper text
    → o.undy_buffer.alloc + length text ≤ 2 ^ 62
    → o.undy_buffer.used + length text ≤ steps
    → (b' : OutputBuffer) × (bop_printf steps true junk TaskStatus.undy (some text) o
        ≡ wrote (length text) (record o { undy_buffer = b' }))
      × Stored old text o.undy_buffer b'
unfolding bop_printf print_undy
bop_printf-Stored steps junk old text o h proper small enough =
    let (b', e, out) =
      store_checked-Stored junk o.undy_buffer old text h proper small steps enough in
    (b', ap (print_undy o) e, out)
