-- ===== src/Io/Group.antt =====
-- What comes out of the buffers of bop_io.c at the end of a group.
use cbop.Prelude.{
  ℕ, zero, suc, ◌+◌, ◌^◌, ◌≤◌, ◌<◌, ◌≡◌, ◌∙◌, refl, sym, ap, Bool, true, false, List, [], ◌∷◌, ◌++◌,
  none, some, ltb, leb, ◌==◌, length, arith, if◌then◌else◌, length-append,
}
use cbop.Prelude.Word.{sub64, sub64_exact}
use cbop.Task.{TaskStatus}
use cbop.Io.{
  Block, OutputBuffer, Output, vsnprintf, string_at, string_of, wrote, count_in, store_text,
  store_checked, print_undy, bop_printf, first_buffers, group_buffers, free_all_buffers, strings_of,
  io_group_succ, io_undy_succ,
}
use cbop.Io.Store.{Holds, Proper, IsBuffer, Holds-behind, vsnprintf-before}

string_at-Holds :
    (n : ℕ) (d : Block) (at : ℕ) (text : List ℕ)
    → Holds d at text
    → d (at + length text) ≡ 0
    → length text < n
    → string_at n d at ≡ text
unfolding string_at
string_at-Holds zero d at text h z p = absurd (omega arith)
string_at-Holds (suc n) d at [] h z p =
    let ends : d at ≡ 0 = ap d (omega arith) ∙ z in ground (arith, ends)
string_at-Holds (suc n) d at (c ∷ cs) h z p =
    let rest = string_at-Holds n d (at + 1) cs h.2 (ap d (omega arith) ∙ z) (omega arith) in
    ground (arith, h.0, h.1, rest)

pub string_of-IsBuffer : (b : OutputBuffer) (text : List ℕ) → IsBuffer b text → string_of b ≡ text
unfolding string_of
string_of-IsBuffer b text h = rw h.own (
    string_at-Holds b.alloc h.block 0 text h.held (ap h.block (omega arith) ∙ h.closed)
      (omega (arith, h.counted, h.fits)))

-- A text that needs one byte more than there is loses its last byte to the closing 0.
vsnprintf-short :
    (text : List ℕ) (c at : ℕ) (d : Block)
    → Proper text
    → Holds (vsnprintf (text ++ (c ∷ [])) (suc (length text)) at d) at text
      × (vsnprintf (text ++ (c ∷ [])) (suc (length text)) at d (at + length text) ≡ 0)
unfolding vsnprintf
vsnprintf-short [] c at d h = (tt, ground arith)
vsnprintf-short (x ∷ xs) c at d h =
    let first : Block = λ i. if i == at then x else d i in
    let later = vsnprintf-short xs c (at + 1) first h.1 in
    (
      (
        ground (arith, vsnprintf-before (xs ++ (c ∷ [])) (suc (length xs)) (at + 1) first at),
        h.0,
        later.0,
      ),
      ap (vsnprintf (xs ++ (c ∷ [])) (suc (length xs)) (at + 1) first) (omega arith) ∙ later.1,
    )

store_text-short :
    (steps : ℕ) (has_memory : Bool) (junk : Block) (text : List ℕ) (b : OutputBuffer) (d : Block)
    (n : ℕ)
    → length text ≡ n
    → sub64 b.alloc b.used ≡ n
    → b.used + n ≤ b.alloc
    → store_text steps has_memory junk text b d
      ≡ wrote n
          (record b { used = b.used + n; content = some (vsnprintf text n (sub64 b.used 1) d) })
unfolding store_text count_in
store_text-short steps has_memory junk text b d n whole room fits =
    let same : ltb n n ≡ false = ground arith in
    let holds : leb (b.used + n) b.alloc ≡ true = ground arith in rw (room, whole, same, holds) refl

-- Where a text fills the rest of the understudy's buffer to the last byte, its own last byte does not get
-- there: the buffer then reads as the old text and the new one without its last byte, while the call
-- returns the number of all bytes and counts them as used.
pub bop_printf-short :
    (steps : ℕ) (has_memory : Bool) (junk : Block) (old text : List ℕ) (c : ℕ) (o : Output)
    → IsBuffer o.undy_buffer old
    → Proper text
    → o.undy_buffer.alloc ≡ o.undy_buffer.used + suc (length text)
    → o.undy_buffer.alloc < 2 ^ 64
    → (b' : OutputBuffer) × (bop_printf steps has_memory junk TaskStatus.undy
          (some (text ++ (c ∷ [])))
          o
        ≡ wrote (suc (length text)) (record o { undy_buffer = b' }))
      × (string_of b' ≡ old ++ text)
      × (b'.used ≡ b'.alloc)
unfolding bop_printf print_undy store_checked string_of
bop_printf-short steps has_memory junk old text c o h proper full lt =
    let b = o.undy_buffer in
    let room : sub64 b.alloc b.used ≡ suc (length text) =
      omega (arith, full, sub64_exact b.alloc b.used) in
    let place : sub64 b.used 1 ≡ length old =
      omega (arith, h.counted, full, sub64_exact b.used 1) in
    let whole : length (text ++ (c ∷ [])) ≡ suc (length text) =
      omega (arith, length-append text (c ∷ [])) in
    let d' = vsnprintf (text ++ (c ∷ [])) (suc (length text)) (sub64 b.used 1) h.block in
    let ends : (h.block (sub64 b.used 1) == 0) ≡ true =
      ground (arith, ap h.block place, h.closed) in
    let stored =
      store_text-short steps has_memory junk (text ++ (c ∷ [])) b h.block (suc (length text)) whole
        room (omega (arith, full)) in
    let left : OutputBuffer = record b { used = b.used + suc (length text); content = some d' } in
    let checked : store_checked steps has_memory junk (some (text ++ (c ∷ []))) b (some h.block)
        ≡ wrote (suc (length text)) left =
      rw (store_checked, ends) stored in
    let (held, closed) =
      Holds-behind h.block d' (sub64 b.used 1) old text h.held place
        (λ i q.
          vsnprintf-before (text ++ (c ∷ [])) (suc (length text)) (sub64 b.used 1) h.block i q)
        (vsnprintf-short text c (sub64 b.used 1) h.block proper) in
    (
      left,
      ap (print_undy o)
          (ap (store_checked steps has_memory junk (some (text ++ (c ∷ []))) b) h.own ∙ checked),
      string_at-Holds b.alloc d' 0 (old ++ text) held (ap d' (omega arith) ∙ closed)
          (omega (arith, full, h.counted, length-append old text)),
      sym full,
    )

-- The buffers of a group with their texts.
abbrev pub AllBuffers : List OutputBuffer → List (List ℕ) → Type 0
AllBuffers [] [] = Unit
AllBuffers [] (t ∷ ts) = ⊥
AllBuffers (b ∷ bs) [] = ⊥
AllBuffers (b ∷ bs) (t ∷ ts) = IsBuffer b t × AllBuffers bs ts

abbrev pub joined : List (List ℕ) → List ℕ
joined [] = []
joined (t ∷ ts) = t ++ joined ts

strings_of-AllBuffers :
    (bs : List OutputBuffer) (ts : List (List ℕ)) → AllBuffers bs ts → strings_of bs ≡ joined ts
unfolding strings_of
strings_of-AllBuffers [] [] h = refl
strings_of-AllBuffers [] (t ∷ ts) h = absurd h
strings_of-AllBuffers (b ∷ bs) [] h = absurd h
strings_of-AllBuffers (b ∷ bs) (t ∷ ts) h =
    rw (string_of-IsBuffer b t h.0, strings_of-AllBuffers bs ts h.1) refl

first_buffers-all : (bs : List OutputBuffer) → first_buffers (length bs) bs ≡ some bs
unfolding first_buffers
first_buffers-all [] = refl
first_buffers-all (b ∷ bs) = rw (first_buffers-all bs) refl

group_buffers-all : (bs : List OutputBuffer) → group_buffers (length bs) (some bs) ≡ some bs
unfolding group_buffers
group_buffers-all [] = refl
group_buffers-all (b ∷ bs) = first_buffers-all (b ∷ bs)

free_all_buffers-all :
    (o : Output)
    → (bs : List OutputBuffer) → group_buffers o.num_buffers o.output_buffers ≡ some bs
    → free_all_buffers o
      ≡ some (record o {
        output_buffers = none;
        undy_buffer = record o.undy_buffer { content = none };
      })
unfolding free_all_buffers
free_all_buffers-all o bs all = rw (free_all_buffers, all) refl

all_buffers :
    (o : Output) (bs : List OutputBuffer)
    → o.output_buffers ≡ some bs
    → o.num_buffers ≡ length bs
    → group_buffers o.num_buffers o.output_buffers ≡ some bs
all_buffers o bs e n =
    ap (λ k. group_buffers k o.output_buffers) n
    ∙ ap (group_buffers (length bs)) e
    ∙ group_buffers-all bs

-- When a group succeeds, the texts of its buffers come out in the order of the tasks, and all buffers are
-- given up.
pub io_group_succ-joined :
    (o : Output) (bs : List OutputBuffer) (ts : List (List ℕ))
    → o.output_buffers ≡ some bs
    → o.num_buffers ≡ length bs
    → AllBuffers bs ts
    → (o' : Output) × (io_group_succ o ≡ some o')
      × (o'.stdout ≡ o.stdout ++ joined ts)
      × (o'.output_buffers ≡ none)
      × (o'.undy_buffer.content ≡ none)
unfolding io_group_succ
io_group_succ-joined o bs ts e n h =
    let all = all_buffers o bs e n in
    (
      record o {
        output_buffers = none;
        undy_buffer = record o.undy_buffer { content = none };
        stdout = o.stdout ++ strings_of bs;
      },
      rw (io_group_succ, all)
          (free_all_buffers-all (record o { stdout = o.stdout ++ strings_of bs }) bs all),
      ap (λ l. o.stdout ++ l) (strings_of-AllBuffers bs ts h),
      refl,
      refl,
    )

-- When the understudy succeeds, the text of its buffer comes out, and all buffers are given up.
pub io_undy_succ-text :
    (o : Output) (bs : List OutputBuffer) (text : List ℕ)
    → o.output_buffers ≡ some bs
    → o.num_buffers ≡ length bs
    → IsBuffer o.undy_buffer text
    → (o' : Output) × (io_undy_succ o ≡ some o')
      × (o'.stdout ≡ o.stdout ++ text)
      × (o'.output_buffers ≡ none)
      × (o'.undy_buffer.content ≡ none)
unfolding io_undy_succ
io_undy_succ-text o bs text e n h = (
  record o {
    output_buffers = none;
    undy_buffer = record o.undy_buffer { content = none };
    stdout = o.stdout ++ string_of o.undy_buffer;
  },
  free_all_buffers-all (record o { stdout = o.stdout ++ string_of o.undy_buffer }) bs
      (all_buffers o bs e n),
  ap (λ l. o.stdout ++ l) (string_of-IsBuffer o.undy_buffer text h),
  refl,
  refl,
)
