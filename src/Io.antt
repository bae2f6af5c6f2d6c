-- ===== src/Io.antt =====
-- bop_io.c: the buffers that the tasks of a group print into, and the order in which they come out. A
-- block of memory is a function from offsets to bytes; `junk` is what fresh memory holds, and a flag says
-- whether the allocator has memory left.
pub mod Store
pub mod Group
use cbop.Prelude.{
  ℕ, zero, suc, ◌+◌, ◌*◌, ◌%◌, ◌-◌, Bool, true, false, not, List, [], ◌∷◌, ◌++◌, Option, none, some,
  ltb, leb, ◌==◌, length, if◌then◌else◌,
}
use cbop.Prelude.Word.{word, add64, sub64}
use cbop.Task.{TaskStatus}

abbrev pub Block : Type 0
Block = ℕ → ℕ

-- `output_buffer`; the pointer may be NULL.
pub record OutputBuffer : Type 0 where
  pub alloc : ℕ
  pub used : ℕ
  pub content : Option Block

-- The variables of the file, with what has come out of the process.
pub record Output : Type 0 where
  pub num_buffers : ℕ
  pub output_buffers : Option (List OutputBuffer)
  pub undy_buffer : OutputBuffer
  pub stdout : List ℕ

-- Over the first buffers. It is true where one of them is used; `none` is an access beyond the array.
unfoldable pub all_buffs_empty : ℕ → List OutputBuffer → Option Bool
all_buffs_empty zero bs = some false
all_buffs_empty (suc n) [] = none
all_buffs_empty (suc n) (b ∷ bs) =
    let rest = all_buffs_empty n bs in if not (b.used == 0) then some true else rest

-- `vsnprintf` of a text to a place of a block: at most `avail` bytes with the closing 0.
unfoldable pub vsnprintf : List ℕ → ℕ → ℕ → Block → Block
vsnprintf text zero at d = d
vsnprintf [] (suc avail) at d = λ i. if i == at then 0 else d i
vsnprintf (c ∷ cs) (suc zero) at d = λ i. if i == at then 0 else d i
vsnprintf (c ∷ cs) (suc (suc avail)) at d =
    vsnprintf cs (suc avail) (at + 1) (λ i. if i == at then c else d i)

-- `printf( "%s" )` of a block of some length from a place on.
unfoldable pub string_at : ℕ → Block → ℕ → List ℕ
string_at zero d at = []
string_at (suc n) d at = let rest = string_at n d (at + 1) in if d at == 0 then [] else d at ∷ rest

-- (NULL has no text.)
unfoldable pub string_of : OutputBuffer → List ℕ
unfolding string_at
string_of b = elim b.content [ none ↦ [] | some d ↦ string_at b.alloc d 0 ]

-- What a call of `BOP_printf` comes to: a number of bytes, a negative number, the end of the process,
-- or a doubling that does not end within the steps.
pub data Printed (A : Type 0) : Type 0 where
  wrote : ℕ → A → Printed A
  refused : A → Printed A
  exited : Printed A
  failed_assert : Printed A
  looping : Printed A

-- `do new_size *= 2; while ( new_size < need );`
unfoldable pub doubled : ℕ → ℕ → ℕ → Option ℕ
doubled zero size need = none
doubled (suc steps) size need =
    let more = doubled steps ((size * 2) % word) need in
    if ltb ((size * 2) % word) need then more else some ((size * 2) % word)

unfoldable pub realloc : Block → Block → ℕ → Block
realloc junk d size i = if ltb i size then d i else junk i

-- The last lines of the function.
unfoldable pub count_in : OutputBuffer → Block → ℕ → Printed OutputBuffer
count_in b d size =
    if leb (b.used + size) b.alloc
    then wrote size (record b { used = b.used + size; content = some d })
    else failed_assert

-- The text again, into a larger block.
unfoldable pub store_grown : Block → List ℕ → OutputBuffer → Block → Option ℕ → Printed OutputBuffer
unfolding realloc vsnprintf count_in
store_grown junk text b d none = looping
store_grown junk text b d (some new_size) =
    let avail = sub64 new_size b.used in
    if ltb avail (length text)
    then failed_assert
    else count_in (record b { alloc = new_size })
        (vsnprintf text avail (sub64 b.used 1) (realloc junk d b.alloc)) (length text)

-- The first attempt, and the larger block where the text does not fit.
unfoldable pub store_text : ℕ → Bool → Block → List ℕ → OutputBuffer → Block → Printed OutputBuffer
unfolding store_grown doubled vsnprintf count_in
store_text steps has_memory junk text b d =
    let avail = sub64 b.alloc b.used in
    let tried = vsnprintf text avail (sub64 b.used 1) d in
    let grown =
      store_grown junk text b tried (doubled steps b.alloc (add64 b.used (length text))) in
    if ltb avail (length text)
    then (if has_memory then grown else refused (record b { content = some tried }))
    else count_in b tried (length text)

-- From the assertions on; no text is an error of `vsnprintf`.
unfoldable pub store_checked :
    ℕ → Bool → Block → Option (List ℕ) → OutputBuffer → Option Block → Printed OutputBuffer
unfolding store_text
store_checked steps has_memory junk text b none = failed_assert
store_checked steps has_memory junk none b (some d) =
    if d (sub64 b.used 1) == 0 then refused b else failed_assert
store_checked steps has_memory junk (some text) b (some d) =
    let stored = store_text steps has_memory junk text b d in
    if d (sub64 b.used 1) == 0 then stored else failed_assert

unfoldable pub print_undy : Output → Printed OutputBuffer → Printed Output
print_undy o (wrote n b) = wrote n (record o { undy_buffer = b })
print_undy o (refused b) = refused (record o { undy_buffer = b })
print_undy o exited = exited
print_undy o failed_assert = failed_assert
print_undy o looping = looping

-- `vfprintf` to the standard output.
unfoldable pub print_direct : Output → Option (List ℕ) → Printed Output
print_direct o none = refused o
print_direct o (some text) = wrote (length text) (record o { stdout = o.stdout ++ text })

-- A speculative task falls through to the branch that ends the process.
unfoldable pub bop_printf :
    ℕ → Bool → Block → TaskStatus → Option (List ℕ) → Output → Printed Output
unfolding print_direct print_undy store_checked
bop_printf steps has_memory junk TaskStatus.seq text o = print_direct o text
bop_printf steps has_memory junk TaskStatus.main text o = print_direct o text
bop_printf steps has_memory junk TaskStatus.undy text o =
    print_undy o (store_checked steps has_memory junk text o.undy_buffer o.undy_buffer.content)
bop_printf steps has_memory junk TaskStatus.spec text o = elim o.output_buffers [
  | none ↦ failed_assert
  | some bs ↦ exited
]

-- `none` is the failure of an assertion.
unfoldable pub init_buffer : Option Block → ℕ → Option OutputBuffer
init_buffer none size = none
init_buffer (some d) size =
    if leb 1 size
    then some (record { alloc = size; used = 1; content = some (λ i. if i == 0 then 0 else d i) })
    else none

unfoldable pub init_buffers : Block → ℕ → Option (List OutputBuffer)
unfolding init_buffer
init_buffers junk zero = some []
init_buffers junk (suc n) = elim (init_buffer (some junk) 1) [
  | none ↦ none
  | some b ↦ elim (init_buffers junk n) [ none ↦ none | some bs ↦ some (b ∷ bs) ]
]

-- The assertion on the buffers of the last group, with the number of the new group.
unfoldable pub may_replace : ℕ → Option (List OutputBuffer) → Bool
unfolding all_buffs_empty
may_replace n none = true
may_replace n (some bs) = elim (all_buffs_empty n bs) [ none ↦ false | some empty ↦ empty ]

unfoldable pub is_null : Option Block → Bool
is_null none = true
is_null (some d) = false

-- Where the allocator has memory, for a group of at least one task; `none` is the failure of an assertion.
unfoldable pub io_group_init : Block → ℕ → Output → Option Output
unfolding may_replace is_null init_buffer init_buffers
io_group_init junk group_size o =
    if may_replace (group_size - 1) o.output_buffers
    then (if is_null o.undy_buffer.content
        then elim (init_buffer (some junk) 1) [
          | none ↦ none
          | some undy ↦ elim (init_buffers junk (group_size - 1)) [
            | none ↦ none
            | some bs ↦ some (record o {
              num_buffers = group_size - 1;
              output_buffers = some bs;
              undy_buffer = undy;
            })
          ]
        ]
        else none)
    else none

-- The first buffers of the group; `none` is an access through NULL or beyond their array.
unfoldable pub first_buffers : ℕ → List OutputBuffer → Option (List OutputBuffer)
first_buffers zero bs = some []
first_buffers (suc n) [] = none
first_buffers (suc n) (b ∷ bs) = elim (first_buffers n bs) [
  | none ↦ none
  | some firsts ↦ some (b ∷ firsts)
]

unfoldable pub group_buffers : ℕ → Option (List OutputBuffer) → Option (List OutputBuffer)
unfolding first_buffers
group_buffers zero bs = some []
group_buffers (suc n) none = none
group_buffers (suc n) (some bs) = first_buffers (suc n) bs

unfoldable pub free_all_buffers : Output → Option Output
unfolding group_buffers
free_all_buffers o = elim (group_buffers o.num_buffers o.output_buffers) [
  | none ↦ none
  | some bs ↦
      some
        (record o { output_buffers = none; undy_buffer = record o.undy_buffer { content = none } })
]

unfoldable pub strings_of : List OutputBuffer → List ℕ
unfolding string_of
strings_of [] = []
strings_of (b ∷ bs) = string_of b ++ strings_of bs

unfoldable pub io_group_succ : Output → Option Output
unfolding group_buffers strings_of free_all_buffers
io_group_succ o = elim (group_buffers o.num_buffers o.output_buffers) [
  | none ↦ none
  | some bs ↦ free_all_buffers (record o { stdout = o.stdout ++ strings_of bs })
]

unfoldable pub io_undy_succ : Output → Option Output
unfolding string_of free_all_buffers
io_undy_succ o = free_all_buffers (record o { stdout = o.stdout ++ string_of o.undy_buffer })

unfoldable pub rescued : Block → Output → Option Output
unfolding init_buffer
rescued junk o = elim (init_buffer (some junk) 1) [
  | none ↦ none
  | some undy ↦ some (record o { undy_buffer = undy })
]

unfoldable pub io_on_malloc_rescue : Block → Output → Option Output
unfolding rescued free_all_buffers
io_on_malloc_rescue junk o = elim (free_all_buffers o) [
  | none ↦ none
  | some freed ↦ rescued junk freed
]
