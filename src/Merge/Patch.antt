-- ===== src/Merge/Patch.antt =====
-- The patches of bop_merge.c: what a patch keeps of a task's writes, and what the commit of a group
-- makes of the memory.
use cbop.Prelude.{
  ℕ, ◌+◌, ◌-◌, ◌≤◌, ◌<◌, ◌≡◌, refl, sym, ap, ◌∙◌, List, [], ◌∷◌, ◌++◌, arith, length, inl, inr,
  Bool-cases, append_assoc, append-nil, if◌then◌else◌,
}
use cbop.Prelude.Word.{max_addr}
use cbop.RangeTree.Range.{MemRange, within, holds}
use cbop.RangeTree.Tree.{to_list, covers_list, Between, Between-iff, Between-append}
use cbop.RangeTree.Add.{new_node}
use cbop.RangeTree.Add.Append.{to_list-add_range}
use cbop.Merge.{Memory, PatchInject, inject, fill_block, add_range_block, apply_range_block}

-- The ranges of a map with a gap before each of them.
abbrev pub Apart : ℕ → List MemRange → Type 0
Apart lo [] = Unit
Apart lo (r ∷ rs) =
    (lo < r.base) × (0 < r.size) × (r.base + r.size ≤ max_addr) × Apart (r.base + r.size) rs

-- The memory with the ranges of a list overwritten.
abbrev pub overwrite : List MemRange → Memory → Memory → Memory
overwrite rs source memory a = if covers_list rs a then source a else memory a

-- Every range has its bytes in the block of its record.
abbrev pub Stores : (ℕ → ℕ → ℕ) → Memory → List MemRange → Type 0
Stores blocks source [] = Unit
Stores blocks source (r ∷ rs) =
    ((i : ℕ) → i < r.size → blocks r.rec i ≡ source (r.base + i)) × Stores blocks source rs

overwrite-first :
    (blocks : ℕ → ℕ → ℕ) (source : Memory) (r : MemRange) (rs : List MemRange) (memory : Memory)
    (a : ℕ)
    → ((i : ℕ) → i < r.size → blocks r.rec i ≡ source (r.base + i))
    → overwrite rs source
        (λ x. if within r.base r.size x then blocks r.rec (x - r.base) else memory x)
        a
      ≡ overwrite (r ∷ rs) source memory a
overwrite-first blocks source r rs memory a h = elim (Bool-cases (holds r a)) [
  | inl inside ↦
      let offset : r.base + (a - r.base) ≡ a = ground arith in
      let stored : blocks r.rec (a - r.base) ≡ source a =
        h (a - r.base) (ground arith) ∙ ap source offset in
      ground (arith, inside, stored)
  | inr outside ↦ ground (arith, outside)
]

pub inject-apply_range_block :
    (blocks : ℕ → ℕ → ℕ) (source : Memory) (rs : List MemRange) (memory : Memory) (sum a : ℕ)
    → Stores blocks source rs
    → (inject (apply_range_block blocks) (memory, sum) rs).0 a ≡ overwrite rs source memory a
unfolding inject apply_range_block
inject-apply_range_block blocks source [] memory sum a h = refl
inject-apply_range_block blocks source (r ∷ rs) memory sum a h =
    inject-apply_range_block blocks source rs
      (λ x. if within r.base r.size x then blocks r.rec (x - r.base) else memory x) _ a h.1
    ∙ overwrite-first blocks source r rs memory a h.0

module _ (calloc : ℕ → ℕ) (fresh : (i j : ℕ) → calloc i ≡ calloc j → i ≡ j) where
  -- The records of the ranges are among the first allocations.
  abbrev pub Made : ℕ → List MemRange → Type 0
  Made n [] = Unit
  Made n (r ∷ rs) = ((k : ℕ) × (k < n) × (r.rec ≡ calloc k)) × Made n rs

  -- The ranges of a change set with the records that they get.
  abbrev pub copied : ℕ → List MemRange → List MemRange
  copied n [] = []
  copied n (r ∷ rs) = new_node r.base r.size (calloc n) ∷ copied (n + 1) rs

  -- A new block leaves the blocks of earlier records as they are.
  Stores-fill_block :
      (n : ℕ) (blocks : ℕ → ℕ → ℕ) (memory source : Memory) (r : MemRange) (rs : List MemRange)
      → Made n rs
      → Stores blocks source rs
      → Stores (fill_block memory r blocks (calloc n)) source rs
  unfolding fill_block
  Stores-fill_block n blocks memory source r [] made h = tt
  Stores-fill_block n blocks memory source r (x ∷ rs) made h = (
    (λ i p. ground (arith, h.0 i p, made.0, fresh made.0.0 n)),
    Stores-fill_block n blocks memory source r rs made.1 h.1,
  )

  pub Made-mono : (n n' : ℕ) (rs : List MemRange) → n ≤ n' → Made n rs → Made n' rs
  Made-mono n n' [] p h = tt
  Made-mono n n' (r ∷ rs) p h = ((h.0.0, omega arith, h.0.2), Made-mono n n' rs p h.1)

  Made-append : (n : ℕ) (xs ys : List MemRange) → Made n xs → Made n ys → Made n (xs ++ ys)
  Made-append n [] ys h k = k
  Made-append n (x ∷ xs) ys h k = (h.0, Made-append n xs ys h.1 k)

  -- What copying the ranges of a list does to a patch under construction.
  pub record Copies (memory : Memory) (rs : List MemRange) (b b' : PatchInject) : Type 0 where
    pub ranges : to_list b'.patch.root ≡ to_list b.patch.root ++ copied b.space.made rs
    pub counted : b'.space.made ≡ b.space.made + length rs
    pub earlier :
        (source : Memory) (xs : List MemRange)
        → Made b.space.made xs
        → Stores b.space.blocks source xs
        → Stores b'.space.blocks source xs
    pub own : Stores b'.space.blocks memory (copied b.space.made rs)

  add_range_block-ranges :
      (memory : Memory) (b : PatchInject) (r : MemRange) (hi : ℕ)
      → Between 0 b.patch.root hi
      → hi < r.base
      → 0 < r.size
      → r.base + r.size ≤ max_addr
      → to_list (add_range_block calloc memory b r).patch.root
        ≡ to_list b.patch.root ++ (new_node r.base r.size (calloc b.space.made) ∷ [])
  unfolding add_range_block
  add_range_block-ranges memory b r hi h p n fits =
      to_list-add_range b.patch r.base r.size (calloc b.space.made) hi h p n fits

  add_range_block-Between :
      (memory : Memory) (b : PatchInject) (r : MemRange) (hi : ℕ)
      → Between 0 b.patch.root hi
      → hi < r.base
      → 0 < r.size
      → r.base + r.size ≤ max_addr
      → Between 0 (add_range_block calloc memory b r).patch.root (r.base + r.size)
  unfolding new_node
  add_range_block-Between memory b r hi h p n fits = (Between-iff _ 0 (r.base + r.size)).1 (
      rw (add_range_block-ranges memory b r hi h p n fits) (
        Between-append b.patch.root (new_node r.base r.size (calloc b.space.made) ∷ []) 0 hi
          (r.base + r.size) h (omega arith, n, omega arith)))

  add_range_block-own :
      (memory : Memory) (b : PatchInject) (r : MemRange)
      → Stores
          (add_range_block calloc memory b r).space.blocks
          memory
          (new_node r.base r.size (calloc b.space.made) ∷ [])
  unfolding add_range_block fill_block new_node
  add_range_block-own memory b r = ((λ i p. ground arith), tt)

  Copies-cons :
      (memory : Memory) (r : MemRange) (rs : List MemRange) (b b' : PatchInject) (hi : ℕ)
      → Between 0 b.patch.root hi
      → hi < r.base
      → 0 < r.size
      → r.base + r.size ≤ max_addr
      → Copies memory rs (add_range_block calloc memory b r) b'
      → Copies memory (r ∷ rs) b b'
  unfolding add_range_block new_node
  Copies-cons memory r rs b b' hi h p n fits later = record {
    ranges =
        later.ranges
        ∙ ap (λ l. l ++ copied (b.space.made + 1) rs)
            (add_range_block-ranges memory b r hi h p n fits)
        ∙ append_assoc (to_list b.patch.root) (new_node r.base r.size (calloc b.space.made) ∷ [])
            (copied (b.space.made + 1) rs);
    counted = omega (arith, later.counted);
    earlier = λ source xs made stored.
        later.earlier source xs (Made-mono b.space.made (b.space.made + 1) xs (omega arith) made)
          (Stores-fill_block b.space.made b.space.blocks memory source r xs made stored);
    own = (
      (later.earlier memory (new_node r.base r.size (calloc b.space.made) ∷ [])
          ((b.space.made, omega arith, refl), tt) (add_range_block-own memory b r)).0,
      later.own,
    );
  }

  pub inject-Copies :
      (memory : Memory) (rs : List MemRange) (b : PatchInject) (hi : ℕ)
      → Between 0 b.patch.root hi
      → Apart hi rs
      → Copies memory rs b (inject (add_range_block calloc memory) b rs)
  unfolding inject
  inject-Copies memory [] b hi h a = record {
    ranges = sym (append-nil (to_list b.patch.root));
    counted = omega arith;
    earlier = λ source xs made stored. stored;
    own = tt;
  }
  inject-Copies memory (r ∷ rs) b hi h a = Copies-cons memory r rs b _ hi h a.0 a.1 a.2 (
      inject-Copies memory rs (add_range_block calloc memory b r) (r.base + r.size)
        (add_range_block-Between memory b r hi h a.0 a.1 a.2) a.3)
