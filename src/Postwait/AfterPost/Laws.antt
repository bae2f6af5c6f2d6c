-- ===== src/Postwait/AfterPost/Laws.antt =====
-- The check of postwait.c for changes after a post, against the bytes that the sender committed.
use cbop.Prelude.{
  ℕ, zero, suc, ◌<◌, ◌≡◌, ◌≢◌, ◌∙◌, refl, sym, ap, true, false, List, [], ◌∷◌, ◌==◌, Bool, ◌&&◌,
  ◌%◌, ◌^◌, ◌↔◌, arith, inl, inr, ◌⊎◌, Bool-cases,
}
use cbop.RangeTree.Range.{MemRange}
use cbop.RangeTree.Tree.{Tree}
use cbop.RangeTree.Map.{RangeMap}
use cbop.Postwait.AfterPost.{AfterPost, unmodified, modified, Memcmp}

abbrev pub Listed : MemRange → List MemRange → Type 0
Listed r [] = ⊥
Listed r (x ∷ xs) = (r ≡ x) ⊎ Listed r xs

abbrev pub Agree : (ℕ → ℕ) → (ℕ → ℕ) → ℕ → Type 0
Agree f g n = (i : ℕ) → i < n → f i ≡ g i

abbrev pub Differ : (ℕ → ℕ) → (ℕ → ℕ) → ℕ → Type 0
Differ f g n = (i : ℕ) × (i < n) × (f i ≢ g i)

-- Whether some bytes are equal.
unfoldable pub same_data : ℕ → (ℕ → ℕ) → (ℕ → ℕ) → Bool
same_data zero f g = true
same_data (suc n) f g = f n == g n && same_data n f g

pub same_data-cases :
    (n : ℕ) (f g : ℕ → ℕ)
    → ((same_data n f g ≡ true) × Agree f g n) ⊎ ((same_data n f g ≡ false) × Differ f g n)
unfolding same_data
same_data-cases zero f g = inl (refl, λ i p. absurd (omega arith))
same_data-cases (suc n) f g = elim (same_data-cases n f g) [
  | inl (e, h) ↦ elim (Bool-cases (f n == g n)) [
    | inl p ↦ inl (
      ground (arith, e, p),
      λ i q. elim (Bool-cases (i == n)) [
        | inl z ↦
            let same : i ≡ n = ground arith in ap f same ∙ (ground (arith, p)) ∙ sym (ap g same)
        | inr z ↦ h i (ground (arith, z))
      ],
    )
    | inr p ↦ inr (ground (arith, p), (n, omega arith, ground (arith, p)))
  ]
  | inr (e, d) ↦ inr (ground (arith, e), (d.0, omega arith, d.2))
]

-- What `memcmp` promises: 0 exactly for equal bytes.
abbrev pub Compares : Memcmp → Type 0
Compares memcmp = (f g : ℕ → ℕ) (n : ℕ) → (memcmp f g n ≡ 0) ↔ Agree f g n

-- What the check of one range that a task received and used comes to, by the word of `memcmp`.
abbrev pub Outcome : ℕ → AfterPost → List RangeMap → (ℕ → ℕ) → (ℕ → ℕ) → ℕ → Type 0
Outcome diff out patches committed received size =
    ((out ≡ unmodified patches)
      × (Agree committed received size
          ⊎ (Differ committed received size × (diff ≢ 0) × (diff % 2 ^ 8 ≡ 0))))
    ⊎ ((out ≡ modified) × Differ committed received size × (diff % 2 ^ 8 ≢ 0))

-- The bytes that `memcmp` gets are those that the sender committed and those that were received.
abbrev pub Decides : Memcmp → AfterPost → List RangeMap → (ℕ → ℕ) → (ℕ → ℕ) → ℕ → Type 0
Decides memcmp out patches committed received size =
    (sent : ℕ → ℕ) × Agree sent committed size
    × Outcome (memcmp sent received size) out patches committed received size
