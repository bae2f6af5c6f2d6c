-- ===== src/RangeTree/Add/Cover.antt =====
-- `map_add_range` of dtree.c: the order that it keeps and the addresses that it covers.
use cbop.Prelude.{
  ℕ, ◌+◌, ◌≤◌, ◌<◌, ◌≡◌, Bool, true, false, ◌&&◌, ◌||◌, not, ◌∙◌, arith, Bool-cases, leb, ltb, ◌⊎◌,
  inl, inr,
}
use cbop.Prelude.Word.{max_addr}
use cbop.RangeTree.Range.{MemRange, IsRange, within, holds}
use cbop.RangeTree.Tree.{Tree, leaf, node, count, covers, Between, covers-below}
use cbop.RangeTree.Splay.{splay}
use cbop.RangeTree.Splay.Keys.{
  Splits, splay-Splits, is_leaf-node, splay-Between, covers-splay, count-splay,
  covers_of_BasesBelow,
}
use cbop.RangeTree.Map.{RangeMap, IsWellFormed, covered}
use cbop.RangeTree.Add.{new_node, add_at, add_under, add_range}
use cbop.RangeTree.Add.Root.{
  joins, joins_lem, root-IsRange, expand_root-IsWellFormed, covered-expand_root,
  insert_left-IsWellFormed, covered-insert_left, insert_right-IsWellFormed, covered-insert_right,
}

-- The addresses from `e` to the start of the root.
abbrev pub before_root : ℕ → Tree → ℕ → Bool
before_root e leaf a = false
before_root e (node lc top rc) a = leb e a && ltb a top.base

module _ (m : RangeMap) (n : MemRange) (hn : IsRange n) where
  add_at-IsWellFormed :
      (t : Tree)
      → Between 0 t max_addr
      → Splits n.base t
      → m.size ≡ count t
      → IsWellFormed (add_at m n t)
  unfolding add_at joins
  add_at-IsWellFormed leaf ordered splits counted = absurd splits
  add_at-IsWellFormed (node lc top rc) ordered splits counted = ground (
    arith,
    root-IsRange m n lc top rc hn ordered splits counted,
    joins_lem n top hn,
    expand_root-IsWellFormed m n lc top rc hn ordered splits counted,
    insert_left-IsWellFormed m n lc top rc hn ordered splits counted,
    insert_right-IsWellFormed m n lc top rc hn ordered splits counted,
  )

  covered-add_at :
      (t : Tree) (a : ℕ)
      → Between 0 t max_addr
      → Splits n.base t
      → m.size ≡ count t
      → covered (add_at m n t) a
        ≡ (holds n a || (covers t a && not (before_root (n.base + n.size) t a)))
  unfolding add_at joins
  covered-add_at leaf a ordered splits counted = absurd splits
  covered-add_at (node lc top rc) a ordered splits counted = ground (
    arith,
    root-IsRange m n lc top rc hn ordered splits counted,
    joins_lem n top hn,
    covered-expand_root m n lc top rc hn ordered splits counted a,
    λ (p : n.base + n.size ≤ top.base).
        covered-insert_left m n lc top rc hn ordered splits counted p a,
    λ (p : top.base + top.size ≤ n.base).
        covered-insert_right m n lc top rc hn ordered splits counted p a,
  )

  add_under-IsWellFormed :
      (t : Tree) → Between 0 t max_addr → m.size ≡ count t → IsWellFormed (add_under m n t)
  unfolding add_under
  add_under-IsWellFormed leaf ordered counted = omega (arith, hn)
  add_under-IsWellFormed (node lc r rc) ordered counted =
      add_at-IsWellFormed (splay (node lc r rc) n.base)
        (splay-Between (node lc r rc) n.base 0 max_addr ordered)
        (splay-Splits (node lc r rc) n.base 0 max_addr (is_leaf-node lc r rc) ordered)
        (omega (arith, counted, count-splay (node lc r rc) n.base))

  covered-add_under :
      (t : Tree) (a : ℕ)
      → Between 0 t max_addr
      → m.size ≡ count t
      → covered (add_under m n t) a
        ≡ (holds n a || (covers t a && not (before_root (n.base + n.size) (splay t n.base) a)))
  unfolding add_under
  covered-add_under leaf a ordered counted = ground arith
  covered-add_under (node lc r rc) a ordered counted = rw (← covers-splay (node lc r rc) n.base a) (
      covered-add_at (splay (node lc r rc) n.base) a
        (splay-Between (node lc r rc) n.base 0 max_addr ordered)
        (splay-Splits (node lc r rc) n.base 0 max_addr (is_leaf-node lc r rc) ordered)
        (omega (arith, counted, count-splay (node lc r rc) n.base)))

-- A covered address before the root lies in a range that starts before the key.
covers_of_before_root :
    (t : Tree) (key e e' a hi : ℕ)
    → Splits key t
    → Between 0 t hi
    → key ≤ e'
    → e' ≤ e
    → before_root e t a ≡ true
    → covers t a ≡ true
    → covers t e' ≡ true
covers_of_before_root leaf key e e' a hi s h p q b c = cc
covers_of_before_root (node lc top rc) key e e' a hi s h p q b c =
    ground (
      arith,
      covers-below rc (top.base + top.size) hi a h.2,
      covers_of_BasesBelow lc key e' a p,
      s.0,
    )

-- What is lost when `base` and `size` are added: what the map covers from the end of the new range
-- to the start of the root that the splay leaves.
abbrev pub lost : RangeMap → ℕ → ℕ → ℕ → Bool
lost m base size a = before_root (base + size) (splay m.root base) a

module _ (m : RangeMap) (base size obj : ℕ) (nonempty : 0 < size) (fits : base + size ≤ max_addr)
    (w : IsWellFormed m) where
  new_node-IsRange : IsRange (new_node base size obj)
  unfolding new_node
  new_node-IsRange = record { nonempty = nonempty; fits = fits }

  -- Adding a range that is not empty and does not wrap keeps the map well formed.
  pub add_range-IsWellFormed : IsWellFormed (add_range m base size obj)
  unfolding add_range
  add_range-IsWellFormed =
      add_under-IsWellFormed m (new_node base size obj) new_node-IsRange m.root w.ordered w.counted

  -- The map then covers the new range, and what it covered before but for what is lost.
  pub covered-add_range :
      (a : ℕ)
      → covered (add_range m base size obj) a
        ≡ (within base size a || (covered m a && not (lost m base size a)))
  unfolding add_range
  covered-add_range a =
      covered-add_under m (new_node base size obj) new_node-IsRange m.root a w.ordered w.counted

  lost-covered :
      (a e' : ℕ)
      → base ≤ e'
      → e' ≤ base + size
      → covered m a ≡ true
      → lost m base size a ≡ true
      → covered m e' ≡ true
  lost-covered a e' p q c l = by_root m.root w.ordered c l
    where
      by_root :
          (t : Tree)
          → Between 0 t max_addr
          → covers t a ≡ true
          → before_root (base + size) (splay t base) a ≡ true
          → covers t e' ≡ true
      by_root leaf h c l = cc
      by_root (node lc r rc) h c l = rw (← covers-splay (node lc r rc) base e') (
          covers_of_before_root (splay (node lc r rc) base) base (base + size) e' a max_addr
            (splay-Splits (node lc r rc) base 0 max_addr (is_leaf-node lc r rc) h)
            (splay-Between (node lc r rc) base 0 max_addr h) p q l
            (covers-splay (node lc r rc) base a ∙ c))

  -- Nothing is lost where the first address of the new range, or the first one after it, is not
  -- covered yet: the map then covers the union.
  pub covered-add_range_union :
      (a : ℕ)
      → (covered m base ≡ false) ⊎ (covered m (base + size) ≡ false)
      → covered (add_range m base size obj) a ≡ (within base size a || covered m a)
  covered-add_range_union a free = elim (Bool-cases (covered m a && lost m base size a)) [
    | inl gone ↦ ground (arith, gone, lost-covered a base, lost-covered a (base + size))
    | inr kept ↦ ground (arith, kept, covered-add_range a)
  ]
