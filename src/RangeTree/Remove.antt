-- ===== src/RangeTree/Remove.antt =====
-- `map_remove_node` of dtree.c: taking out the range that starts at an address.
use cbop.Prelude.{
  ℕ, ◌+◌, ◌≤◌, ◌≡◌, refl, sym, ◌∙◌, Bool, List, [], ◌∷◌, ◌++◌, true, false, ◌&&◌, ◌||◌, Option,
  none, some, arith, Bool-cases, inl, inr, ==_iff, ◌==◌, if◌then◌else◌,
}
use mathlib.Core.Path.{subst}
use cbop.Prelude.Word.{max_addr, sub64, sub64_exact}
use cbop.RangeTree.Range.{MemRange, holds}
use cbop.RangeTree.Tree.{
  Tree, leaf, node, to_list, count, covers, Between, Between-le, Between-mono, covers-below,
  covers-above, count-le,
}
use cbop.RangeTree.Splay.{splay, to_list-splay}
use cbop.RangeTree.Splay.Keys.{
  Splits, splay-Splits, splay-Between, covers-splay, count-splay, is_leaf-node, BasesBelow,
  BasesAbove,
}
use cbop.RangeTree.Map.{RangeMap, IsWellFormed, covered}

-- The right child of the node that `splay` brings up is overwritten.
unfoldable pub set_right : Tree → Tree → Tree
set_right leaf rc = leaf
set_right (node lc r old) rc = node lc r rc

unfoldable pub join : Tree → Tree → ℕ → Tree
unfolding set_right
join leaf rc key = rc
join (node lc r mid) rc key = set_right (splay (node lc r mid) key) rc

-- `none` stands for the failure of an assertion: the map is empty, or no range starts there.
unfoldable pub remove_at : RangeMap → ℕ → Tree → Option RangeMap
remove_at m node_base leaf = none
remove_at m node_base (node lc r rc) =
    if r.base == node_base
    then some (record m { root = join lc rc node_base; size = sub64 m.size 1 })
    else none

unfoldable pub map_remove_node : RangeMap → ℕ → Option RangeMap
unfolding remove_at
map_remove_node m node_base = remove_at m node_base (splay m.root node_base)

-- What it means to hang two trees together, the first before the second.
record Joined (lo hi : ℕ) (lc rc t : Tree) : Type 0 where
  ordered : Between lo t hi
  total : count t ≡ count lc + count rc
  covering : (a : ℕ) → covers t a ≡ (covers lc a || covers rc a)

set_right-Joined :
    (t rc : Tree) (lo mid key hi : ℕ)
    → Between lo t key
    → Splits key t
    → key ≤ mid
    → Between mid rc hi
    → Joined lo hi t rc (set_right t rc)
unfolding set_right
set_right-Joined leaf rc lo mid key hi h s k g = absurd s
set_right-Joined (node lc r leaf) rc lo mid key hi h s k g = record {
  ordered = (h.0, h.1, Between-mono rc mid hi (r.base + r.size) hi (omega arith) (omega arith) g);
  total = omega arith;
  covering = λ a. ground arith;
}
set_right-Joined (node lc r (node lc' r' rc')) rc lo mid key hi h s k g =
    absurd (omega (arith, Between-le rc' (r'.base + r'.size) key h.2.2))

join-Joined :
    (lc rc : Tree) (lo mid key hi : ℕ)
    → Between lo lc key
    → key ≤ mid
    → Between mid rc hi
    → Joined lo hi lc rc (join lc rc key)
unfolding join
join-Joined leaf rc lo mid key hi h k g = record {
  ordered = Between-mono rc mid hi lo hi (omega arith) (omega arith) g;
  total = omega arith;
  covering = λ a. ground arith;
}
join-Joined (node lc r mt) rc lo mid key hi h k g = record {
  ordered = joined.ordered;
  total = omega (arith, joined.total, count-splay (node lc r mt) key);
  covering = λ a. ground (arith, joined.covering a, covers-splay (node lc r mt) key a);
}
  where
    joined : Joined lo hi (splay (node lc r mt) key) rc (set_right (splay (node lc r mt) key) rc)
    joined =
        set_right-Joined (splay (node lc r mt) key) rc lo mid key hi
          (splay-Between (node lc r mt) key lo key h)
          (splay-Splits (node lc r mt) key lo key (is_leaf-node lc r mt) h) k g

-- What removing leaves: one range that starts at the address is gone, and nothing else.
pub record Removed (m : RangeMap) (node_base : ℕ) (m' : RangeMap) : Type 0 where
  pub gone : MemRange
  pub starts : gone.base ≡ node_base
  pub valid : IsWellFormed m'
  pub smaller : m'.size + 1 ≡ m.size
  pub rest : (a : ℕ) → covered m a ≡ (covered m' a || holds gone a)
  pub apart : (a : ℕ) → (holds gone a && covered m' a) ≡ false

module _ (m : RangeMap) (lc : Tree) (r : MemRange) (rc : Tree)
    (h : Between 0 (node lc r rc) max_addr) (counted : m.size ≡ count (node lc r rc))
    (same : (a : ℕ) → covers (node lc r rc) a ≡ covered m a) where
  without : RangeMap
  without = record m { root = join lc rc r.base; size = sub64 m.size 1 }

  joined : Joined 0 max_addr lc rc (join lc rc r.base)
  joined = join-Joined lc rc 0 (r.base + r.size) r.base max_addr h.0 (omega arith) h.2

  less : sub64 m.size 1 + 1 ≡ m.size
  less = omega (arith, counted, count-le (node lc r rc) 0 max_addr h, sub64_exact m.size 1)

  without-Removed : Removed m r.base without
  unfolding without
  without-Removed = record {
    gone = r;
    starts = refl;
    valid = record {
      ordered = joined.ordered;
      counted = omega (arith, joined.total, counted, less);
    };
    smaller = less;
    rest = λ a. ground (arith, same a, joined.covering a);
    apart = λ a. ground (
      arith,
      joined.covering a,
      covers-above lc 0 r.base a h.0,
      covers-below rc (r.base + r.size) max_addr a h.2,
    );
  }

remove_at-Removed :
    (m : RangeMap) (node_base : ℕ) (t : Tree) {m' : RangeMap}
    → Between 0 t max_addr
    → m.size ≡ count t
    → ((a : ℕ) → covers t a ≡ covered m a)
    → remove_at m node_base t ≡ some m'
    → Removed m node_base m'
unfolding remove_at without
remove_at-Removed m node_base leaf h c same e = cc
remove_at-Removed m node_base (node lc r rc) {m'} h c same e =
    elim (Bool-cases (r.base == node_base)) [
      | inl p ↦
          let starts : r.base ≡ node_base = (==_iff r.base node_base).0 p in
          subst (λ x. Removed m node_base x) (ground arith)
            (subst (λ b. Removed m b (record m { root = join lc rc b; size = sub64 m.size 1 }))
              starts (without-Removed m lc r rc h c same))
      | inr p ↦ absurd (ground arith)
    ]

-- Some range of the tree starts at an address.
abbrev pub starts_at : Tree → ℕ → Bool
starts_at leaf a = false
starts_at (node lc r rc) a = starts_at lc a || (r.base == a || starts_at rc a)

abbrev any_starts : List MemRange → ℕ → Bool
any_starts [] a = false
any_starts (r ∷ rs) a = r.base == a || any_starts rs a

any_starts-append :
    (xs ys : List MemRange) (a : ℕ) → any_starts (xs ++ ys) a ≡ (any_starts xs a || any_starts ys a)
any_starts-append [] ys a = refl
any_starts-append (x ∷ xs) ys a = ground (arith, any_starts-append xs ys a)

starts_at-to_list : (t : Tree) (a : ℕ) → starts_at t a ≡ any_starts (to_list t) a
starts_at-to_list leaf a = refl
starts_at-to_list (node lc r rc) a = ground (
  arith,
  any_starts-append (to_list lc) (r ∷ to_list rc) a,
  starts_at-to_list lc a,
  starts_at-to_list rc a,
)

starts_at-splay : (t : Tree) (key a : ℕ) → starts_at (splay t key) a ≡ starts_at t a
starts_at-splay t key a =
    starts_at-to_list (splay t key) a ∙ rw (to_list-splay t key) (sym (starts_at-to_list t a))

starts_at-BasesBelow : (t : Tree) (key : ℕ) → BasesBelow key t → starts_at t key ≡ false
starts_at-BasesBelow leaf key h = refl
starts_at-BasesBelow (node lc r rc) key h =
    ground (arith, starts_at-BasesBelow lc key h.0, starts_at-BasesBelow rc key h.2)

starts_at-BasesAbove : (t : Tree) (key : ℕ) → BasesAbove key t → starts_at t key ≡ false
starts_at-BasesAbove leaf key h = refl
starts_at-BasesAbove (node lc r rc) key h =
    ground (arith, starts_at-BasesAbove lc key h.0, starts_at-BasesAbove rc key h.2)

remove_at-some :
    (m : RangeMap) (node_base : ℕ) (t : Tree)
    → Splits node_base t
    → starts_at t node_base ≡ true
    → (m' : RangeMap) × (remove_at m node_base t ≡ some m')
unfolding remove_at
remove_at-some m node_base leaf s h = absurd s
remove_at-some m node_base (node lc r rc) s h = (
  record m { root = join lc rc node_base; size = sub64 m.size 1 },
  ground (arith, starts_at-BasesBelow lc node_base s.0, starts_at-BasesAbove rc node_base s.1),
)

splay-Splits_of_starts_at :
    (t : Tree) (key : ℕ) → Between 0 t max_addr → starts_at t key ≡ true → Splits key (splay t key)
splay-Splits_of_starts_at leaf key h s = cc
splay-Splits_of_starts_at (node lc r rc) key h s =
    splay-Splits (node lc r rc) key 0 max_addr (is_leaf-node lc r rc) h

-- Where a range of a well-formed map starts at the address, the removal passes its assertions. The map
-- stays well formed, and has lost exactly that range.
pub map_remove_node-Removed :
    (m : RangeMap) (node_base : ℕ)
    → IsWellFormed m
    → starts_at m.root node_base ≡ true
    → (m' : RangeMap) × (map_remove_node m node_base ≡ some m') × Removed m node_base m'
unfolding map_remove_node
map_remove_node-Removed m node_base w s =
    let (m', e) =
      remove_at-some m node_base (splay m.root node_base)
        (splay-Splits_of_starts_at m.root node_base w.ordered s)
        (starts_at-splay m.root node_base node_base ∙ s) in
    (
      m',
      e,
      remove_at-Removed m node_base (splay m.root node_base)
          (splay-Between m.root node_base 0 max_addr w.ordered)
          (omega (arith, w.counted, count-splay m.root node_base)) (covers-splay m.root node_base)
          e,
    )
