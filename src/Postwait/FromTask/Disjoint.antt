-- ===== src/Postwait/FromTask/Disjoint.antt =====
-- `map_add_range_from_task` of postwait.c with a range that no other range of the map meets.
use cbop.Prelude.{
  ℕ, ◌+◌, ◌≤◌, ◌<◌, ◌≡◌, ◌∙◌, refl, some, inl, inr, Bool-cases, ltb→lt, true, false, ◌&&◌, ◌||◌,
  arith, ltb,
}
use cbop.Prelude.Word.{max_addr, add64, add64_exact}
use cbop.RangeTree.Range.{MemRange, bound, IsRange, overlap, holds, within}
use cbop.RangeTree.Tree.{Tree, leaf, node, count, covers, Between, Between-le, count-le}
use cbop.RangeTree.Splay.{splay}
use cbop.RangeTree.Splay.Keys.{
  BasesBelow, BasesAbove-Between, Splits, splay-Splits, splay-Between, covers-splay, count-splay,
  is_leaf-node,
}
use cbop.RangeTree.Map.{RangeMap, IsWellFormed, covered}
use cbop.RangeTree.Add.{is_some}
use cbop.Postwait.FromTask.{
  added, overlaps_root, ends_before, starts_behind, insert_apart, add_splayed, add_from_task,
  map_add_range_from_task, root_range,
}

module _ (n : MemRange) (hn : IsRange n) where
  -- Ranges that start before a range, and share no address with it, end before it.
  Between-left :
      (t : Tree) (lo hi : ℕ)
      → Between lo t hi
      → lo ≤ n.base
      → BasesBelow n.base t
      → covers t n.base ≡ false
      → Between lo t n.base
  Between-left leaf lo hi h p b f = p
  Between-left (node lc r rc) lo hi h p b f =
      (h.0, h.1, Between-left rc (r.base + r.size) hi h.2 (ground arith) b.2 (ground arith))

  -- Ranges that share no address with a range, and start after it does, start behind its end.
  Between-right :
      (t : Tree) (lo hi : ℕ)
      → Between lo t hi
      → n.base < lo
      → n.base + n.size ≤ hi
      → ((a : ℕ) → (holds n a && covers t a) ≡ false)
      → Between (n.base + n.size) t hi
  Between-right leaf lo hi h p q f = q
  Between-right (node lc r rc) lo hi h p q f =
      let le = Between-le lc lo r.base h.0 in
      let behind : n.base + n.size ≤ r.base = ground (arith, f r.base, h.1) in
      (Between-right lc lo r.base h.0 p behind (λ a. ground (arith, f a)), h.1, h.2)

  overlap-ne-some :
      (r : MemRange)
      → IsRange r
      → holds r n.base ≡ false
      → holds n r.base ≡ false
      → is_some (overlap n r) ≡ false
  unfolding overlap
  overlap-ne-some r hr f g = ground (arith, add64_exact n.base n.size, add64_exact r.base r.size)

  overlaps_root_lem :
      (t : Tree) (lo hi : ℕ)
      → Between lo t hi
      → hi ≤ max_addr
      → ((a : ℕ) → (holds n a && covers t a) ≡ false)
      → overlaps_root n t ≡ false
  unfolding overlaps_root
  overlaps_root_lem leaf lo hi h k f = refl
  overlaps_root_lem (node lc r rc) lo hi h k f =
      overlap-ne-some r (omega (arith, h.1, Between-le rc (r.base + r.size) hi h.2))
        (ground (arith, f n.base)) (ground (arith, f r.base, h.1))

  ends_before_lem : (t : Tree) (lo : ℕ) → Between lo t n.base → ends_before t n.base ≡ true
  unfolding ends_before
  ends_before_lem leaf lo h = refl
  ends_before_lem (node lc r rc) lo h =
      let le = Between-le rc (r.base + r.size) n.base h.2 in
      ground (arith, add64_exact r.base r.size)

  starts_behind_lem :
      (t : Tree) (hi : ℕ) → Between (n.base + n.size) t hi → starts_behind t (bound n) ≡ true
  unfolding starts_behind
  starts_behind_lem leaf hi h = refl
  starts_behind_lem (node lc r rc) hi h =
      let le = Between-le lc (n.base + n.size) r.base h.0 in
      ground (arith, add64_exact n.base n.size)

-- What adding a range that shares no address with a map promises.
pub record Added (m : RangeMap) (n : MemRange) (m' : RangeMap) : Type 0 where
  pub valid : IsWellFormed m'
  pub exact : (a : ℕ) → covered m' a ≡ (holds n a || covered m a)
  pub returned : root_range m'.root ≡ some n

module _ (m : RangeMap) (n : MemRange) (hn : IsRange n) (lc : Tree) (top : MemRange) (rc : Tree)
    (h : Between 0 (node lc top rc) max_addr) (s : Splits n.base (node lc top rc))
    (counted : m.size ≡ count (node lc top rc))
    (same : (a : ℕ) → covers (node lc top rc) a ≡ covered m a)
    (free : (a : ℕ) → (holds n a && covered m a) ≡ false) where
  apart : (a : ℕ) → (holds n a && (covers lc a || (holds top a || covers rc a))) ≡ false
  apart a = ground (arith, same a, free a)

  top-IsRange : IsRange top
  top-IsRange = omega (arith, h.1, Between-le rc (top.base + top.size) max_addr h.2)

  tops : (holds top n.base ≡ false) × (holds n top.base ≡ false)
  tops = (ground (arith, apart n.base, hn), ground (arith, apart top.base, top-IsRange))

  none_met : (is_some (overlap n top) || overlaps_root n lc) ≡ false
  none_met = ground (
    arith,
    overlap-ne-some n hn top top-IsRange tops.0 tops.1,
    overlaps_root_lem n hn lc 0 top.base h.0 (omega (arith, top-IsRange))
        (λ a. ground (arith, apart a)),
  )

  low : Between 0 lc n.base
  low = Between-left n hn lc 0 top.base h.0 (omega arith) s.0 (ground (arith, apart n.base, hn))

  insert_left-Added :
      n.base < top.base → (m' : RangeMap) × (insert_apart m n lc top rc ≡ added m') × Added m n m'
  unfolding insert_apart
  insert_left-Added p =
      let behind : n.base + n.size ≤ top.base = ground (arith, tops) in
      let grown : add64 m.size 1 ≡ count lc + count rc + 2 = omega (
        arith,
        counted,
        count-le lc 0 n.base low,
        hn,
        top-IsRange,
        count-le rc (top.base + top.size) max_addr h.2,
        add64_exact m.size 1,
      ) in
      (
        record m { root = node lc n (node leaf top rc); size = add64 m.size 1 },
        ground (arith, ends_before_lem n hn lc 0 low),
        record {
          valid = record {
            ordered = (low, hn.nonempty, (behind, h.1, h.2));
            counted = omega (arith, grown);
          };
          exact = λ a. ground (arith, same a);
          returned = refl;
        },
      )

  insert_right-Added :
      top.base < n.base → (m' : RangeMap) × (insert_apart m n lc top rc ≡ added m') × Added m n m'
  unfolding insert_apart
  insert_right-Added p =
      let behind : top.base + top.size ≤ n.base = ground (arith, tops) in
      let high : Between (n.base + n.size) rc max_addr =
        Between-right n hn rc (n.base + 1) max_addr
          (BasesAbove-Between rc (top.base + top.size) max_addr n.base (omega (arith, hn)) h.2 s.1)
          (omega arith) (omega (arith, hn)) (λ a. ground (arith, apart a)) in
      let grown : add64 m.size 1 ≡ count lc + count rc + 2 = omega (
        arith,
        counted,
        count-le lc 0 top.base h.0,
        hn,
        top-IsRange,
        count-le rc (n.base + n.size) max_addr high,
        add64_exact m.size 1,
      ) in
      (
        record m { root = node (node lc top leaf) n rc; size = add64 m.size 1 },
        ground (arith, starts_behind_lem n hn rc max_addr high),
        record {
          valid = record {
            ordered = ((h.0, h.1, behind), hn.nonempty, high);
            counted = omega (arith, grown);
          };
          exact = λ a. ground (arith, same a);
          returned = refl;
        },
      )

  add_splayed-Added : (m' : RangeMap) × (add_splayed m n (node lc top rc) ≡ added m') × Added m n m'
  unfolding add_splayed
  add_splayed-Added = elim (Bool-cases (ltb n.base top.base)) [
    | inl p ↦
        let (m', e, out) = insert_left-Added (ltb→lt n.base top.base p) in
        (m', ground (arith, none_met, e), out)
    | inr p ↦
        let (m', e, out) = insert_right-Added (ground (arith, tops, hn, h.1)) in
        (m', ground (arith, none_met, e), out)
  ]

add_from_task-Added :
    (m : RangeMap) (n : MemRange) (t : Tree)
    → IsRange n
    → Between 0 t max_addr
    → m.size ≡ count t
    → ((a : ℕ) → covers t a ≡ covered m a)
    → ((a : ℕ) → (holds n a && covered m a) ≡ false)
    → (m' : RangeMap) × (add_from_task m n t ≡ added m') × Added m n m'
unfolding add_from_task
add_from_task-Added m n leaf hn h counted same free = (
  record m { root = node leaf n leaf; size = 1 },
  refl,
  record { valid = omega (arith, hn); exact = λ a. ground (arith, same a); returned = refl },
)
add_from_task-Added m n (node lc r rc) hn h counted same free =
    at (splay (node lc r rc) n.base) (splay-Between (node lc r rc) n.base 0 max_addr h)
      (splay-Splits (node lc r rc) n.base 0 max_addr (is_leaf-node lc r rc) h)
      (omega (arith, counted, count-splay (node lc r rc) n.base))
      (λ a. covers-splay (node lc r rc) n.base a ∙ same a)
  where
    at :
        (t : Tree)
        → Between 0 t max_addr
        → Splits n.base t
        → m.size ≡ count t
        → ((a : ℕ) → covers t a ≡ covered m a)
        → (m' : RangeMap) × (add_splayed m n t ≡ added m') × Added m n m'
    at leaf h' s' c' same' = absurd s'
    at (node lc' top rc') h' s' c' same' = add_splayed-Added m n hn lc' top rc' h' s' c' same' free

-- Adding a range that is not empty, does not wrap and shares no address with a well-formed map passes
-- the assertions and aborts nothing. The map stays well formed, and covers the range and what it covered.
pub map_add_range_from_task-Added :
    (m : RangeMap) (base size data_rec ppr_id : ℕ)
    → IsWellFormed m
    → 0 < size
    → base + size ≤ max_addr
    → ((a : ℕ) → (within base size a && covered m a) ≡ false)
    → (m' : RangeMap) × (map_add_range_from_task m base size data_rec ppr_id ≡ added m')
      × Added m (record { base = base; size = size; rec = data_rec; task = ppr_id }) m'
unfolding map_add_range_from_task
map_add_range_from_task-Added m base size data_rec ppr_id w n fits free =
    let (m', e, out) =
      add_from_task-Added m (record { base = base; size = size; rec = data_rec; task = ppr_id })
        m.root (record { nonempty = n; fits = fits }) w.ordered w.counted (λ a. refl) free in
    (m', ground (arith, e), out)
