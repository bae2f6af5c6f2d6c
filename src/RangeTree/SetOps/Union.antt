-- ===== src/RangeTree/SetOps/Union.antt =====
-- `map_union` and `map_clone` of dtree.c: what the result covers.
use cbop.Prelude.{
  ℕ, ◌+◌, ◌≤◌, ◌<◌, ◌≡◌, refl, Bool, false, ◌&&◌, ◌||◌, List, [], ◌∷◌, inl, arith, ◌==◌,
  if◌then◌else◌,
}
use cbop.Prelude.Word.{max_addr}
use cbop.RangeTree.Range.{MemRange, holds}
use cbop.RangeTree.Tree.{covers_list, Chain, Between-iff, covers-to_list, to_list}
use cbop.RangeTree.Map.{RangeMap, IsWellFormed, covered, init_empty_map}
use cbop.RangeTree.Add.{add_range}
use cbop.RangeTree.Add.Cover.{add_range-IsWellFormed, covered-add_range_union}
use cbop.RangeTree.SetOps.{union_all, map_union, map_clone}

-- A list of ranges in order covers nothing in front of it.
pub covers_list-below :
    (rs : List MemRange) (lo hi a : ℕ) → Chain lo rs hi → a < lo → covers_list rs a ≡ false
covers_list-below [] lo hi a h p = refl
covers_list-below (r ∷ rs) lo hi a h p =
    ground (arith, covers_list-below rs (r.base + r.size) hi a h.2)

pub Chain-le : (rs : List MemRange) (lo hi : ℕ) → Chain lo rs hi → lo ≤ hi
Chain-le [] lo hi h = h
Chain-le (r ∷ rs) lo hi h = omega (arith, Chain-le rs (r.base + r.size) hi h.2)

-- The result of adding to a map, address by address.
pub record Covers (out : RangeMap) (spec : ℕ → Bool) : Type 0 where
  pub valid : IsWellFormed out
  pub exact : (a : ℕ) → covered out a ≡ spec a

-- One range of a list in order, whose addresses are not covered yet.
pub covered-add_head :
    (r : MemRange) (out : RangeMap) (a : ℕ)
    → 0 < r.size
    → r.base + r.size ≤ max_addr
    → IsWellFormed out
    → covered out r.base ≡ false
    → covered (add_range out r.base r.size r.rec) a ≡ (covered out a || holds r a)
covered-add_head r out a s fits w free =
    ground (arith, covered-add_range_union out r.base r.size r.rec s fits w a (inl free))

union_all-Covers :
    (rs : List MemRange) (out : RangeMap) (lo : ℕ)
    → Chain lo rs max_addr
    → IsWellFormed out
    → ((a : ℕ) → (covers_list rs a && covered out a) ≡ false)
    → Covers (union_all out rs) (λ a. covered out a || covers_list rs a)
unfolding union_all
union_all-Covers [] out lo h w free = record { valid = w; exact = λ a. ground arith }
union_all-Covers (r ∷ rs) out lo h w free =
    let fits = Chain-le rs (r.base + r.size) max_addr h.2 in
    let head : covered out r.base ≡ false = ground (arith, free r.base) in
    let later =
      union_all-Covers rs (add_range out r.base r.size r.rec) (r.base + r.size) h.2
        (add_range-IsWellFormed out r.base r.size r.rec h.1 fits w)
        (λ a. ground (
          arith,
          covered-add_head r out a h.1 fits w head,
          free a,
          covers_list-below rs (r.base + r.size) max_addr a h.2,
        )) in
    record {
      valid = later.valid;
      exact = λ a. ground (arith, later.exact a, covered-add_head r out a h.1 fits w head);
    }

-- The union of two well-formed maps that share no address is well formed and covers what either
-- covers.
pub map_union-Covers :
    (m refs : RangeMap)
    → IsWellFormed m
    → IsWellFormed refs
    → ((a : ℕ) → (covered refs a && covered m a) ≡ false)
    → Covers (map_union m refs) (λ a. covered m a || covered refs a)
unfolding map_union
map_union-Covers m refs w v free = record {
  valid = joined.valid;
  exact = λ a. ground (arith, joined.exact a, covers-to_list refs.root a);
}
  where
    joined :
        Covers
          (union_all m (to_list refs.root))
          (λ a. covered m a || covers_list (to_list refs.root) a)
    joined =
        union_all-Covers (to_list refs.root) m 0 ((Between-iff refs.root 0 max_addr).0 v.ordered) w
          (λ a. ground (arith, free a, covers-to_list refs.root a))

pub init_empty_map-IsWellFormed :
    (res : ℕ)
    → IsWellFormed (init_empty_map res) × ((a : ℕ) → covered (init_empty_map res) a ≡ false)
unfolding init_empty_map
init_empty_map-IsWellFormed res = (omega arith, λ a. refl)

-- A clone is well formed and covers the same addresses.
pub map_clone-Covers :
    (source : RangeMap) (space : ℕ)
    → IsWellFormed source
    → Covers (map_clone source space) (covered source)
unfolding map_clone
map_clone-Covers source space v =
    let res = if space == 0 then source.residence else space in
    let empty = init_empty_map-IsWellFormed res in
    let joined =
      map_union-Covers (init_empty_map res) source empty.0 v (λ a. ground (arith, empty.1 a)) in
    record { valid = joined.valid; exact = λ a. ground (arith, joined.exact a, empty.1 a) }
