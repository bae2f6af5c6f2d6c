-- ===== src/RangeTree/SetOps/Intersect.antt =====
-- `map_intersect` of dtree.c: what the result covers.
use cbop.Prelude.{
  ℕ, zero, suc, ◌+◌, ◌≤◌, ◌<◌, ◌≡◌, refl, false, ◌&&◌, ◌||◌, List, [], ◌∷◌, Option, none, some, inl,
  inr, arith, Bool-cases, ◌==◌,
}
use cbop.Prelude.Word.{max_addr, add64_exact, sub64_exact}
use cbop.RangeTree.Range.{MemRange, IsRange, holds}
use cbop.RangeTree.Tree.{
  Tree, leaf, node, covers, covers_list, Chain, Between-iff, covers-to_list, to_list,
}
use cbop.RangeTree.Map.{RangeMap, IsWellFormed, covered, map_clear}
use cbop.RangeTree.Add.{add_range}
use cbop.RangeTree.Add.Cover.{add_range-IsWellFormed, covered-add_range_union}
use cbop.RangeTree.Overlaps.{IsFirst, map_overlaps, map_overlaps-IsFirst}
use cbop.RangeTree.SetOps.{
  rest_of, resume, intersect_turn, intersect_range, intersect_all, unless_empty, map_intersect,
}
use cbop.RangeTree.SetOps.Union.{Covers, Chain-le}

-- The rest of a range behind an overlap within it.
pub rest_of_lem :
    (range : MemRange) (obase osize : ℕ)
    → IsRange range
    → range.base ≤ obase
    → obase + osize ≤ range.base + range.size
    → ((rest_of range obase osize).base ≡ obase + osize)
      × ((rest_of range obase osize).size + (obase + osize) ≡ range.base + range.size)
unfolding rest_of
rest_of_lem range obase osize g p q = ground (
  arith,
  add64_exact obase osize,
  add64_exact range.base range.size,
  sub64_exact (range.base + range.size) (obase + osize),
)

-- The map `out` has no address from the start of the range on.
abbrev pub FreeFrom : ℕ → RangeMap → Type 0
FreeFrom lo out = (a : ℕ) → lo ≤ a → covered out a ≡ false

abbrev Meets : RangeMap → RangeMap → MemRange → RangeMap → Type 0
Meets refs out range result =
    Covers result (λ a. covered out a || (holds range a && covered refs a))

intersect_turn-Meets :
    (again : RangeMap → MemRange → RangeMap) (refs out : RangeMap) (range : MemRange)
    (o : Option (ℕ × ℕ))
    → IsWellFormed out
    → IsRange range
    → FreeFrom range.base out
    → ((a : ℕ) → IsFirst refs.root range a o)
    → ((out' : RangeMap) (range' : MemRange)
        → IsWellFormed out'
        → IsRange range'
        → FreeFrom range'.base out'
        → range'.size < range.size
        → Meets refs out' range' (again out' range'))
    → Meets refs out range (intersect_turn again out range o)
unfolding intersect_turn resume
intersect_turn-Meets again refs out range none w g free first ih = record {
  valid = w;
  exact = λ a. ground (arith, first a);
}
intersect_turn-Meets again refs out range (some (obase, osize)) w g free first ih =
    let at_base = first obase in
    let rest = rest_of range obase osize in
    let (start, len) = rest_of_lem range obase osize g at_base.1 at_base.2 in
    let added = add_range out obase osize range.rec in
    let valid = add_range-IsWellFormed out obase osize range.rec at_base.0 (omega arith) w in
    let exact = λ (a : ℕ).
      covered-add_range_union out obase osize range.rec at_base.0 (omega arith) w a
        (inl (free obase at_base.1)) in
    elim (Bool-cases (rest.size == 0)) [
      | inl done ↦
          rw done
            (record { valid = valid; exact = λ a. ground (arith, first a, exact a, done, len) })
      | inr more ↦
          let later =
            ih added rest valid (ground (arith, more, len))
              (λ a p. ground (arith, exact a, free a, start)) (ground arith) in
          rw more (record {
            valid = later.valid;
            exact = λ a. ground (arith, first a, exact a, later.exact a, start, len);
          })
    ]

-- The size of a range is enough fuel for the loop over its overlaps.
intersect_range-Meets :
    (fuel : ℕ) (refs out : RangeMap) (range : MemRange)
    → range.size ≤ fuel
    → IsWellFormed refs
    → IsWellFormed out
    → IsRange range
    → FreeFrom range.base out
    → Meets refs out range (intersect_range fuel refs out range)
unfolding intersect_range
intersect_range-Meets zero refs out range p v w g free = absurd (omega arith)
intersect_range-Meets (suc fuel) refs out range p v w g free =
    intersect_turn-Meets (intersect_range fuel refs) refs out range (map_overlaps refs range) w g
      free (λ a. map_overlaps-IsFirst refs range a v g)
      (λ out' range' w' g' free' q.
        intersect_range-Meets fuel refs out' range' (omega arith) v w' g' free')

intersect_all-Covers :
    (rs : List MemRange) (refs out : RangeMap) (lo : ℕ)
    → Chain lo rs max_addr
    → IsWellFormed refs
    → IsWellFormed out
    → FreeFrom lo out
    → Covers
        (intersect_all refs out rs)
        (λ a. covered out a || (covers_list rs a && covered refs a))
unfolding intersect_all
intersect_all-Covers [] refs out lo h v w free = record { valid = w; exact = λ a. ground arith }
intersect_all-Covers (r ∷ rs) refs out lo h v w free =
    let fits = Chain-le rs (r.base + r.size) max_addr h.2 in
    let met =
      intersect_range-Meets r.size refs out r (omega arith) v w (omega arith)
        (λ a p. free a (omega arith)) in
    let later =
      intersect_all-Covers rs refs (intersect_range r.size refs out r) (r.base + r.size) h.2 v
        met.valid (λ a p. ground (arith, met.exact a, free a)) in
    record { valid = later.valid; exact = λ a. ground (arith, later.exact a, met.exact a) }

pub map_clear-IsWellFormed :
    (m : RangeMap) → IsWellFormed (map_clear m) × ((a : ℕ) → covered (map_clear m) a ≡ false)
unfolding map_clear
map_clear-IsWellFormed m = (omega arith, λ a. refl)

pub Covers-unless_empty :
    (t t' : Tree) (u c m : RangeMap)
    → IsWellFormed u
    → IsWellFormed c
    → ((a : ℕ) → covered u a ≡ covers t a)
    → ((a : ℕ) → covered c a ≡ false)
    → Covers m (λ a. covers t a && covers t' a)
    → Covers (unless_empty t t' u c m) (λ a. covers t a && covers t' a)
unfolding unless_empty
Covers-unless_empty leaf t' u c m wu wc eu ec met = record { valid = wu; exact = eu }
Covers-unless_empty (node lc r rc) leaf u c m wu wc eu ec met = record {
  valid = wc;
  exact = λ a. ground (arith, ec a);
}
Covers-unless_empty (node lc r rc) (node lc' r' rc') u c m wu wc eu ec met = met

-- The intersection of two well-formed maps is well formed and covers exactly the addresses that
-- both cover.
pub map_intersect-Covers :
    (m refs : RangeMap)
    → IsWellFormed m
    → IsWellFormed refs
    → Covers (map_intersect m refs) (λ a. covered m a && covered refs a)
unfolding map_intersect
map_intersect-Covers m refs w v =
    let (valid, none_covered) = map_clear-IsWellFormed m in
    let met =
      intersect_all-Covers (to_list m.root) refs (map_clear m) 0
        ((Between-iff m.root 0 max_addr).0 w.ordered) v valid (λ a p. none_covered a) in
    Covers-unless_empty m.root refs.root m (map_clear m) _ w valid (λ a. refl) none_covered
      (record {
        valid = met.valid;
        exact = λ a. ground (arith, met.exact a, none_covered a, covers-to_list m.root a);
      })
