-- ===== src/RangeTree/SetOps/Subtract.antt =====
-- `map_subtract` of dtree.c: what the result covers.
use cbop.Prelude.{
  ℕ, zero, suc, ◌+◌, ◌≤◌, ◌<◌, ◌≡◌, refl, ◌&&◌, ◌||◌, not, List, [], ◌∷◌, Option, none, some, inl,
  inr, arith, Bool-cases, ◌==◌, ltb, leb, ltb→lt, ◌-◌,
}
use cbop.Prelude.Word.{max_addr, sub64, sub64_exact}
use cbop.RangeTree.Range.{MemRange, IsRange, holds}
use cbop.RangeTree.Tree.{
  Tree, leaf, node, covers, covers_list, Chain, Between-iff, covers-to_list, to_list,
}
use cbop.RangeTree.Map.{RangeMap, IsWellFormed, covered, map_clear, init_empty_map}
use cbop.RangeTree.Add.Cover.{add_range-IsWellFormed, covered-add_range_union}
use cbop.RangeTree.Overlaps.{IsFirst, map_overlaps, map_overlaps-IsFirst}
use cbop.RangeTree.SetOps.{
  rest_of, resume, keep_head, keep_rest, subtract_turn, subtract_range, subtract_all, unless_empty,
  map_subtract, map_union, map_intersect,
}
use cbop.RangeTree.SetOps.Union.{Covers, Chain-le, map_union-Covers, init_empty_map-IsWellFormed}
use cbop.RangeTree.SetOps.Intersect.{
  rest_of_lem, FreeFrom, map_clear-IsWellFormed, map_intersect-Covers,
}

-- The part of the range in front of an overlap is kept.
keep_head-Covers :
    (out : RangeMap) (range : MemRange) (obase : ℕ)
    → IsWellFormed out
    → FreeFrom range.base out
    → range.base ≤ obase
    → obase ≤ max_addr
    → Covers (keep_head out range obase) (λ a. covered out a || (leb range.base a && ltb a obase))
unfolding keep_head
keep_head-Covers out range obase w free p q = elim (Bool-cases (ltb range.base obase)) [
  | inl before ↦
      let less = ltb→lt range.base obase before in
      let len : sub64 obase range.base ≡ obase - range.base = sub64_exact obase range.base q p in
      rw before (record {
        valid =
            add_range-IsWellFormed out range.base (sub64 obase range.base) range.rec
              (omega (arith, len)) (omega (arith, len)) w;
        exact = λ a. ground (
          arith,
          len,
          covered-add_range_union out range.base (sub64 obase range.base) range.rec
              (omega (arith, len)) (omega (arith, len)) w a (inl (free range.base (omega arith))),
        );
      })
  | inr at ↦ rw at (record { valid = w; exact = λ a. ground (arith, at) })
]

abbrev Leaves : RangeMap → RangeMap → MemRange → RangeMap → Type 0
Leaves copy out range result =
    Covers result (λ a. covered out a || (holds range a && not (covered copy a)))

subtract_turn-Leaves :
    (again : RangeMap → MemRange → RangeMap) (copy out : RangeMap) (range : MemRange)
    (o : Option (ℕ × ℕ))
    → IsWellFormed out
    → IsRange range
    → FreeFrom range.base out
    → ((a : ℕ) → IsFirst copy.root range a o)
    → ((out' : RangeMap) (range' : MemRange)
        → IsWellFormed out'
        → IsRange range'
        → FreeFrom range'.base out'
        → range'.size < range.size
        → Leaves copy out' range' (again out' range'))
    → Leaves copy out range (subtract_turn again out range o)
unfolding subtract_turn resume keep_rest
subtract_turn-Leaves again copy out range none w g free first ih =
    elim (Bool-cases (range.size == 0)) [
      | inl done ↦ absurd (ground (arith, done))
      | inr more ↦ rw more (record {
        valid = add_range-IsWellFormed out range.base range.size range.rec g.nonempty g.fits w;
        exact = λ a. ground (
          arith,
          first a,
          covered-add_range_union out range.base range.size range.rec g.nonempty g.fits w a
              (inl (free range.base (omega arith))),
        );
      })
    ]
subtract_turn-Leaves again copy out range (some (obase, osize)) w g free first ih =
    let at_base = first obase in
    let rest = rest_of range obase osize in
    let (start, len) = rest_of_lem range obase osize g at_base.1 at_base.2 in
    let kept = keep_head-Covers out range obase w free at_base.1 (omega arith) in
    let added = keep_head out range obase in
    elim (Bool-cases (rest.size == 0)) [
      | inl done ↦ rw done (record {
        valid = kept.valid;
        exact = λ a. ground (arith, first a, kept.exact a, done, len);
      })
      | inr more ↦
          let later =
            ih added rest kept.valid (ground (arith, more, len))
              (λ a p. ground (arith, kept.exact a, free a, start, at_base)) (ground arith) in
          rw more (record {
            valid = later.valid;
            exact = λ a. ground (arith, first a, kept.exact a, later.exact a, start, len);
          })
    ]

subtract_range-Leaves :
    (fuel : ℕ) (copy out : RangeMap) (range : MemRange)
    → range.size ≤ fuel
    → IsWellFormed copy
    → IsWellFormed out
    → IsRange range
    → FreeFrom range.base out
    → Leaves copy out range (subtract_range fuel copy out range)
unfolding subtract_range
subtract_range-Leaves zero copy out range p v w g free = absurd (omega arith)
subtract_range-Leaves (suc fuel) copy out range p v w g free =
    subtract_turn-Leaves (subtract_range fuel copy) copy out range (map_overlaps copy range) w g
      free (λ a. map_overlaps-IsFirst copy range a v g)
      (λ out' range' w' g' free' q.
        subtract_range-Leaves fuel copy out' range' (omega arith) v w' g' free')

subtract_all-Covers :
    (rs : List MemRange) (copy out : RangeMap) (lo : ℕ)
    → Chain lo rs max_addr
    → IsWellFormed copy
    → IsWellFormed out
    → FreeFrom lo out
    → Covers
        (subtract_all copy out rs)
        (λ a. covered out a || (covers_list rs a && not (covered copy a)))
unfolding subtract_all
subtract_all-Covers [] copy out lo h v w free = record { valid = w; exact = λ a. ground arith }
subtract_all-Covers (r ∷ rs) copy out lo h v w free =
    let fits = Chain-le rs (r.base + r.size) max_addr h.2 in
    let left =
      subtract_range-Leaves r.size copy out r (omega arith) v w (omega arith)
        (λ a p. free a (omega arith)) in
    let later =
      subtract_all-Covers rs copy (subtract_range r.size copy out r) (r.base + r.size) h.2 v
        left.valid (λ a p. ground (arith, left.exact a, free a)) in
    record { valid = later.valid; exact = λ a. ground (arith, later.exact a, left.exact a) }

Covers-without_empty :
    (t t' : Tree) (u m : RangeMap)
    → IsWellFormed u
    → ((a : ℕ) → covered u a ≡ covers t' a)
    → Covers m (λ a. covers t' a && not (covers t a))
    → Covers (unless_empty t t' u u m) (λ a. covers t' a && not (covers t a))
unfolding unless_empty
Covers-without_empty leaf t' u m w e left = record { valid = w; exact = λ a. ground (arith, e a) }
Covers-without_empty (node lc r rc) leaf u m w e left = record {
  valid = w;
  exact = λ a. ground (arith, e a);
}
Covers-without_empty (node lc r rc) (node lc' r' rc') u m w e left = left

-- The difference of two well-formed maps is well formed and covers exactly the addresses that the
-- first covers and the second does not.
pub map_subtract-Covers :
    (m refs : RangeMap)
    → IsWellFormed m
    → IsWellFormed refs
    → Covers (map_subtract m refs) (λ a. covered m a && not (covered refs a))
unfolding map_subtract
map_subtract-Covers m refs w v =
    let (valid, none_covered) = map_clear-IsWellFormed m in
    let empty = init_empty_map-IsWellFormed m.residence in
    let copied =
      map_union-Covers (init_empty_map m.residence) m empty.0 w (λ a. ground (arith, empty.1 a)) in
    let copy =
      map_intersect-Covers (map_union (init_empty_map m.residence) m) refs copied.valid v in
    let left =
      subtract_all-Covers (to_list m.root)
        (map_intersect (map_union (init_empty_map m.residence) m) refs) (map_clear m) 0
        ((Between-iff m.root 0 max_addr).0 w.ordered) copy.valid valid (λ a p. none_covered a) in
    Covers-without_empty refs.root m.root m _ w (λ a. refl)
      (record {
        valid = left.valid;
        exact = λ a. ground (
          arith,
          left.exact a,
          none_covered a,
          covers-to_list m.root a,
          copy.exact a,
          copied.exact a,
          empty.1 a,
        );
      })
