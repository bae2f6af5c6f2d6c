-- ===== src/RangeTree/Gaps/SetOps.antt =====
-- `map_intersect` and `map_subtract` of dtree.c on maps with gaps.
use cbop.Prelude.{
  ◌-◌, ℕ, zero, suc, ◌+◌, ◌≤◌, ◌<◌, ◌≡◌, List, [], ◌∷◌, Option, none, some, inl, inr, arith,
  Bool-cases, ◌==◌, ltb, ltb→lt,
}
use cbop.Prelude.Word.{max_addr, sub64, sub64_exact}
use cbop.RangeTree.Range.{MemRange, IsRange}
use cbop.RangeTree.Tree.{Tree, leaf, node, to_list}
use cbop.RangeTree.Map.{RangeMap, IsWellFormed, map_clear}
use cbop.RangeTree.Add.{add_range}
use cbop.RangeTree.Overlaps.{IsFirst, map_overlaps, map_overlaps-IsFirst}
use cbop.RangeTree.SetOps.{
  rest_of, resume, intersect_turn, intersect_range, intersect_all, unless_empty, map_intersect,
  keep_head, keep_rest, subtract_turn, subtract_range, subtract_all, map_subtract, map_union,
}
use cbop.RangeTree.Map.{init_empty_map}
use cbop.RangeTree.SetOps.Union.{map_union-Covers, init_empty_map-IsWellFormed}
use cbop.RangeTree.SetOps.Intersect.{rest_of_lem, map_intersect-Covers}
use cbop.RangeTree.Gaps.{GapChain, GapChain-lt, Gapped-iff}
use cbop.RangeTree.Gaps.Add.{HasGaps, add_range-HasGaps, map_clear-HasGaps}

-- A loop over the overlaps of a range keeps gaps if each turn does.
Keeps : (RangeMap → MemRange → RangeMap) → MemRange → Type 0
Keeps again range =
    (out' : RangeMap) (range' : MemRange)
    → HasGaps out'
    → 0 < range'.base
    → IsRange range'
    → range'.size < range.size
    → HasGaps (again out' range')

resume-HasGaps :
    (again : RangeMap → MemRange → RangeMap) (refs : RangeMap) (range : MemRange) (out : RangeMap)
    (obase osize : ℕ)
    → HasGaps out
    → 0 < range.base
    → IsRange range
    → IsFirst refs.root range obase (some (obase, osize))
    → Keeps again range
    → HasGaps (resume again out (rest_of range obase osize))
unfolding resume Keeps
resume-HasGaps again refs range out obase osize v p g at ih =
    let rest = rest_of range obase osize in
    let (start, len) = rest_of_lem range obase osize g at.1 at.2 in
    elim (Bool-cases (rest.size == 0)) [
      | inl done ↦ rw done v
      | inr more ↦
          rw more
            (ih out rest v (omega (arith, start, at)) (ground (arith, more, len)) (ground arith))
    ]

intersect_turn-HasGaps :
    (again : RangeMap → MemRange → RangeMap) (refs out : RangeMap) (range : MemRange)
    (o : Option (ℕ × ℕ))
    → HasGaps out
    → 0 < range.base
    → IsRange range
    → ((a : ℕ) → IsFirst refs.root range a o)
    → Keeps again range
    → HasGaps (intersect_turn again out range o)
unfolding intersect_turn
intersect_turn-HasGaps again refs out range none v p g first ih = v
intersect_turn-HasGaps again refs out range (some (obase, osize)) v p g first ih =
    let at = first obase in
    resume-HasGaps again refs range (add_range out obase osize range.rec) obase osize
      (add_range-HasGaps out obase osize range.rec (omega arith) at.0 (omega arith) v) p g at ih

intersect_range-HasGaps :
    (fuel : ℕ) (refs out : RangeMap) (range : MemRange)
    → IsWellFormed refs
    → HasGaps out
    → 0 < range.base
    → IsRange range
    → HasGaps (intersect_range fuel refs out range)
unfolding intersect_range Keeps
intersect_range-HasGaps zero refs out range w v p g = v
intersect_range-HasGaps (suc fuel) refs out range w v p g =
    intersect_turn-HasGaps (intersect_range fuel refs) refs out range (map_overlaps refs range) v p
      g (λ a. map_overlaps-IsFirst refs range a w g)
      (λ out' range' v' p' g' q. intersect_range-HasGaps fuel refs out' range' w v' p' g')

intersect_all-HasGaps :
    (rs : List MemRange) (refs out : RangeMap) (lo : ℕ)
    → GapChain lo rs (max_addr + 1)
    → IsWellFormed refs
    → HasGaps out
    → HasGaps (intersect_all refs out rs)
unfolding intersect_all
intersect_all-HasGaps [] refs out lo h w v = v
intersect_all-HasGaps (r ∷ rs) refs out lo h w v =
    let le = GapChain-lt rs (r.base + r.size) (max_addr + 1) h.2 in
    intersect_all-HasGaps rs refs (intersect_range r.size refs out r) (r.base + r.size) h.2 w (
      intersect_range-HasGaps r.size refs out r w v (omega arith)
        (record { nonempty = h.1; fits = omega arith }))

HasGaps-unless_empty :
    (t t' : Tree) (u c m : RangeMap)
    → HasGaps u
    → HasGaps c
    → HasGaps m
    → HasGaps (unless_empty t t' u c m)
unfolding unless_empty
HasGaps-unless_empty leaf t' u c m hu hc hm = hu
HasGaps-unless_empty (node lc r rc) leaf u c m hu hc hm = hc
HasGaps-unless_empty (node lc r rc) (node lc' r' rc') u c m hu hc hm = hm

ranges-GapChain : (m : RangeMap) → HasGaps m → GapChain 0 (to_list m.root) (max_addr + 1)
ranges-GapChain m v = (Gapped-iff m.root 0 (max_addr + 1)).0 v.gapped

-- Intersecting keeps gaps.
pub map_intersect-HasGaps :
    (m refs : RangeMap) → HasGaps m → IsWellFormed refs → HasGaps (map_intersect m refs)
unfolding map_intersect
map_intersect-HasGaps m refs v w =
    HasGaps-unless_empty m.root refs.root m (map_clear m) _ v (map_clear-HasGaps m) (
      intersect_all-HasGaps (to_list m.root) refs (map_clear m) 0 (ranges-GapChain m v) w
        (map_clear-HasGaps m))

keep_head-HasGaps :
    (out : RangeMap) (range : MemRange) (obase : ℕ)
    → HasGaps out
    → 0 < range.base
    → range.base ≤ obase
    → obase ≤ max_addr
    → HasGaps (keep_head out range obase)
unfolding keep_head
keep_head-HasGaps out range obase v p q fits = elim (Bool-cases (ltb range.base obase)) [
  | inl before ↦
      let less = ltb→lt range.base obase before in
      let len : sub64 obase range.base ≡ obase - range.base = sub64_exact obase range.base fits q in
      rw before (
        add_range-HasGaps out range.base (sub64 obase range.base) range.rec p (omega (arith, len))
          (omega (arith, len)) v)
  | inr at ↦ rw at v
]

subtract_turn-HasGaps :
    (again : RangeMap → MemRange → RangeMap) (copy out : RangeMap) (range : MemRange)
    (o : Option (ℕ × ℕ))
    → HasGaps out
    → 0 < range.base
    → IsRange range
    → ((a : ℕ) → IsFirst copy.root range a o)
    → Keeps again range
    → HasGaps (subtract_turn again out range o)
unfolding subtract_turn keep_rest
subtract_turn-HasGaps again copy out range none v p g first ih =
    elim (Bool-cases (range.size == 0)) [
      | inl done ↦ rw done v
      | inr more ↦
          rw more (add_range-HasGaps out range.base range.size range.rec p g.nonempty g.fits v)
    ]
subtract_turn-HasGaps again copy out range (some (obase, osize)) v p g first ih =
    let at = first obase in
    resume-HasGaps again copy range (keep_head out range obase) obase osize
      (keep_head-HasGaps out range obase v p at.1 (omega arith)) p g at ih

subtract_range-HasGaps :
    (fuel : ℕ) (copy out : RangeMap) (range : MemRange)
    → IsWellFormed copy
    → HasGaps out
    → 0 < range.base
    → IsRange range
    → HasGaps (subtract_range fuel copy out range)
unfolding subtract_range Keeps
subtract_range-HasGaps zero copy out range w v p g = v
subtract_range-HasGaps (suc fuel) copy out range w v p g =
    subtract_turn-HasGaps (subtract_range fuel copy) copy out range (map_overlaps copy range) v p g
      (λ a. map_overlaps-IsFirst copy range a w g)
      (λ out' range' v' p' g' q. subtract_range-HasGaps fuel copy out' range' w v' p' g')

subtract_all-HasGaps :
    (rs : List MemRange) (copy out : RangeMap) (lo : ℕ)
    → GapChain lo rs (max_addr + 1)
    → IsWellFormed copy
    → HasGaps out
    → HasGaps (subtract_all copy out rs)
unfolding subtract_all
subtract_all-HasGaps [] copy out lo h w v = v
subtract_all-HasGaps (r ∷ rs) copy out lo h w v =
    let le = GapChain-lt rs (r.base + r.size) (max_addr + 1) h.2 in
    subtract_all-HasGaps rs copy (subtract_range r.size copy out r) (r.base + r.size) h.2 w (
      subtract_range-HasGaps r.size copy out r w v (omega arith)
        (record { nonempty = h.1; fits = omega arith }))

-- Subtracting keeps gaps.
pub map_subtract-HasGaps :
    (m refs : RangeMap) → HasGaps m → IsWellFormed refs → HasGaps (map_subtract m refs)
unfolding map_subtract
map_subtract-HasGaps m refs v w =
    let empty = init_empty_map-IsWellFormed m.residence in
    let copied =
      map_union-Covers (init_empty_map m.residence) m empty.0 v.valid
        (λ a. ground (arith, empty.1 a)) in
    let copy =
      map_intersect-Covers (map_union (init_empty_map m.residence) m) refs copied.valid w in
    HasGaps-unless_empty refs.root m.root m m _ v v (
      subtract_all-HasGaps (to_list m.root) _ (map_clear m) 0 (ranges-GapChain m v) copy.valid
        (map_clear-HasGaps m))
