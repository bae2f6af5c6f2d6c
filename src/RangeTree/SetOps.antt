-- ===== src/RangeTree/SetOps.antt =====
-- `map_intersect`, `map_union`, `map_clone` and `map_subtract` of dtree.c. The maps are given by
-- pointers that are not NULL. `add_range` stands for `map_add_range` behind its assertion: the loops
-- add no empty range.
pub mod Union
pub mod Intersect
pub mod Subtract
use cbop.Prelude.{ℕ, zero, suc, List, [], ◌∷◌, Option, none, some, ltb, ◌==◌, if◌then◌else◌}
use cbop.Prelude.Word.{add64, sub64}
use cbop.RangeTree.Range.{MemRange, bound}
use cbop.RangeTree.Tree.{Tree, leaf, node}
use cbop.RangeTree.Map.{RangeMap, init_empty_map, map_clear, map_to_array}
use cbop.RangeTree.Add.{add_range}
use cbop.RangeTree.Overlaps.{map_overlaps}

-- The part of a range behind an overlap.
unfoldable pub rest_of : MemRange → ℕ → ℕ → MemRange
rest_of range obase osize =
    let base = add64 obase osize in record range { base = base; size = sub64 (bound range) base }

-- `while (overlap && range.size != 0)` after an overlap.
unfoldable pub resume : (RangeMap → MemRange → RangeMap) → RangeMap → MemRange → RangeMap
resume again out rest = let more = again out rest in if rest.size == 0 then out else more

-- One turn of the `do` loop of `map_intersect`, with the turns after it.
unfoldable pub intersect_turn :
    (RangeMap → MemRange → RangeMap) → RangeMap → MemRange → Option (ℕ × ℕ) → RangeMap
intersect_turn again out range none = out
intersect_turn again out range (some (obase, osize)) =
    resume again (add_range out obase osize range.rec) (rest_of range obase osize)

-- Each turn shortens the range, so that its size is enough fuel.
unfoldable pub intersect_range : ℕ → RangeMap → RangeMap → MemRange → RangeMap
unfolding intersect_turn
intersect_range zero refs out range = out
intersect_range (suc fuel) refs out range =
    intersect_turn (intersect_range fuel refs) out range (map_overlaps refs range)

unfoldable pub intersect_all : RangeMap → RangeMap → List MemRange → RangeMap
unfolding intersect_range
intersect_all refs out [] = out
intersect_all refs out (r ∷ rs) = intersect_all refs (intersect_range r.size refs out r) rs

unfoldable pub unless_empty : Tree → Tree → RangeMap → RangeMap → RangeMap → RangeMap
unless_empty leaf ref_root unchanged cleared met = unchanged
unless_empty (node lc r rc) leaf unchanged cleared met = cleared
unless_empty (node lc r rc) (node lc' r' rc') unchanged cleared met = met

unfoldable pub map_intersect : RangeMap → RangeMap → RangeMap
unfolding intersect_all map_to_array unless_empty
map_intersect base_map ref_map =
    unless_empty base_map.root ref_map.root base_map (map_clear base_map)
      (intersect_all ref_map (map_clear base_map) (map_to_array base_map))

unfoldable pub union_all : RangeMap → List MemRange → RangeMap
union_all out [] = out
union_all out (r ∷ rs) = union_all (add_range out r.base r.size r.rec) rs

-- An empty `ref_map` returns at once, which the loop over no ranges does too.
unfoldable pub map_union : RangeMap → RangeMap → RangeMap
unfolding union_all map_to_array
map_union base_map ref_map = union_all base_map (map_to_array ref_map)

-- `space` is the address of the memory space to use, 0 for that of the source.
unfoldable pub map_clone : RangeMap → ℕ → RangeMap
map_clone source space =
    map_union (init_empty_map (if space == 0 then source.residence else space)) source

-- What stands in front of an overlap stays.
unfoldable pub keep_head : RangeMap → MemRange → ℕ → RangeMap
keep_head out range obase =
    if ltb range.base obase
    then add_range out range.base (sub64 obase range.base) range.rec
    else out

-- After the loop of `map_subtract`.
unfoldable pub keep_rest : RangeMap → MemRange → RangeMap
keep_rest out range = if range.size == 0 then out else add_range out range.base range.size range.rec

unfoldable pub subtract_turn :
    (RangeMap → MemRange → RangeMap) → RangeMap → MemRange → Option (ℕ × ℕ) → RangeMap
subtract_turn again out range none = keep_rest out range
subtract_turn again out range (some (obase, osize)) =
    resume again (keep_head out range obase) (rest_of range obase osize)

unfoldable pub subtract_range : ℕ → RangeMap → RangeMap → MemRange → RangeMap
unfolding subtract_turn
subtract_range zero copy out range = out
subtract_range (suc fuel) copy out range =
    subtract_turn (subtract_range fuel copy) out range (map_overlaps copy range)

unfoldable pub subtract_all : RangeMap → RangeMap → List MemRange → RangeMap
unfolding subtract_range
subtract_all copy out [] = out
subtract_all copy out (r ∷ rs) = subtract_all copy (subtract_range r.size copy out r) rs

-- The temporary map holds the intersection.
unfoldable pub map_subtract : RangeMap → RangeMap → RangeMap
unfolding subtract_all map_to_array unless_empty
map_subtract base_map ref_map =
    let copy = map_intersect (map_union (init_empty_map base_map.residence) base_map) ref_map in
    unless_empty ref_map.root base_map.root base_map base_map
      (subtract_all copy (map_clear base_map) (map_to_array base_map))
