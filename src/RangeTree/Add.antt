-- ===== src/RangeTree/Add.antt =====
-- `map_add_range` of dtree.c: the new range is joined with those that it overlaps or borders on.
pub mod Root
pub mod Cover
pub mod Lost
pub mod Append
use cbop.Prelude.{ℕ, ◌≡◌, Bool, true, false, ◌||◌, Option, none, some, ltb, ◌==◌, if◌then◌else◌}
use cbop.Prelude.Word.{add64}
use cbop.RangeTree.Range.{MemRange, bound, overlap, union_ranges}
use cbop.RangeTree.Tree.{Tree, leaf, node}
use cbop.RangeTree.Splay.{splay}
use cbop.RangeTree.Absorb.{absorb_left, absorb_right}
use cbop.RangeTree.Map.{RangeMap}

-- The range of a new node; `calloc` leaves the task 0.
unfoldable pub new_node : ℕ → ℕ → ℕ → MemRange
new_node base size obj = record { base = base; size = size; rec = obj; task = 0 }

abbrev pub is_some : {A : Type 0} → Option A → Bool
is_some none = false
is_some (some _) = true

unfoldable pub bordering : MemRange → MemRange → Bool
bordering n top = if ltb n.base top.base then bound n == top.base else bound top == n.base

-- The root grows to the union and takes in what it touches on both sides.
unfoldable pub expand_root : RangeMap → MemRange → Tree → MemRange → Tree → RangeMap
expand_root m n lc top rc =
    let (ubase, usize) = union_ranges n top in
    let left = absorb_left lc (record top { base = ubase; size = usize }) m.size in
    let right = absorb_right rc left.range left.size in
    record m { root = node left.tree right.range right.tree; size = right.size }

unfoldable pub insert_left : RangeMap → MemRange → Tree → MemRange → Tree → RangeMap
insert_left m n lc top rc =
    let left = absorb_left lc n (add64 m.size 1) in
    record m { root = node left.tree left.range (node leaf top rc); size = left.size }

unfoldable pub insert_right : RangeMap → MemRange → Tree → MemRange → Tree → RangeMap
insert_right m n lc top rc =
    let right = absorb_right rc n (add64 m.size 1) in
    record m { root = node (node lc top leaf) right.range right.tree; size = right.size }

-- After the splay, by the root that it leaves.
unfoldable pub add_at : RangeMap → MemRange → Tree → RangeMap
unfolding bordering
add_at m n leaf = m
add_at m n (node lc top rc) =
    if is_some (overlap n top) || bordering n top
    then expand_root m n lc top rc
    else (if ltb n.base top.base
        then insert_left m n lc top rc
        else (if ltb top.base n.base
            then insert_right m n lc top rc
            else record m { root = node lc top rc }))

-- By the root before the call.
unfoldable pub add_under : RangeMap → MemRange → Tree → RangeMap
add_under m n leaf = record m { root = node leaf n leaf; size = 1 }
add_under m n (node lc r rc) = add_at m n (splay (node lc r rc) n.base)

-- The function behind its assertion.
unfoldable pub add_range : RangeMap → ℕ → ℕ → ℕ → RangeMap
unfolding new_node
add_range m base size obj = add_under m (new_node base size obj) m.root

-- `none` stands for the failure of `assert( size > 0 )`. The result of the C function points at the
-- range of the root.
unfoldable pub map_add_range : RangeMap → ℕ → ℕ → ℕ → Option RangeMap
map_add_range m base size obj = if size == 0 then none else some (add_range m base size obj)
