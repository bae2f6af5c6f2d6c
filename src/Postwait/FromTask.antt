-- ===== src/Postwait/FromTask.antt =====
-- `map_add_range_from_task` of postwait.c: maps whose ranges know the task that wrote them.
pub mod Disjoint
use cbop.Prelude.{
  Option, none, some, ℕ, ◌+◌, ◌≤◌, ◌<◌, ◌≡◌, ◌∙◌, refl, inl, inr, Bool-cases, ltb→lt, Bool, true,
  false, ◌&&◌, ◌||◌, arith, ltb, leb, ◌==◌, if◌then◌else◌,
}
use cbop.Prelude.Word.{max_addr, add64, add64_exact}
use cbop.RangeTree.Range.{MemRange, bound, IsRange, overlap, holds, within}
use cbop.RangeTree.Tree.{
  Tree, leaf, node, count, covers, Between, Between-le, Between-mono, count-le,
}
use cbop.RangeTree.Splay.{splay}
use cbop.RangeTree.Splay.Keys.{
  BasesBelow, BasesAbove-Between, Splits, splay-Splits, splay-Between, covers-splay, count-splay,
  is_leaf-node,
}
use cbop.RangeTree.Map.{RangeMap, IsWellFormed, covered}
use cbop.RangeTree.Add.{is_some}

-- The map after the call, a failed assertion, or the call of `BOP_abort_spec`.
pub data TaskAdd : Type 0 where
  added : RangeMap → TaskAdd
  asserted : TaskAdd
  aborted : TaskAdd

-- The overlap test with the left child of the root.
unfoldable pub overlaps_root : MemRange → Tree → Bool
overlaps_root n leaf = false
overlaps_root n (node lc r rc) = is_some (overlap n r)

unfoldable pub ends_before : Tree → ℕ → Bool
ends_before leaf a = true
ends_before (node lc r rc) a = leb (bound r) a

unfoldable pub starts_behind : Tree → ℕ → Bool
starts_behind leaf a = true
starts_behind (node lc r rc) a = leb a r.base

unfoldable pub insert_apart : RangeMap → MemRange → Tree → MemRange → Tree → TaskAdd
unfolding ends_before starts_behind
insert_apart m n lc top rc =
    if ltb n.base top.base
    then (if ends_before lc n.base
        then added (record m { root = node lc n (node leaf top rc); size = add64 m.size 1 })
        else asserted)
    else (if starts_behind rc (bound n)
        then added (record m { root = node (node lc top leaf) n rc; size = add64 m.size 1 })
        else asserted)

-- The root takes the new record unless it has one of a later task.
unfoldable pub replace_root : RangeMap → MemRange → Tree → MemRange → Tree → TaskAdd
replace_root m n lc top rc =
    if n.base == top.base && n.size == top.size
    then (if ltb n.task top.task
        then added (record m { root = node lc top rc })
        else added (record m { root = node lc (record top { rec = n.rec; task = n.task }) rc }))
    else aborted

-- By the root that the splay leaves.
unfoldable pub add_splayed : RangeMap → MemRange → Tree → TaskAdd
unfolding overlaps_root
add_splayed m n leaf = asserted
add_splayed m n (node lc top rc) =
    if is_some (overlap n top) || overlaps_root n lc
    then replace_root m n lc top rc
    else insert_apart m n lc top rc

unfoldable pub add_from_task : RangeMap → MemRange → Tree → TaskAdd
add_from_task m n leaf = added (record m { root = node leaf n leaf; size = 1 })
add_from_task m n (node lc r rc) = add_splayed m n (splay (node lc r rc) n.base)

-- `data_rec` is the address of the clone of the data, 0 for NULL.
unfoldable pub map_add_range_from_task : RangeMap → ℕ → ℕ → ℕ → ℕ → TaskAdd
unfolding add_from_task
map_add_range_from_task m base size data_rec ppr_id =
    if size == 0
    then asserted
    else add_from_task m (record { base = base; size = size; rec = data_rec; task = ppr_id }) m.root

-- The range that a call returns by its pointer stands at the root.
abbrev pub root_range : Tree → Option MemRange
root_range leaf = none
root_range (node lc r rc) = some r
