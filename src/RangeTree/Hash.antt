-- ===== src/RangeTree/Hash.antt =====
-- The maps of dtree.c that take keys to records.
use cbop.Prelude.{ℕ, ◌+◌, ◌≤◌, ◌≡◌, refl, true, Option, none, some, arith, ◌||◌, if◌then◌else◌}
use cbop.Prelude.Word.{max_addr, add64_exact, sub64_exact}
use cbop.RangeTree.Range.{MemRange, overlap, union_ranges, min, max}
use cbop.RangeTree.Tree.{leaf, node}
use cbop.RangeTree.Splay.{splay, splay_loop}
use cbop.RangeTree.Map.{RangeMap}
use cbop.RangeTree.Absorb.{absorb_left, absorb_right}
use cbop.RangeTree.Add.{
  map_add_range, add_range, add_under, add_at, new_node, expand_root, bordering, is_some,
}
use cbop.RangeTree.Contains.{map_search_key, map_contains, found_at, record_of}

-- `none` is the failure of an assertion.
unfoldable pub map_add_key_val : RangeMap → ℕ → ℕ → Option RangeMap
unfolding map_add_range
map_add_key_val m key obj = if m.is_hash then map_add_range m key 1 obj else none

-- A map with one key.
abbrev pub one_key : ℕ → ℕ → ℕ → RangeMap
one_key res key obj = record {
  is_hash = true;
  residence = res;
  root = node leaf (record { base = key; size = 1; rec = obj; task = 0 }) leaf;
  size = 1;
}

-- The record of a key that stands behind another one is lost: the two ranges become one, with the record
-- of the first key.
pub map_search_key-next :
    (res key obj obj' : ℕ)
    → key + 2 ≤ max_addr
    → (m' : RangeMap) × (map_add_key_val (one_key res key obj) (key + 1) obj' ≡ some m')
      × ((map_search_key m' (key + 1)).0 ≡ some obj)
unfolding map_add_key_val map_add_range add_range add_under add_at new_node expand_root bordering
    union_ranges absorb_left absorb_right splay splay_loop map_search_key map_contains found_at
    record_of min max
map_search_key-next res key obj obj' fits =
    let n = new_node (key + 1) 1 obj' in
    let top : MemRange = record { base = key; size = 1; rec = obj; task = 0 } in
    let touches : (is_some (overlap n top) || bordering n top) ≡ true =
      ground (arith, add64_exact key 1) in
    (
      expand_root (one_key res key obj) n leaf top leaf,
      rw touches refl,
      ground (
        arith,
        add64_exact key 1,
        add64_exact key 2,
        add64_exact (key + 1) 1,
        sub64_exact (key + 2) key,
      ),
    )
