-- ===== src/RangeTree/Map.antt =====
-- `map_t` of bop_map.h: a tree with its cached number of nodes. The name of a map serves messages
-- only and is left out; `residence` is the address of the memory space, 0 for NULL.
use cbop.Prelude.{ℕ, ◌≡◌, Bool, false, List}
use cbop.Prelude.Word.{max_addr}
use cbop.RangeTree.Range.{MemRange}
use cbop.RangeTree.Tree.{Tree, leaf, to_list, count, covers, subtree_size, Between}

pub record RangeMap : Type 0 where
  pub is_hash : Bool
  pub residence : ℕ
  pub root : Tree
  pub size : ℕ

unfoldable pub init_empty_map : ℕ → RangeMap
init_empty_map res = record { is_hash = false; residence = res; root = leaf; size = 0 }

-- `map_clear` frees every node and resets the size.
unfoldable pub map_clear : RangeMap → RangeMap
map_clear m = record m { root = leaf; size = 0 }

-- The ranges that `map_to_array`, `map_inject` and `map_foreach` go through, in their order.
unfoldable pub map_to_array : RangeMap → List MemRange
map_to_array m = to_list m.root

unfoldable pub map_size_in_bytes : RangeMap → ℕ
map_size_in_bytes m = subtree_size m.root

-- The ranges are disjoint and ascending, within the address space, and the size counts them.
pub record IsWellFormed (m : RangeMap) : Type 0 where
  pub ordered : Between 0 m.root max_addr
  pub counted : m.size ≡ count m.root

abbrev pub covered : RangeMap → ℕ → Bool
covered m a = covers m.root a
