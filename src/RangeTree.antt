-- ===== src/RangeTree.antt =====
-- range_tree/dtree.c and bop_map.h: ordered sets of address ranges, kept in a splay tree.
pub mod Range
pub mod Tree
pub mod Splay
pub mod Absorb
pub mod Map
pub mod Add
pub mod Overlaps
pub mod Contains
pub mod Hash
pub mod Remove
pub mod Gaps
pub mod SetOps
