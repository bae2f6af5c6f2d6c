-- ===== src/Lib.antt =====
-- BOP (behaviour-oriented parallelisation) runs marked regions of a sequential program as speculative
-- tasks: a main process forks a task for what comes after its region, the tasks run side by side in
-- processes of their own, and a task's data last only if the checks of all tasks before it pass.
-- Meanwhile an understudy runs the same regions in sequence, in case the speculation fails.
--
-- The parts, and where they are modelled:
--
-- - RangeTree, for range_tree/dtree.c and bop_map.h: maps of disjoint address ranges in splay trees, by
--   which the other parts record what a task read and wrote. Range has `overlap` and `union_ranges`;
--   Tree the nodes; Splay the top-down splaying, with its two trees under construction as lists; Map
--   `map_t`; Absorb and Add `map_add_range`; Overlaps, Contains and Remove the searches and the
--   removal; Hash the maps from keys to records; SetOps the intersection, union, clone and difference; Gaps the maps whose ranges do not
--   touch. An operation takes and returns the map. Addresses and sizes are 64-bit words with their
--   wrap-around (Prelude.Word).
-- - Task, for bop_api.h and utils.c: the status of a task, the place in a region, the limits that are
--   read from the environment.
-- - Ppr, for bop_ppr.c: `_BOP_ppr_begin`, and in Ppr.End the commit, the abort, the understudy and
--   `_BOP_ppr_end`. A handler takes the state of one task and what it meets (the outcome of `fork`, the
--   sizes that others may have lowered, the result of the checks), and returns the new state with the
--   calls that it made, in their order, or the end of the process. Ppr.Monitor has the signal handlers,
--   the reaping of children and the process that monitors the others, over the sequence of signals and
--   of the results of `waitpid`.
-- - Ppr.Start, for `BOP_init`: what the program comes to by its environment and by what the system calls
--   bring, which are given.
-- - Ppr.Tasks, for the end of a region in bop_ppr.c with the waits and signals of bop_ppr_sync.c: all tasks
--   of a parallel group side by side. A task stands at a place, which names the call that it makes next; a
--   turn is one access to the shared record, and `partial_group_set_size` has three. System is the group
--   with the understudy and the two signals, its steps and what it can reach; Views what each call does
--   to the locks; Order, Survivor and Calm the invariants; Shared the data that the tasks share and only
--   their checks change; Solo the turns of one task against `ppr_task_commit`. Tasks that have not been
--   forked are tasks that have not moved, a signal may come at any time, and the fork of the understudy may fail.
-- - Sync, for bop_ppr_sync.c and atomic.h: the record that the tasks of a group share. An acquire that
--   would spin is `blocked`.
-- - Ports, for bop_ports.c and bop_ports.h: the table by which the parts plug into the life cycle. The
--   functions of a port act on a state type that is a parameter.
-- - Merge, for bop_merge.c: the recording of accesses, the patches of the tasks' writes, and the commit
--   of the group. A memory is a function from addresses to bytes. The shared memory space is a
--   parameter: the addresses of its allocations, which are distinct as long as none is freed. Merge.Check
--   has the conflict check of one task, and in Serial and Refine a whole group from its checks to its
--   commit, where every task runs on the memory as it was at the start of the group, all but the last
--   make patches, and the last one commits the group on its own memory; Merge.Group has
--   the start of a group, in bop_merge.c and in postwait.c; Merge.Tasks the same group with its tasks side
--   by side, where a check is one step, since no two are made at once;
--   Overlay and Cleared have what the commit of a group copies and what it leaves for the next one;
--   Merge.Memmove the `memmove` of libc_overrides.c.
-- - Postwait, for postwait.c: the local channel, the maps that know which task wrote a range, and the
--   check that maps do not overlap; Postwait.Board has the switch board, with posting and the
--   chains of channels, and in Wait the waiting. A pointer to a channel is its index, and an operation is one step, since it holds
--   the lock of the board. Postwait.AfterPost has the check for changes after a post.
-- - Io, for bop_io.c: the buffers that the tasks print into. A block is a function from offsets to bytes.
-- - Bitmap, for ary_bitmap.c: the bitmaps behind an array, and their scan. A word is a number, and memory a
--   function from the addresses of aligned words.
-- - Ordered, for bop_ordered.c: ordered regions, with the calls that they make of channels and ports.
-- - KeyValue, for key_value_checks.c and key_value_checks.h: the monitoring of key-value pairs.
-- - Prelude has the numbers, the tests and the lists; Tests the runs and instances.
--
-- The life cycle calls the ports, and the ports' checks decide over the commit; the waits and signals
-- that Ppr lists as effects are the operations of Sync.
--
-- Fuel: the loops of `map_intersect` and `map_subtract` run on the size of the range that they work
-- off, which is enough because every turn shortens the range by at least one address. The loops over the
-- chains of channels run on a number of steps, and `none` is a chain that they do not reach the end of.
-- The doubling of a buffer runs on a number of steps too, and as many as there are bytes to store
-- are enough. All else is structural.
--
-- Bounds: a map holds fewer than 2^32 ranges, so that the `unsigned` counters of `map_to_array` do not
-- wrap. Ranges do not wrap around the address space where a theorem asks for a well-formed map.
--
-- Not modelled: the memory spaces and their freeing, messages, the installation of the signal handlers, the
-- terminal functions of bop_io.c, the allocating functions of ary_bitmap.c, and external/malloc.c, a copy
-- of another project's allocator.
pub mod Prelude
pub mod RangeTree
pub mod Tests
pub mod Ppr
pub mod Sync
pub mod Task
pub mod Ports
pub mod Bitmap
pub mod Io
pub mod KeyValue
pub mod Merge
pub mod Postwait
pub mod Ordered
