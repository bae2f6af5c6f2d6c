-- ===== src/Tests/Merging.antt =====
-- Runs and instances for bop_merge.c and bop_ordered.c.
use cbop.Prelude.{
  ◌-◌, ◌⊎◌, inl, inr, if◌then◌else◌, ℕ, Bool, ◌+◌, ◌≡◌, refl, true, false, ◌++◌, List, [], ◌∷◌,
  some, arith,
}
use cbop.Task.{TaskStatus, PprPos}
use cbop.RangeTree.Tree.{leaf, node}
use cbop.RangeTree.Map.{RangeMap, covered, map_clear}
use cbop.RangeTree.Overlaps.{map_overlaps, subtree_overlaps}
use cbop.RangeTree.Range.{overlap, within}
use cbop.RangeTree.Splay.{splay}
use cbop.Prelude.Word.{add64}
use cbop.Sync.{blank, ppr_sync_data_reset}
use cbop.Postwait.FromTask.{add_splayed, insert_apart, map_add_range_from_task}
use cbop.Merge.{
  Memory, Space, AccessMaps, is_ignored, is_outside_group, commit_tasks, fill_patches, Committed,
  ppr_group_commit,
}
use cbop.Ordered.{
  Region, OrderedCall, channel_post, channel_wait, on_enter_ordered, on_exit_ordered, is_sent,
  ordered_begin, ordered_end, ordered_end-begin,
}
use cbop.Merge.Check.{answered, CheckState, ppr_is_correct}
use cbop.Merge.Check.Laws.{Verdict, ppr_is_correct-Verdict}
use cbop.Merge.Check.Serial.{TaskRun, check_tasks, speculate, run_task, run_tasks}
use cbop.Merge.Check.Refine.{Serial}
use cbop.Merge.Memmove.{memmove, memmove-Moved}
use cbop.Merge.Record.{Includes}
use cbop.Merge.Tasks.{task_check, shared_start, group_commit-Serial}
use cbop.Tests.Schedule.{on, Ran, moves, begin, two-IsReady}
use cbop.Merge.Group.{
  HasCleared, MergeState, PostwaitTask, bop_merge_init, checks_of, bop_merge_init-Serial,
}
use cbop.Merge.Commit.{ppr_group_commit-overlay}
use cbop.Merge.Overlay.{overlay}
use cbop.Merge.Cleared.{ppr_group_commit-HasCleared}

abbrev no_ranges : RangeMap
no_ranges = record { is_hash = false; residence = 1; root = leaf; size = 0 }

abbrev one_range : ℕ → ℕ → RangeMap
one_range b s = record {
  is_hash = false;
  residence = 1;
  root = node leaf (record { base = b; size = s; rec = 0; task = 0 }) leaf;
  size = 1;
}

abbrev maps : AccessMaps
maps = record {
  read_map = no_ranges;
  write_map = one_range 100 10;
  in_ordered_region = false;
  ordered_writes = no_ranges;
}

counts : is_ignored TaskStatus.spec PprPos.ppr maps ≡ false
unfolding is_ignored
counts = refl

abbrev empty_space : Space
empty_space = record { blocks = λ a i. 0; made = 0; freed = [] }

-- Both tasks write address 109, and each has a byte of its own everywhere.
abbrev tasks : List (RangeMap × Memory)
tasks = (one_range 100 10, λ a. 7) ∷ (one_range 109 5, λ a. 8) ∷ []

abbrev committed : Space × List RangeMap
committed = commit_tasks (λ n. n + 1) 1 empty_space tasks

ppr_group_commit-overlay_example :
    (c : Committed) × (ppr_group_commit 1 committed.1 committed.0 (λ a. 0) ≡ some c)
    × ((a : ℕ) → c.memory a ≡ overlay tasks (λ a. 0) a)
    × (c.space ≡ committed.0)
ppr_group_commit-overlay_example =
    ppr_group_commit-overlay (λ n. n + 1) (λ i j e. omega arith) 1 tasks 1 empty_space (λ a. 0) refl
      (omega arith, (omega arith, tt))

overlaid : overlay tasks (λ a. 0) 109 ≡ 8
overlaid = refl

abbrev leaving : Region
leaving = record {
  ordered_writes = one_range 100 10;
  in_ordered_region = true;
  ordered_region_id = 5;
}

abbrev entering : Region
entering = record { ordered_writes = no_ranges; in_ordered_region = false; ordered_region_id = 0 }

ordered_end-begin_example :
    (ch : ℕ) × (fills : List OrderedCall) × ((ordered_end 3 7 5 leaving).1
      ≡ fills ++ (channel_post ch ∷ on_exit_ordered ∷ []))
    × ((a : ℕ) → is_sent ch a fills ≡ covered (one_range 100 10) a)
    × ((ordered_begin 3 (7 + 1) 5 entering).1 ≡ channel_wait ch ∷ on_enter_ordered ∷ [])
    × ((ordered_end 3 7 5 leaving).0.in_ordered_region ≡ false)
    × ((a : ℕ) → covered (ordered_end 3 7 5 leaving).0.ordered_writes a ≡ false)
ordered_end-begin_example =
    ordered_end-begin 3 7 5 leaving entering refl refl refl refl (omega arith, tt)

abbrev checking : CheckState
checking = record {
  write_union = no_ranges;
  received = no_ranges;
  received_n_used = no_ranges;
  conflict_addr = 0;
}

-- The main task writes at 100, the next one reads and writes elsewhere.
abbrev first : TaskRun
first = record { reads = no_ranges; writes = one_range 100 10; effect = λ m a. 7 }

abbrev second : TaskRun
second = record { reads = one_range 300 2; writes = one_range 200 4; effect = λ m a. m 300 + 1 }

-- A later group, after one that left a map with the range of its writes.
abbrev last_group : MergeState
last_group = record {
  write_union = one_range 100 10;
  patches = no_ranges ∷ no_ranges ∷ [];
  num_patches = 2;
  read_map = no_ranges;
  write_map = no_ranges;
}

abbrev last_task : PostwaitTask
last_task = record {
  local = record { local_ch_id = 4; local_ch_data = one_range 100 10 };
  received = one_range 100 10;
  received_n_used = no_ranges;
}

bop_merge_init-Serial_example :
    (out : Bool × CheckState) × (check_tasks 90 4 TaskStatus.main
        (first ∷ second ∷ [])
        (checks_of (bop_merge_init 1 2 no_ranges no_ranges 2 (some last_group)) last_task)
      ≡ answered out)
    × Serial
        (λ n. n + 1)
        1
        1
        (bop_merge_init 1 2 no_ranges no_ranges 2 (some last_group)).patches
        (first ∷ [])
        second
        empty_space
        (λ a. 0)
        out
bop_merge_init-Serial_example =
    bop_merge_init-Serial (λ n. n + 1) (λ i j e. omega arith) 1 90 4 (first ∷ []) second 1
      empty_space (λ a. 0) 1 2 2 no_ranges no_ranges (some last_group) last_task refl (omega arith)
      (omega arith, omega arith, (refl, (refl, tt))) (omega arith)
      (((λ a. ground arith), tt), (tt, tt))

abbrev after_first : CheckState
after_first = record checking { write_union = one_range 100 10 }

inside : is_outside_group TaskStatus.spec ≡ false
unfolding is_outside_group
inside = refl

ppr_is_correct-Verdict_example :
    (out : Bool × CheckState) × (ppr_is_correct TaskStatus.spec 5 90
        (one_range 105 2)
        (one_range 200 4)
        after_first
      ≡ answered out)
    × Verdict (one_range 105 2) (one_range 200 4) after_first out
ppr_is_correct-Verdict_example =
    ppr_is_correct-Verdict TaskStatus.spec 5 90 (one_range 105 2) (one_range 200 4) after_first
      inside (omega arith) refl (omega arith) (omega arith) (λ a. ground arith)

-- The same two tasks side by side: each checks when it may, and the second one comes to the commit.
abbrev two_tasks : List TaskRun
two_tasks = first ∷ second ∷ []

abbrev two_start : CheckState
two_start =
    shared_start (λ n. n + 1) (λ i j e. omega arith) 1 90 4 (first ∷ []) second 1 empty_space
      (λ a. 0) 1 2 2 no_ranges no_ranges (some last_group) last_task

abbrev side_by_side : Ran (task_check 90 4 two_tasks) two_start 2
side_by_side =
    moves (task_check 90 4 two_tasks) two_start
      (begin (task_check 90 4 two_tasks) two_start 2 two-IsReady)
      (on 1
        ∷ on 0
        ∷ on 0
        ∷ on 0
        ∷ on 0
        ∷ on 1
        ∷ on 1
        ∷ on 0
        ∷ on 1
        ∷ on 1
        ∷ on 1
        ∷ on 0
        ∷ on 0
        ∷ on 1
        ∷ on 1
        ∷ [])

group_commit-Serial_example :
    (◌≡◌ {A = ℕ} 1 1)
    × (c : Committed) × (ppr_group_commit 1
          (fill_patches
            (commit_tasks (λ n. n + 1) 1 empty_space (speculate (λ a. 0) (first ∷ []))).1
            (bop_merge_init 1 2 no_ranges no_ranges 2 (some last_group)).patches)
          (commit_tasks (λ n. n + 1) 1 empty_space (speculate (λ a. 0) (first ∷ []))).0
          (run_task second (λ a. 0))
        ≡ some c)
    × ((x : ℕ) → c.memory x ≡ run_tasks two_tasks (λ a. 0) x)
unfolding moves ppr_sync_data_reset blank task_check ppr_is_correct checks_of bop_merge_init
    map_clear map_add_range_from_task add_splayed insert_apart map_overlaps subtree_overlaps overlap
    splay add64
group_commit-Serial_example =
    group_commit-Serial (λ n. n + 1) (λ i j e. omega arith) 1 90 4 (first ∷ []) second 1 empty_space
      (λ a. 0) 1 2 2 no_ranges no_ranges (some last_group) last_task side_by_side.run refl 1 refl
      refl (omega arith) (omega arith, omega arith, (refl, (refl, tt))) (omega arith)
      (((λ a. ground arith), tt), (tt, tt))

abbrev memcpy : ℕ → ℕ → ℕ → Memory → Memory
memcpy dest source num m a = if within dest num a then m (source + (a - dest)) else m a

-- Ten bytes, moved up by 3.
memmove-Moved_example :
    (moved : Memory) × (maps' : AccessMaps) × (memmove memcpy TaskStatus.main PprPos.ppr 500 103 100
        10
        (λ a. a)
        maps
      ≡ (moved, some maps'))
    × ((a : ℕ)
        → (within 500 10 a ≡ true) ⊎ (moved a ≡ (if within 103 10 a then 100 + (a - 103) else a)))
    × Includes maps'.write_map 103 10
unfolding is_ignored
memmove-Moved_example =
    memmove-Moved memcpy (λ dest source num m apart a. refl) TaskStatus.main PprPos.ppr 500 103 100
      10 (λ a. a) maps (inr (omega arith)) (inl (omega arith)) refl (omega arith) (omega arith)
      (omega arith) (omega arith) (omega arith)

-- Two patches with ranges, which the commit clears for the next group.
abbrev filled_group : MergeState
filled_group = record last_group { patches = one_range 100 10 ∷ one_range 200 4 ∷ [] }

ppr_group_commit-HasCleared_example :
    (c : Committed) × (ppr_group_commit 1 filled_group.patches empty_space (λ a. 0) ≡ some c)
    × HasCleared 2 no_ranges (some (record filled_group { patches = c.patches }))
ppr_group_commit-HasCleared_example =
    ppr_group_commit-HasCleared 1 2 no_ranges filled_group empty_space (λ a. 0) (omega arith)
      (omega arith) (omega arith) tt
