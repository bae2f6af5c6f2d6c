-- ===== src/Merge/Check/Refine.antt =====
-- A group of tasks that commits, against the run of the tasks one after the other.
use cbop.Prelude.{
  ℕ, ◌+◌, ◌≡◌, ◌∙◌, refl, sym, ap, Bool, true, false, ◌||◌, List, [], ◌∷◌, ◌++◌, ◌&&◌, some, arith,
  length, get_elem?, ◌⊎◌, inl, inr, if◌then◌else◌,
}
use cbop.Task.{TaskStatus}
use cbop.RangeTree.Tree.{leaf, to_list, covers-to_list}
use cbop.RangeTree.Map.{RangeMap, IsWellFormed, covered}
use cbop.Merge.{
  Memory, Space, Committed, commit_tasks, fill_patches, ppr_group_commit, is_outside_group,
}
use cbop.Merge.Commit.{ppr_group_commit-last}
use cbop.Merge.Overlay.{AllGapped, overlay, overlay-cong}
use cbop.Merge.Check.{answered, CheckState}
use cbop.Merge.Check.Laws.{ppr_is_correct-Verdict}
use cbop.Merge.Check.Serial.{
  is_stale-cong, TaskRun, seen, run_task, run_tasks, speculate, check_tasks, is_stale, AllRecorded,
  NoneWrites, NoneWrites-or, DisjointWrites, GroupVerdict, check_first-GroupVerdict,
}

check_tasks-GroupVerdict :
    (clone ppr_index : ℕ) (status : TaskStatus) (ts : List TaskRun) (s : CheckState)
    → is_outside_group status ≡ false
    → IsWellFormed s.write_union
    → s.received.root ≡ leaf
    → AllRecorded ts
    → DisjointWrites ts
    → NoneWrites (covered s.write_union) ts
    → (out : Bool × CheckState) × (check_tasks clone ppr_index status ts s ≡ answered out)
      × GroupVerdict ts s out
unfolding check_tasks is_outside_group
check_tasks-GroupVerdict clone ppr_index status [] s inside w empty rec d none =
    ((true, s), refl, λ a. refl)
check_tasks-GroupVerdict clone ppr_index status (t ∷ ts) s inside w empty rec d none =
    let (first, e, v) =
      ppr_is_correct-Verdict status ppr_index clone t.reads t.writes s inside w empty rec.0 rec.1
        none.0 in
    check_first-GroupVerdict clone ppr_index status t ts s first e v (λ s' passed.
      check_tasks-GroupVerdict clone (ppr_index + 1) TaskStatus.spec ts s' refl passed.joined.valid
        passed.joined.none_received rec.2 d.1
        (NoneWrites-or ts (covered t.writes) (covered s.write_union) (covered s'.write_union)
          (λ x. ground (arith, passed.joined.covering x, covers-to_list t.writes.root x)) d.0
          none.1))

-- A task sees the same in two memories that agree where it reads.
seen-cong :
    (reads : RangeMap) (m m' : Memory)
    → ((a : ℕ) → (covered reads a ≡ false) ⊎ (m a ≡ m' a))
    → seen reads m ≡ seen reads m'
seen-cong reads m m' h = λ i a. at a i
  where
    at : (a : ℕ) → seen reads m a ≡ seen reads m' a
    at a = elim (h a) [ inl p ↦ rw p refl | inr q ↦ ap (λ v. if covered reads a then v else 0) q ]

overlay-run_tasks :
    (ts : List TaskRun) (m0 m : Memory) (written : ℕ → Bool)
    → ((a : ℕ) → (written a ≡ true) ⊎ (m a ≡ m0 a))
    → ((a : ℕ) → is_stale written ts a ≡ false)
    → (a : ℕ) → overlay (speculate m0 ts) m a ≡ run_tasks ts m a
overlay-run_tasks [] m0 m written same fresh a = refl
overlay-run_tasks (t ∷ ts) m0 m written same fresh a =
    overlay-cong (speculate m0 ts) _ (run_task t m) a step
    ∙ overlay-run_tasks ts m0 (run_task t m) (λ x. covered t.writes x || written x)
        (λ x. ground (arith, same x)) (λ x. ground (arith, fresh x)) a
  where
    sees : seen t.reads m0 ≡ seen t.reads m
    sees = seen-cong t.reads m0 m (λ x. ground (arith, fresh x, same x))

    step : (x : ℕ) → (if covered t.writes x then run_task t m0 x else m x) ≡ run_task t m x
    step x = ground (arith, ap (λ f. t.effect f x) sees)

speculate-AllGapped :
    (ts : List TaskRun) (m0 : Memory) → AllRecorded ts → AllGapped (speculate m0 ts)
speculate-AllGapped [] m0 h = tt
speculate-AllGapped (t ∷ ts) m0 h = (h.1, speculate-AllGapped ts m0 h.2)

length-speculate : (ts : List TaskRun) (m0 : Memory) → length (speculate m0 ts) ≡ length ts
length-speculate [] m0 = refl
length-speculate (t ∷ ts) m0 = omega (arith, length-speculate ts m0)

NoneWrites-none : (w : ℕ → Bool) (ts : List TaskRun) → ((a : ℕ) → w a ≡ false) → NoneWrites w ts
NoneWrites-none w [] h = tt
NoneWrites-none w (t ∷ ts) h = ((λ a. ground (arith, h a)), NoneWrites-none w ts h)

AllRecorded-before :
    (ts : List TaskRun) (last : TaskRun) → AllRecorded (ts ++ (last ∷ [])) → AllRecorded ts
AllRecorded-before [] last h = tt
AllRecorded-before (t ∷ ts) last h = (h.0, h.1, AllRecorded-before ts last h.2)

NoneWrites-last :
    (w : ℕ → Bool) (ts : List TaskRun) (last : TaskRun)
    → NoneWrites w (ts ++ (last ∷ []))
    → (a : ℕ) → (covered last.writes a && w a) ≡ false
NoneWrites-last w [] last h = h.0
NoneWrites-last w (t ∷ ts) last h = NoneWrites-last w ts last h.1

-- The last task has its own writes in its memory from the start; as no other task writes there, that is
-- as if they came last.
overlay-last :
    (ts : List TaskRun) (last : TaskRun) (m0 m' m : Memory) (a : ℕ)
    → m' a ≡ (if covered last.writes a then run_task last m0 a else m a)
    → DisjointWrites (ts ++ (last ∷ []))
    → overlay (speculate m0 ts) m' a ≡ overlay (speculate m0 (ts ++ (last ∷ []))) m a
overlay-last [] last m0 m' m a e d = e
overlay-last (t ∷ ts) last m0 m' m a e d =
    overlay-last ts last m0 _ _ a
      (ground (arith, e, NoneWrites-last (covered t.writes) ts last d.0 a)) d.1

-- The commit after a verdict: as the run in sequence where the checks passed, and else an address that
-- a task read and an earlier one wrote. All tasks but the last make their patches; the last one commits
-- the group on the memory that it has itself, with the array of the group.
abbrev pub Serial :
    (ℕ → ℕ)
    → ℕ
    → ℕ
    → List RangeMap
    → List TaskRun
    → TaskRun
    → Space
    → Memory
    → Bool × CheckState
    → Type 0
Serial calloc residence spec_order patches before last space memory (false, s') =
    (a : ℕ) × (is_stale (λ x. false) (before ++ (last ∷ [])) a ≡ true)
Serial calloc residence spec_order patches before last space memory (true, s') =
    (c : Committed) × (ppr_group_commit spec_order
        (fill_patches (commit_tasks calloc residence space (speculate memory before)).1 patches)
        (commit_tasks calloc residence space (speculate memory before)).0 (run_task last memory)
      ≡ some c)
    × ((a : ℕ) → c.memory a ≡ run_tasks (before ++ (last ∷ [])) memory a)

module _ (calloc : ℕ → ℕ) (fresh : (i j : ℕ) → calloc i ≡ calloc j → i ≡ j)
    (residence clone ppr_index : ℕ) (before : List TaskRun) (last : TaskRun) (spec_order : ℕ)
    (patches : List RangeMap) (p : RangeMap) (space : Space) (memory : Memory)
    (s : CheckState) where
  abbrev tasks : List TaskRun
  tasks = before ++ (last ∷ [])

  GroupVerdict-Serial :
      (out : Bool × CheckState)
      → length before ≡ spec_order
      → get_elem? patches spec_order ≡ some p
      → to_list p.root ≡ []
      → AllRecorded tasks
      → DisjointWrites tasks
      → ((a : ℕ) → covered s.write_union a ≡ false)
      → GroupVerdict tasks s out
      → Serial calloc residence spec_order patches before last space memory out
  GroupVerdict-Serial (false, s') e at cleared rec d none g =
      (g.0, sym (is_stale-cong tasks _ _ g.0 none) ∙ g.1)
  GroupVerdict-Serial (true, s') e at cleared rec d none g =
      let (c, eq, mem) =
        ppr_group_commit-last calloc fresh residence (speculate memory before) spec_order space
          (run_task last memory) patches p (length-speculate before memory ∙ e)
          (speculate-AllGapped before memory (AllRecorded-before before last rec)) at cleared in
      (
        c,
        eq,
        λ a.
            mem a
            ∙ overlay-last before last memory (run_task last memory) memory a (ground arith) d
            ∙ overlay-run_tasks tasks memory memory (covered s.write_union) (λ x. inr refl) g a,
      )

  -- A group of tasks that have recorded their accesses, that have received no data, and no two of which
  -- write one address, has all its checks answered up to the first that fails. If all pass, the commit of
  -- the group succeeds, and leaves the memory that the tasks leave when they run one after the other. If
  -- one fails, some task read an address that an earlier one wrote.
  pub check_tasks-Serial :
      length before ≡ spec_order
      → get_elem? patches spec_order ≡ some p
      → to_list p.root ≡ []
      → AllRecorded tasks
      → DisjointWrites tasks
      → IsWellFormed s.write_union
      → ((a : ℕ) → covered s.write_union a ≡ false)
      → s.received.root ≡ leaf
      → (out : Bool × CheckState) × (check_tasks clone ppr_index TaskStatus.main tasks s
          ≡ answered out)
        × Serial calloc residence spec_order patches before last space memory out
  unfolding is_outside_group
  check_tasks-Serial e at cleared rec d w none empty =
      let (out, eq, g) =
        check_tasks-GroupVerdict clone ppr_index TaskStatus.main tasks s refl w empty rec d
          (NoneWrites-none (covered s.write_union) tasks none) in
      (out, eq, GroupVerdict-Serial out e at cleared rec d none g)
