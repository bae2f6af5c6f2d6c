-- ===== src/Merge/Check/Laws.antt =====
-- `check_for_overlap` of bop_merge.c for a task that has received no data.
use cbop.Prelude.{
  ℕ, ◌+◌, ◌<◌, ◌≡◌, ◌∙◌, refl, sym, Bool, true, false, ◌&&◌, ◌||◌, List, [], ◌∷◌, Option, none,
  some, arith, inl, inr, ◌⊎◌, Bool-cases, ◌==◌, ==_iff, if◌then◌else◌,
}
use cbop.Prelude.Word.{max_addr}
use cbop.RangeTree.Range.{MemRange, IsRange, holds}
use cbop.RangeTree.Tree.{
  empty_iff, Tree, leaf, to_list, covers, covers_list, Between-iff, Chain, covers-to_list,
}
use cbop.RangeTree.Map.{RangeMap, IsWellFormed, covered}
use cbop.RangeTree.Overlaps.{subtree_overlaps, map_overlaps, IsFirst, map_overlaps-IsFirst}
use cbop.RangeTree.Contains.{map_contains, Finds, map_contains-Finds, map_contains-IsWellFormed}
use cbop.RangeTree.SetOps.Union.{covers_list-below}
use cbop.RangeTree.Gaps.{GapChain, GapChain-lt, Gapped-iff}
use cbop.RangeTree.Gaps.Add.{HasGaps}
use cbop.Postwait.FromTask.Disjoint.{map_add_range_from_task-Added}
use cbop.Task.{TaskStatus}
use cbop.Merge.{is_outside_group}
use cbop.Merge.Check.{
  answered, CheckState, mem_range_eq, looked_up, check_received, check_access, check_range,
  check_ranges, check_for_overlap, task_added, union_add_ranges, after_overlap, ppr_is_correct,
}

-- The shared map is splayed, and otherwise as before; the task has still received nothing.
pub record Same (s s' : CheckState) : Type 0 where
  pub valid : IsWellFormed s'.write_union
  pub covering : (a : ℕ) → covered s'.write_union a ≡ covered s.write_union a
  pub none_received : s'.received.root ≡ leaf

looked_up-found :
    (t : Tree) (addr : ℕ) (o : Option (Option MemRange)) (m : RangeMap)
    → Finds t addr o
    → covers t addr ≡ true
    → (r : MemRange) × (looked_up (o, m) ≡ answered (r, m))
unfolding looked_up
looked_up-found t addr none m f c = absurd f
looked_up-found t addr (some none) m f c = cc
looked_up-found t addr (some (some r)) m f c = (r, refl)

-- A lookup of a covered address, with the map that it leaves.
record Found (m : RangeMap) (addr : ℕ) : Type 0 where
  range : MemRange
  left : RangeMap
  result : looked_up (map_contains m addr) ≡ answered (range, left)
  valid : IsWellFormed left
  covering : (a : ℕ) → covered left a ≡ covered m a

found : (m : RangeMap) (addr : ℕ) → IsWellFormed m → covered m addr ≡ true → Found m addr
found m addr w c =
    let (r, e) =
      looked_up-found m.root addr (map_contains m addr).0 (map_contains m addr).1
        (map_contains-Finds m addr w) c in
    let kept = map_contains-IsWellFormed m addr w in
    record {
      range = r;
      left = (map_contains m addr).1;
      result = e;
      valid = kept.0;
      covering = kept.1;
    }

none_overlaps : (m : RangeMap) (inp : MemRange) → m.root ≡ leaf → map_overlaps m inp ≡ none
unfolding map_overlaps subtree_overlaps
none_overlaps m inp e = rw e

-- With nothing received, the second test does not matter.
none_received-false :
    (clone : ℕ) (s : CheckState) (mseg acc : MemRange) (b : Bool) (o : Option (ℕ × ℕ))
    → o ≡ none
    → (if b then check_received clone s mseg acc o else answered (false, s)) ≡ answered (false, s)
unfolding check_received
none_received-false clone s mseg acc true o e = rw e
none_received-false clone s mseg acc false o e = refl

module _ (clone : ℕ) (s : CheckState) (w : IsWellFormed s.write_union)
    (empty : s.received.root ≡ leaf) where
  -- Where the shared map covers the start of an overlap, the task is not free of conflicts.
  check_access-Same :
      (mseg : MemRange) (obase osize : ℕ)
      → covered s.write_union obase ≡ true
      → (s' : CheckState) × (check_access clone s mseg (obase, osize) ≡ answered (false, s'))
        × Same s s'
  unfolding check_access mem_range_eq
  check_access-Same mseg obase osize c =
      let f = found s.write_union obase w c in
      let g = found f.left obase f.valid (f.covering obase ∙ c) in
      elim (Bool-cases (mseg.base == obase && mseg.size == osize)) [
        | inl p ↦
            let s2 : CheckState = record s { write_union = g.left; conflict_addr = obase } in
            (
              s2,
              rw f.result (
                  rw p (
                    rw g.result (
                      none_received-false clone s2 mseg g.range
                        (g.range.base == obase && g.range.size == osize)
                        (map_overlaps s.received mseg) (none_overlaps s.received mseg empty)))),
              record {
                valid = g.valid;
                covering = λ a. g.covering a ∙ f.covering a;
                none_received = empty;
              },
            )
        | inr p ↦ (
          record s { write_union = f.left },
          rw f.result (rw p),
          record { valid = f.valid; covering = f.covering; none_received = empty },
        )
      ]

-- The answer of the check: free of conflicts, or the address of one.
abbrev pub IsAnswer : List MemRange → CheckState → ℕ → Type 0
IsAnswer rs s ret =
    ((ret ≡ 0) × ((a : ℕ) → (covers_list rs a && covered s.write_union a) ≡ false))
    ⊎ ((0 < ret) × (covers_list rs ret ≡ true) × (covered s.write_union ret ≡ true))

IsAnswer-later :
    (r : MemRange) (rs : List MemRange) (s : CheckState) (ret : ℕ)
    → ((a : ℕ) → (holds r a && covered s.write_union a) ≡ false)
    → IsAnswer rs s ret
    → IsAnswer (r ∷ rs) s ret
IsAnswer-later r rs s ret free (inl h) = inl (h.0, λ a. ground (arith, free a, h.1 a))
IsAnswer-later r rs s ret free (inr h) = inr (h.0, ground (arith, h.1), h.2)

-- The ranges of a task's map, away from NULL.
abbrev pub Ranges : List MemRange → Type 0
Ranges [] = Unit
Ranges (r ∷ rs) = (0 < r.base) × IsRange r × Ranges rs

module _ (clone : ℕ) (s : CheckState) (w : IsWellFormed s.write_union)
    (empty : s.received.root ≡ leaf) where
  check_range-answered :
      (mseg : MemRange) (msegs : List MemRange) (o : Option (ℕ × ℕ))
      → 0 < mseg.base
      → ((a : ℕ) → IsFirst s.write_union.root mseg a o)
      → ((ret : ℕ) × (s' : CheckState) × (check_ranges clone msegs s ≡ answered (ret, s'))
          × Same s s'
          × IsAnswer msegs s ret)
      → (ret : ℕ) × (s' : CheckState) × (check_range clone s mseg (check_ranges clone msegs) o
          ≡ answered (ret, s'))
        × Same s s'
        × IsAnswer (mseg ∷ msegs) s ret
  unfolding check_range
  check_range-answered mseg msegs none p first (ret, s', e, same, ans) =
      (ret, s', e, same, IsAnswer-later mseg msegs s ret first ans)
  check_range-answered mseg msegs (some (obase, osize)) p first later =
      let at = first obase in
      let c : covered s.write_union obase ≡ true = ground (arith, at) in
      let (s', e, same) = check_access-Same clone s w empty mseg obase osize c in
      (obase, s', rw e, same, inr (omega (arith, at), ground (arith, at), c))

  check_ranges-answered :
      (msegs : List MemRange)
      → Ranges msegs
      → (ret : ℕ) × (s' : CheckState) × (check_ranges clone msegs s ≡ answered (ret, s'))
        × Same s s'
        × IsAnswer msegs s ret
  unfolding check_ranges
  check_ranges-answered [] h = (
    0,
    s,
    refl,
    record { valid = w; covering = λ a. refl; none_received = empty },
    inl (refl, λ a. refl),
  )
  check_ranges-answered (mseg ∷ msegs) h =
      check_range-answered mseg msegs (map_overlaps s.write_union mseg) h.0
        (λ a. map_overlaps-IsFirst s.write_union mseg a w h.1) (check_ranges-answered msegs h.2)

  check_for_overlap-answered :
      (my_access : RangeMap)
      → Ranges (to_list my_access.root)
      → (ret : ℕ) × (s' : CheckState) × (check_for_overlap clone my_access s ≡ answered (ret, s'))
        × Same s s'
        × IsAnswer (to_list my_access.root) s ret
  unfolding check_for_overlap
  check_for_overlap-answered my_access h = elim (Bool-cases (s.write_union.size == 0)) [
    | inl p ↦
        let none_covered =
          (empty_iff s.write_union.root max_addr w.ordered).0
            (sym w.counted ∙ (==_iff s.write_union.size 0).0 p) in
        (
          0,
          s,
          rw p,
          record { valid = w; covering = λ a. refl; none_received = empty },
          inl (refl, λ a. ground (arith, none_covered a)),
        )
    | inr p ↦
        let (ret, s', e, same, ans) = check_ranges-answered (to_list my_access.root) h in
        (ret, s', rw p e, same, ans)
  ]

-- The shared map after a task's writes.
pub record Joined (rs : List MemRange) (s s' : CheckState) : Type 0 where
  pub valid : IsWellFormed s'.write_union
  pub covering : (a : ℕ) → covered s'.write_union a ≡ (covers_list rs a || covered s.write_union a)
  pub none_received : s'.received.root ≡ leaf

union_add_ranges-Joined :
    (ppr_index : ℕ) (rs : List MemRange) (s : CheckState) (lo : ℕ)
    → IsWellFormed s.write_union
    → s.received.root ≡ leaf
    → Ranges rs
    → Chain lo rs max_addr
    → ((a : ℕ) → (covers_list rs a && covered s.write_union a) ≡ false)
    → (s' : CheckState) × (union_add_ranges ppr_index rs s ≡ answered s') × Joined rs s s'
unfolding union_add_ranges task_added
union_add_ranges-Joined ppr_index [] s lo w empty g h free =
    (s, refl, record { valid = w; covering = λ a. refl; none_received = empty })
union_add_ranges-Joined ppr_index (r ∷ rs) s lo w empty g h free =
    let (m', e, out) =
      map_add_range_from_task-Added s.write_union r.base r.size 0 ppr_index w g.1.nonempty g.1.fits
        (λ a. ground (arith, free a)) in
    let (s', e', later) =
      union_add_ranges-Joined ppr_index rs (record s { write_union = m' }) (r.base + r.size)
        out.valid empty g.2 h.2
        (λ a.
          ground
            (arith, out.exact a, free a, covers_list-below rs (r.base + r.size) max_addr a h.2)) in
    (
      s',
      rw e e',
      record {
        valid = later.valid;
        covering = λ a. ground (arith, later.covering a, out.exact a);
        none_received = later.none_received;
      },
    )

GapChain-Ranges : (rs : List MemRange) (lo : ℕ) → GapChain lo rs (max_addr + 1) → Ranges rs
GapChain-Ranges [] lo h = tt
GapChain-Ranges (r ∷ rs) lo h = (
  omega arith,
  record {
    nonempty = h.1;
    fits = omega (arith, GapChain-lt rs (r.base + r.size) (max_addr + 1) h.2);
  },
  GapChain-Ranges rs (r.base + r.size) h.2,
)

pub HasGaps-Ranges : (m : RangeMap) → HasGaps m → Ranges (to_list m.root)
HasGaps-Ranges m g =
    GapChain-Ranges (to_list m.root) 0 ((Gapped-iff m.root 0 (max_addr + 1)).0 g.gapped)

-- What the check of a task promises: it passes where the task read nothing that an earlier one wrote,
-- and then the shared map has the task's writes too; or it fails, and an address shows why.
pub record Passed (reads writes : RangeMap) (s s' : CheckState) : Type 0 where
  pub free : (a : ℕ) → (covered reads a && covered s.write_union a) ≡ false
  pub joined : Joined (to_list writes.root) s s'

abbrev pub Verdict : RangeMap → RangeMap → CheckState → Bool × CheckState → Type 0
Verdict reads writes s (true, s') = Passed reads writes s s'
Verdict reads writes s (false, s') =
    (a : ℕ) × (covered reads a ≡ true) × (covered s.write_union a ≡ true)

-- A task of a group that has received no data, and that writes nothing that an earlier one wrote, has
-- its check answered: it passes where the task read no address that an earlier task wrote, and then
-- the shared map stays well formed and has its writes too; else it fails, and there is such an address.
pub ppr_is_correct-Verdict :
    (status : TaskStatus) (ppr_index clone : ℕ) (reads writes : RangeMap) (s : CheckState)
    → is_outside_group status ≡ false
    → IsWellFormed s.write_union
    → s.received.root ≡ leaf
    → HasGaps reads
    → HasGaps writes
    → ((a : ℕ) → (covered writes a && covered s.write_union a) ≡ false)
    → (out : Bool × CheckState) × (ppr_is_correct status ppr_index clone reads writes s
        ≡ answered out)
      × Verdict reads writes s out
unfolding ppr_is_correct after_overlap
ppr_is_correct-Verdict status ppr_index clone reads writes s inside w empty gr gw apart =
    let (ret, s1, e, same, ans) =
      check_for_overlap-answered clone s w empty reads (HasGaps-Ranges reads gr) in
    elim ans [
      | inl clear ↦
          let (s2, e2, joined) =
            union_add_ranges-Joined ppr_index (to_list writes.root) s1 0 same.valid
              same.none_received (HasGaps-Ranges writes gw)
              ((Between-iff writes.root 0 max_addr).0 gw.valid.ordered)
              (λ a. ground (arith, sym (covers-to_list writes.root a), same.covering a, apart a)) in
          (
            (true, s2),
            rw inside (rw e (rw ((==_iff ret 0).1 clear.0) (rw e2))),
            record {
              free = λ a. ground (arith, covers-to_list reads.root a, clear.1 a);
              joined = record {
                valid = joined.valid;
                covering = λ a. ground (arith, joined.covering a, same.covering a);
                none_received = joined.none_received;
              };
            },
          )
      | inr met ↦ (
        (false, s1),
        rw inside (rw e (ground (arith, met.0))),
        (ret, covers-to_list reads.root ret ∙ met.1, met.2),
      )
    ]
