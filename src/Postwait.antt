-- ===== src/Postwait.antt =====
-- postwait.c: the data that a task has ready for a channel, and the check before it takes in the data
-- of one.
pub mod FromTask
pub mod AfterPost
pub mod Board
use cbop.Prelude.{
  ℕ, ◌+◌, ◌≤◌, ◌<◌, ◌≡◌, ◌↔◌, refl, sym, ◌∙◌, Bool, true, false, ◌&&◌, ◌||◌, Option, none, some,
  arith, ==_iff, ◌==◌, if◌then◌else◌,
}
use cbop.Prelude.Word.{max_addr}
use cbop.Task.{TaskStatus}
use cbop.RangeTree.Tree.{empty_iff}
use cbop.RangeTree.Map.{RangeMap, IsWellFormed, covered, map_clear}
use cbop.RangeTree.Add.{add_range, map_add_range}
use cbop.RangeTree.SetOps.{map_intersect, map_clone}
use cbop.RangeTree.SetOps.Union.{map_clone-Covers}
use cbop.RangeTree.SetOps.Intersect.{map_intersect-Covers}
use cbop.RangeTree.Gaps.Add.{HasGaps}
use cbop.Merge.{is_outside_group}
use cbop.Merge.Record.{Includes, add_range-Includes}

-- `local_ch_id`, 0 for none, and `local_ch_data`.
pub record LocalChannel : Type 0 where
  pub local_ch_id : ℕ
  pub local_ch_data : RangeMap

unfoldable pub channel_local_reset : LocalChannel → LocalChannel
channel_local_reset ch = record { local_ch_id = 0; local_ch_data = map_clear ch.local_ch_data }

-- `none` is the failure of the assertion that the channel is not 0.
unfoldable pub has_local_channel : ℕ → LocalChannel → Option Bool
has_local_channel id ch =
    if id == 0 then none else some (ch.local_ch_id == 0 || ch.local_ch_id == id)

-- `none` is the failure of an assertion. The size is a 32-bit word.
unfoldable pub fill_data : ℕ → ℕ → ℕ → LocalChannel → Option LocalChannel
fill_data id base size ch = elim (map_add_range ch.local_ch_data base size 0) [
  | none ↦ none
  | some filled ↦ some (record {
    local_ch_id = if ch.local_ch_id == 0 then id else ch.local_ch_id;
    local_ch_data = filled;
  })
]

unfoldable pub channel_fill : TaskStatus → ℕ → ℕ → ℕ → LocalChannel → Option LocalChannel
unfolding has_local_channel fill_data is_outside_group
channel_fill status id base size ch =
    if is_outside_group status then some ch else elim (has_local_channel id ch) [
      | none ↦ none
      | some false ↦ some ch
      | some true ↦ fill_data id base size ch
    ]

-- A task of a group that fills a channel, the only one since the last reset, has the range in that
-- channel's data.
pub channel_fill-Includes :
    (status : TaskStatus) (id base size : ℕ) (ch : LocalChannel)
    → is_outside_group status ≡ false
    → 0 < id
    → (ch.local_ch_id == 0 || ch.local_ch_id == id) ≡ true
    → HasGaps ch.local_ch_data
    → 0 < base
    → 0 < size
    → base + size ≤ max_addr
    → (ch' : LocalChannel) × (channel_fill status id base size ch ≡ some ch')
      × (ch'.local_ch_id ≡ id)
      × Includes ch'.local_ch_data base size
unfolding channel_fill map_add_range
channel_fill-Includes status id base size ch inside positive free w p n fits = (
  record {
    local_ch_id = if ch.local_ch_id == 0 then id else ch.local_ch_id;
    local_ch_data = add_range ch.local_ch_data base size 0;
  },
  ground (arith, inside, free),
  ground (arith, free),
  add_range-Includes ch.local_ch_data base size w p n fits,
)

-- `assert_no_overlap`, with the memory space that the copy is made in.
unfoldable pub assert_no_overlap : ℕ → RangeMap → RangeMap → Bool
assert_no_overlap metacow_space map1 map2 =
    (map_intersect (map_clone map1 metacow_space) map2).size == 0

-- The assertion passes exactly when no address is covered by both maps.
pub assert_no_overlap_iff :
    (metacow_space : ℕ) (map1 map2 : RangeMap)
    → IsWellFormed map1
    → IsWellFormed map2
    → (assert_no_overlap metacow_space map1 map2 ≡ true)
      ↔ ((a : ℕ) → (covered map1 a && covered map2 a) ≡ false)
unfolding assert_no_overlap
assert_no_overlap_iff metacow_space map1 map2 w v =
    let copy = map_clone-Covers map1 metacow_space w in
    let met = map_intersect-Covers (map_clone map1 metacow_space) map2 copy.valid v in
    let empty = empty_iff _ max_addr met.valid.ordered in
    (
      (λ e a.
          ground (
            arith,
            met.exact a,
            copy.exact a,
            empty.0 (sym met.valid.counted ∙ (==_iff _ 0).0 e) a,
          )),
      (λ free.
          (==_iff _ 0).1 (
            met.valid.counted ∙ empty.1 (λ a. met.exact a ∙ ground (arith, copy.exact a, free a)))),
    )
