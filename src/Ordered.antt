-- ===== src/Ordered.antt =====
-- bop_ordered.c: regions that the tasks of a group enter one after the other. A call returns the new
-- state and the calls of other parts that it made, in their order.
use cbop.Prelude.{
  ℕ, ◌+◌, ◌*◌, ◌%◌, ◌^◌, ◌-◌, ◌<◌, ◌≡◌, refl, sym, ◌∙◌, Bool, true, false, ◌&&◌, ◌||◌, List, [],
  ◌∷◌, ◌++◌, arith, map, ◌==◌, if◌then◌else◌,
}
use cbop.Prelude.Word.{word, sub64}
use cbop.RangeTree.Range.{MemRange, within}
use cbop.RangeTree.Tree.{to_list, covers_list, covers-to_list}
use cbop.RangeTree.Map.{RangeMap, covered, init_empty_map, map_clear}

-- The calls of postwait.c and of the ports.
pub data OrderedCall : Type 0 where
  channel_wait channel_post : ℕ → OrderedCall
  channel_chain : ℕ → ℕ → OrderedCall
  channel_fill : ℕ → ℕ → ℕ → OrderedCall
  on_enter_ordered on_exit_ordered : OrderedCall

pub record Region : Type 0 where
  pub ordered_writes : RangeMap
  pub in_ordered_region : Bool
  pub ordered_region_id : ℕ

-- A 64-bit word; `gs` is the size of the group and `index` the result of `BOP_ppr_index`.
unfoldable pub channel_for_region : ℕ → ℕ → ℕ → ℕ
channel_for_region gs index region_id = (region_id * gs + index) % word

unfoldable pub ordered_begin : ℕ → ℕ → ℕ → Region → Region × List OrderedCall
ordered_begin gs index id s =
    if s.ordered_writes.residence == 0
    then (s, [])
    else (if s.in_ordered_region then (s, []) else (
      record s { in_ordered_region = true; ordered_region_id = id },
      channel_wait (sub64 (channel_for_region gs index id) 1) ∷ on_enter_ordered ∷ [],
    ))

unfoldable pub ordered_skip : ℕ → ℕ → ℕ → List OrderedCall
ordered_skip gs index id =
    channel_chain (sub64 (channel_for_region gs index id) 1) (channel_for_region gs index id) ∷ []

unfoldable pub fill_range : ℕ → MemRange → OrderedCall
fill_range ch range = channel_fill ch range.base (range.size % 2 ^ 32)

unfoldable pub ordered_end : ℕ → ℕ → ℕ → Region → Region × List OrderedCall
unfolding fill_range
ordered_end gs index id s =
    if s.in_ordered_region && s.ordered_region_id == id
    then (
      record s { ordered_writes = map_clear s.ordered_writes; in_ordered_region = false },
      map (fill_range (channel_for_region gs index id)) (to_list s.ordered_writes.root)
          ++ (channel_post (channel_for_region gs index id) ∷ on_exit_ordered ∷ []),
    )
    else (s, [])

-- At the start of a task.
unfoldable pub reset_region : ℕ → Region → Region
reset_region metacow_space s = record s {
  ordered_writes =
      if s.ordered_writes.residence == 0
      then init_empty_map metacow_space
      else map_clear s.ordered_writes;
}

channel_for_region_suc :
    (gs index id : ℕ)
    → sub64 (channel_for_region gs (index + 1) id) 1 ≡ channel_for_region gs index id
unfolding channel_for_region sub64
channel_for_region_suc gs index id = word_suc (id * gs) index
  where
    word_suc : (x y : ℕ) → ((x + (y + 1)) % word + word - 1) % word ≡ (x + y) % word
    word_suc x y = omega arith

-- A call that sends the byte of an address through a channel.
abbrev sends : ℕ → ℕ → OrderedCall → Bool
sends ch a (channel_fill c base size) = c == ch && within base size a
sends ch a _ = false

abbrev pub is_sent : ℕ → ℕ → List OrderedCall → Bool
is_sent ch a [] = false
is_sent ch a (call ∷ calls) = sends ch a call || is_sent ch a calls

-- The size of a range goes to the channel as a 32-bit word.
abbrev pub AllSmall : List MemRange → Type 0
AllSmall [] = Unit
AllSmall (r ∷ rs) = (r.size < 2 ^ 32) × AllSmall rs

fill_range-is_sent :
    (ch a : ℕ) (rs : List MemRange)
    → AllSmall rs
    → is_sent ch a (map (fill_range ch) rs) ≡ covers_list rs a
unfolding fill_range
fill_range-is_sent ch a [] small = refl
fill_range-is_sent ch a (r ∷ rs) small =
    let whole : r.size % 2 ^ 32 ≡ r.size = omega (arith, small.0) in
    rw whole (ground (arith, fill_range-is_sent ch a rs small.1))

-- At the end of its region a task whose writes there are ranges below 4 GB sends exactly the addresses of
-- those writes through one channel, and then posts it. That is the channel that the task of the next
-- index waits for when it enters the region. The first task has then left the region, with its writes
-- cleared.
pub ordered_end-begin :
    (gs index id : ℕ) (s next : Region)
    → s.in_ordered_region ≡ true
    → s.ordered_region_id ≡ id
    → next.in_ordered_region ≡ false
    → (next.ordered_writes.residence == 0) ≡ false
    → AllSmall (to_list s.ordered_writes.root)
    → (ch : ℕ) × (fills : List OrderedCall) × ((ordered_end gs index id s).1
        ≡ fills ++ (channel_post ch ∷ on_exit_ordered ∷ []))
      × ((a : ℕ) → is_sent ch a fills ≡ covered s.ordered_writes a)
      × ((ordered_begin gs (index + 1) id next).1 ≡ channel_wait ch ∷ on_enter_ordered ∷ [])
      × ((ordered_end gs index id s).0.in_ordered_region ≡ false)
      × ((a : ℕ) → covered (ordered_end gs index id s).0.ordered_writes a ≡ false)
unfolding ordered_end ordered_begin map_clear
ordered_end-begin gs index id s next i e o w small = (
  channel_for_region gs index id,
  map (fill_range (channel_for_region gs index id)) (to_list s.ordered_writes.root),
  ground (arith, i, e),
  λ a.
      fill_range-is_sent (channel_for_region gs index id) a (to_list s.ordered_writes.root) small
      ∙ sym (covers-to_list s.ordered_writes.root a),
  ground (arith, o, w, channel_for_region_suc gs index id),
  ground (arith, i, e),
  λ a. ground (arith, i, e),
)
