-- ===== src/Postwait/Board.antt =====
-- The switch board of postwait.c: the channels that the tasks share, and their chains. A pointer to a
-- channel is its index. Every operation holds the lock of the board throughout.
pub mod Chains
pub mod Wait
pub mod Receive
pub mod Post
pub mod Transfer
use cbop.Prelude.{
  ℕ, zero, suc, ◌+◌, ◌*◌, ◌%◌, ◌-◌, ltb, Bool, true, false, ◌&&◌, ◌||◌, not, List, [], ◌∷◌, Option,
  none, some, ◌==◌, if◌then◌else◌,
}
use cbop.Task.{TaskStatus}
use cbop.RangeTree.Range.{MemRange, within}
use cbop.RangeTree.Tree.{leaf, to_list}
use cbop.RangeTree.Map.{RangeMap, init_empty_map}
use cbop.RangeTree.SetOps.{map_intersect, map_subtract}
use cbop.Merge.{Memory, Space, create_patch, is_outside_group}
use cbop.Postwait.{LocalChannel, has_local_channel, channel_local_reset, assert_no_overlap}
use cbop.Postwait.FromTask.{TaskAdd, added, asserted, aborted, root_range, map_add_range_from_task}

-- `channel_t`; the id of a free channel is 0.
pub record Channel : Type 0 where
  pub id : ℕ
  pub patch : RangeMap
  pub sender : ℕ
  pub is_posted : Bool
  pub cc_first : Option ℕ
  pub cc_next : Option ℕ

-- `switch_board_t`: the channels with an index below the size.
pub record Board : Type 0 where
  pub channels : ℕ → Channel
  pub size : ℕ

-- `memset` to 0.
abbrev pub blank_channel : Channel
blank_channel = record {
  id = 0;
  patch = record { is_hash = false; residence = 0; root = leaf; size = 0 };
  sender = 0;
  is_posted = false;
  cc_first = none;
  cc_next = none;
}

-- The board that `postwait_init` leaves, for the first group and for a later one.
unfoldable pub postwait_init : ℕ → Option Board → Board
postwait_init gs none = record { channels = λ i. blank_channel; size = 10 * gs }
postwait_init gs (some b) = record {
  channels = λ i. blank_channel;
  size = if ltb b.size (10 * gs) then 10 * gs else b.size;
}

unfoldable pub put : (ℕ → Channel) → ℕ → Channel → ℕ → Channel
put channels i ch j = if j == i then ch else channels j

unfoldable pub channel_is_posted : ℕ → Board → Bool
channel_is_posted id b =
    if (b.channels (id % b.size)).id == id then (b.channels (id % b.size)).is_posted else false

-- The index of the channel, which is taken if it was free; `none` is a channel in other use.
unfoldable pub get_channel : ℕ → ℕ → Board → Option (ℕ × Board)
unfolding put
get_channel pw_space id b =
    let index = id % b.size in
    let ch = b.channels index in
    if not (ch.id == 0) && not (ch.id == id)
    then none
    else some (
      index,
      (if ch.id == 0
          then record b {
            channels =
                put b.channels index (record ch { id = id; patch = init_empty_map pw_space });
          }
          else b),
    )

unfoldable pub set_chain : (ℕ → Channel) → ℕ → Option ℕ → Option ℕ → Bool → ℕ → Channel
unfolding put
set_chain channels i first next posted =
    put channels i (record (channels i) { cc_first = first; cc_next = next; is_posted = posted })

-- `while ( p->cc_next != NULL ) p = p->cc_next;`, with the number of steps left; `none` where they
-- are not enough.
unfoldable pub tail_of : ℕ → (ℕ → Channel) → ℕ → Option ℕ → Option ℕ
tail_of steps channels p none = some p
tail_of zero channels p (some next) = none
tail_of (suc steps) channels p (some next) = tail_of steps channels next (channels next).cc_next

-- `while ( new_ch != NULL ) { set_chain( ... ); new_ch = new_ch->cc_next; }`
unfoldable pub rechain : ℕ → (ℕ → Channel) → ℕ → Bool → Option ℕ → Option (ℕ → Channel)
unfolding set_chain
rechain steps channels head posted none = some channels
rechain zero channels head posted (some i) = none
rechain (suc steps) channels head posted (some i) =
    rechain steps (set_chain channels i (some head) (channels i).cc_next posted) head posted
      (channels i).cc_next

unfoldable pub or_first : Option ℕ → ℕ → ℕ
or_first none i = i
or_first (some first) i = first

unfoldable pub connect_chain : ℕ → (ℕ → Channel) → ℕ → ℕ → Bool → Option (ℕ → Channel)
unfolding tail_of rechain set_chain or_first
connect_chain steps channels head new_ch posted =
    let first = or_first (channels new_ch).cc_first new_ch in
    elim (tail_of steps channels head (channels head).cc_next) [
      | none ↦ none
      | some p ↦
          rechain steps (set_chain channels p (some head) (some first) posted) head posted
            (some first)
    ]

-- Two channels that are at hand.
unfoldable pub chain_up :
    ℕ → (ℕ → Channel) → ℕ → ℕ → Bool → Option ℕ → Option ℕ → Option (ℕ → Channel)
unfolding connect_chain set_chain
chain_up steps channels i j posted none none =
    some (set_chain (set_chain channels i (some i) (some j) posted) j (some i) none posted)
chain_up steps channels i j posted (some head) second = connect_chain steps channels head j posted
chain_up steps channels i j posted none (some head) = connect_chain steps channels head i posted

-- `none` where the steps are not enough.
unfoldable pub channel_chain : ℕ → ℕ → TaskStatus → ℕ → ℕ → Board → Option Board
unfolding get_channel chain_up is_outside_group
channel_chain steps pw_space status id1 id2 b =
    if is_outside_group status then some b else elim (get_channel pw_space id1 b) [
      | none ↦ elim (get_channel pw_space id2 b) [ none ↦ some b | some (j, b2) ↦ some b2 ]
      | some (i, b1) ↦ elim (get_channel pw_space id2 b1) [
        | none ↦ some b1
        | some (j, b2) ↦
            elim (chain_up steps b2.channels i j
              ((b2.channels i).is_posted || (b2.channels j).is_posted) (b2.channels i).cc_first
              (b2.channels j).cc_first) [
                | none ↦ none
                | some channels ↦ some (record b2 { channels = channels })
              ]
      ]
    ]

-- The loop of `channel_post` over a chain.
unfoldable pub mark_posted : ℕ → (ℕ → Channel) → Option ℕ → Option (ℕ → Channel)
unfolding put
mark_posted steps channels none = some channels
mark_posted zero channels (some i) = none
mark_posted (suc steps) channels (some i) =
    mark_posted steps (put channels i (record (channels i) { is_posted = true }))
      (channels i).cc_next

unfoldable pub post_chain : ℕ → (ℕ → Channel) → ℕ → Option ℕ → Option (ℕ → Channel)
unfolding mark_posted put
post_chain steps channels index none =
    some (put channels index (record (channels index) { is_posted = true }))
post_chain steps channels index (some first) = mark_posted steps channels (some first)

-- What a task holds when it posts.
pub record Poster : Type 0 where
  pub local : LocalChannel
  pub write_map : RangeMap
  pub board : Board
  pub space : Space

module _ (calloc : ℕ → ℕ) (steps pw_space ppr_index : ℕ) (memory : Memory) where
  -- From `ch->sender = ...` on; `none` where the steps are not enough.
  unfoldable pub post_channel : ℕ → ℕ → Poster → Option Poster
  unfolding post_chain put create_patch map_subtract channel_local_reset
  post_channel id index p =
      let made = create_patch calloc memory p.local.local_ch_data pw_space p.space in
      let ch : Channel = record (p.board.channels index) {
        id = id;
        sender = ppr_index;
        patch = made.patch;
      } in
      elim (post_chain steps (put p.board.channels index ch) index ch.cc_first) [
        | none ↦ none
        | some channels ↦ some (record {
          local = channel_local_reset p.local;
          write_map = map_subtract p.write_map p.local.local_ch_data;
          board = record p.board { channels = channels };
          space = made.space;
        })
      ]

  -- After the intersection.
  unfoldable pub post_local : ℕ → Poster → Option Poster
  unfolding post_channel put
  post_local id p =
      let index = id % p.board.size in
      let ch = p.board.channels index in
      let posted = post_channel id index p in
      if not (ch.id == 0) && not (ch.id == id)
      then some p
      else (if ch.is_posted
          then some (record p {
            board = record p.board {
              channels = put p.board.channels index (record ch { id = id });
            };
          })
          else posted)

  -- The outer `none` of the local channel's test is the failure of an assertion.
  unfoldable pub channel_post : TaskStatus → ℕ → Poster → Option Poster
  unfolding post_local has_local_channel map_intersect is_outside_group
  channel_post status id p =
      if is_outside_group status then some p else elim (has_local_channel id p.local) [
        | none ↦ none
        | some false ↦ some p
        | some true ↦ post_local id (record p {
          local = record p.local {
            local_ch_data = map_intersect p.local.local_ch_data p.write_map;
          };
        })
      ]
