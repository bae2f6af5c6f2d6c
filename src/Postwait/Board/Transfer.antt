-- ===== src/Postwait/Board/Transfer.antt =====
-- The way of a task's data through a channel of postwait.c.
use cbop.Prelude.{ℕ, ◌<◌, ◌≡◌, true, false, ◌&&◌, ◌||◌, not, some, if◌then◌else◌}
use cbop.Task.{TaskStatus}
use cbop.RangeTree.Map.{RangeMap, IsWellFormed, covered}
use cbop.RangeTree.Gaps.Add.{HasGaps}
use cbop.Merge.{Memory, is_outside_group}
use cbop.Postwait.Board.{Poster, channel_post}
use cbop.Postwait.Board.Wait.{done, Receiver, never_waits, channel_wait}
use cbop.Postwait.{has_local_channel}
use cbop.Postwait.Board.Receive.{channel_wait-Posted}
use cbop.Postwait.Board.Post.{IsFree, shared, channel_post-Posts}

module _ (calloc : ℕ → ℕ) (fresh : (i j : ℕ) → calloc i ≡ calloc j → i ≡ j)
    (positive : (i : ℕ) → 0 < calloc i) (steps pw_space ppr_index : ℕ) (memory : Memory)
    (malloc : ℕ → ℕ) (metacow_space : ℕ) (read_map write_map : RangeMap) where
  -- What a task posts to a free channel that is in no chain is what a task that waits for the channel
  -- gets: the post succeeds; the wait after it succeeds too and gives the receiver, at the addresses of
  -- the channel's data that the poster has written, the poster's bytes, and leaves its other bytes. The
  -- poster's write map loses those addresses. The poster is in a group, fills this channel only, and
  -- its maps are as recording leaves them; the receiver does not run as the main task or outside a group,
  -- and has not accessed or received any of the addresses; the allocator of the shared space gives
  -- different blocks and no null pointer.
  pub channel_wait-post :
      (status status' : TaskStatus) (id : ℕ) (p : Poster) (r : Receiver)
      → is_outside_group status ≡ false
      → has_local_channel id p.local ≡ some true
      → HasGaps p.local.local_ch_data
      → HasGaps p.write_map
      → IsFree p.board id
      → never_waits status' ≡ false
      → IsWellFormed read_map
      → IsWellFormed write_map
      → IsWellFormed r.received
      → ((a : ℕ)
          → (shared p a && (covered read_map a || (covered write_map a || covered r.received a)))
            ≡ false)
      → (p' : Poster) × (r' : Receiver) × (channel_post calloc steps pw_space ppr_index memory
            status id p
          ≡ some p')
        × (channel_wait malloc p'.space.blocks metacow_space read_map write_map steps status' id
              p'.board r
            ≡ some (done r'))
        × ((a : ℕ) → r'.memory a ≡ (if shared p a then memory a else r.memory a))
        × ((a : ℕ)
            → covered p'.write_map a
              ≡ (covered p.write_map a && not (covered p.local.local_ch_data a)))
  channel_wait-post status status' id p r inside own gl gw free waits wr ww wg apart =
      let (p', posted, out) =
        channel_post-Posts calloc fresh positive steps pw_space ppr_index memory status id p inside
          own gl gw free in
      let (r', received, bytes) =
        channel_wait-Posted malloc p'.space.blocks metacow_space read_map write_map memory
          (shared p) steps status' id p'.board r waits out.channel wr ww wg apart in
      (p', r', posted, received, bytes, out.kept)
