-- ===== src/Tests/Channels.antt =====
-- Runs and instances for postwait.c.
use cbop.Prelude.{
  inl, ℕ, ◌+◌, ◌*◌, ◌≡◌, refl, true, false, ◌&&◌, ◌||◌, not, ◌==◌, [], ◌∷◌, none, some, arith, inl,
  if◌then◌else◌,
}
use cbop.Task.{TaskStatus}
use cbop.RangeTree.Tree.{leaf, node}
use cbop.RangeTree.Map.{RangeMap, covered}
use cbop.Merge.{Space, is_outside_group}
use cbop.Postwait.{LocalChannel, has_local_channel}
use cbop.Postwait.FromTask.{added, map_add_range_from_task}
use cbop.Postwait.FromTask.Disjoint.{Added, map_add_range_from_task-Added}
use cbop.Postwait.Board.{
  Channel, Board, blank_channel, channel_chain, mark_posted, Poster, channel_post,
}
use cbop.Postwait.Board.Wait.{Receiver, channel_wait, done, never_waits}
use cbop.RangeTree.Range.{MemRange}
use cbop.Postwait.AfterPost.Laws.{same_data}
use cbop.Postwait.Board.Chains.{Linked, member, mark_posted-posted}
use cbop.Postwait.Board.Chains.Again.{channel_chain-again}
use cbop.Postwait.Board.Post.{shared}
use cbop.Postwait.Board.Transfer.{channel_wait-post}

abbrev no_ranges : RangeMap
no_ranges = record { is_hash = false; residence = 1; root = leaf; size = 0 }

abbrev one_range : ℕ → ℕ → RangeMap
one_range b s = record {
  is_hash = false;
  residence = 1;
  root = node leaf (record { base = b; size = s; rec = 0; task = 0 }) leaf;
  size = 1;
}

abbrev empty_space : Space
empty_space = record { blocks = λ a i. 0; made = 0; freed = [] }

abbrev unused : LocalChannel
unused = record { local_ch_id = 0; local_ch_data = no_ranges }

inside : is_outside_group TaskStatus.spec ≡ false
unfolding is_outside_group
inside = refl

map_add_range_from_task-Added_example :
    (m' : RangeMap) × (map_add_range_from_task (one_range 100 10) 50 20 0 3 ≡ added m')
    × Added (one_range 100 10) (record { base = 50; size = 20; rec = 0; task = 3 }) m'
map_add_range_from_task-Added_example =
    map_add_range_from_task-Added (one_range 100 10) 50 20 0 3 (omega arith) (omega arith)
      (omega arith) (λ a. ground arith)

abbrev poster : Poster
poster = record {
  local = record { local_ch_id = 5; local_ch_data = one_range 100 10 };
  write_map = one_range 104 20;
  board = record { channels = λ i. blank_channel; size = 20 };
  space = empty_space;
}

abbrev receiver : Receiver
receiver = record { received = no_ranges; memory = λ a. 3; space = empty_space }

holds_channel : has_local_channel 5 poster.local ≡ some true
unfolding has_local_channel
holds_channel = refl

does_wait : never_waits TaskStatus.spec ≡ false
unfolding never_waits
does_wait = refl

channel_wait-post_example :
    (p' : Poster) × (r' : Receiver) × (channel_post
        (λ n. n + 1)
        9
        2
        4
        (λ a. a * 2)
        TaskStatus.spec
        5
        poster
      ≡ some p')
    × (channel_wait
          (λ n. n + 50)
          p'.space.blocks
          1
          no_ranges
          (one_range 300 8)
          9
          TaskStatus.spec
          5
          p'.board
          receiver
        ≡ some (done r'))
    × ((a : ℕ) → r'.memory a ≡ (if shared poster a then a * 2 else 3))
    × ((a : ℕ)
        → covered p'.write_map a
          ≡ (covered (one_range 104 20) a && not (covered (one_range 100 10) a)))
channel_wait-post_example =
    channel_wait-post (λ n. n + 1) (λ i j e. omega arith) (λ i. omega arith) 9 2 4 (λ a. a * 2)
      (λ n. n + 50) 1 no_ranges (one_range 300 8) TaskStatus.spec TaskStatus.spec 5 poster receiver
      inside holds_channel (omega arith) (omega arith)
      (record { taken = inl refl; unposted = refl; unchained = refl }) does_wait (omega arith)
      (omega arith) (omega arith) (λ a. ground arith)

abbrev blank_board : Board
blank_board = record { channels = λ i. blank_channel; size = 20 }

channel_chain-again_example :
    (b' : Board) × (channel_chain 9 2 TaskStatus.spec 5 26 blank_board ≡ some b')
    × Linked b'.channels (5 ∷ 6 ∷ [])
    × (channel_chain 1000 2 TaskStatus.spec 5 26 b' ≡ none)
channel_chain-again_example =
    channel_chain-again 9 1000 2 5 26 TaskStatus.spec blank_board inside (omega arith) (omega arith)
      (omega arith) (record { taken = inl refl; unchained = refl })
      (record { taken = inl refl; unchained = refl })

-- Channel 3 is the head of a chain, and channel 8 follows.
abbrev linked : ℕ → Channel
linked i = if i == 3 then record blank_channel { cc_next = some 8 } else blank_channel

mark_posted-posted_example :
    (channels' : ℕ → Channel) × (mark_posted 2 linked (some 3) ≡ some channels')
    × ((j : ℕ) → (channels' j).is_posted ≡ (member j (3 ∷ 8 ∷ []) || (linked j).is_posted))
mark_posted-posted_example = mark_posted-posted linked 3 2 (8 ∷ []) (refl, refl) (omega arith)

-- Task 4 sent 10 bytes from 100 on, of which task 5, of the order 1, used two.
abbrev used_range : MemRange
used_range = record { base = 104; size = 2; rec = 60; task = 4 }

abbrev sent : RangeMap
sent = record {
  is_hash = false;
  residence = 1;
  root = node leaf (record { base = 100; size = 10; rec = 7; task = 0 }) leaf;
  size = 1;
}

abbrev sender_blocks : ℕ → ℕ → ℕ
sender_blocks a i = 100 + i

-- A `memcmp` that answers 1 for bytes that differ.
abbrev first_difference : (ℕ → ℕ) → (ℕ → ℕ) → ℕ → ℕ
first_difference f g n = if same_data n f g then 0 else 1
