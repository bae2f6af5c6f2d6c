-- ===== src/Postwait/Board/Post.antt =====
-- `channel_post` of postwait.c on a free channel: what the channel holds after it.
use cbop.Prelude.{
  ℕ, ◌+◌, ◌%◌, ◌<◌, ◌≡◌, ◌∙◌, refl, sym, ap, Bool, true, false, ◌&&◌, not, List, [], ◌∷◌, Option,
  none, some, arith, inl, inr, ◌⊎◌, ◌==◌,
}
use cbop.Task.{TaskStatus}
use cbop.RangeTree.Range.{MemRange, holds}
use cbop.RangeTree.Tree.{to_list}
use cbop.RangeTree.Map.{covered}
use cbop.RangeTree.SetOps.{map_intersect, map_subtract}
use cbop.RangeTree.SetOps.Intersect.{map_intersect-Covers}
use cbop.RangeTree.SetOps.Subtract.{map_subtract-Covers}
use cbop.RangeTree.Gaps.Add.{HasGaps}
use cbop.RangeTree.Gaps.SetOps.{map_intersect-HasGaps}
use cbop.RangeTree.Add.{new_node}
use mathlib.Core.Path.{subst}
use cbop.Merge.{Memory, create_patch, is_outside_group}
use cbop.Merge.Commit.{create_patch-own, create_patch-HasGaps}
use cbop.Merge.Patch.{copied}
use cbop.Postwait.Board.{
  Channel, Board, Poster, channel_post, post_local, post_channel, post_chain, put,
}
use cbop.Postwait.{has_local_channel, channel_local_reset}
use cbop.Postwait.Board.Receive.{Recorded, Posted}

Recorded-copied :
    (calloc : ℕ → ℕ) (fresh : (i j : ℕ) → calloc i ≡ calloc j → i ≡ j) (n : ℕ) (rs : List MemRange)
    → ((i : ℕ) → 0 < calloc i)
    → Recorded (copied calloc fresh n rs)
unfolding new_node
Recorded-copied calloc fresh n [] positive = tt
Recorded-copied calloc fresh n (r ∷ rs) positive =
    (positive n, Recorded-copied calloc fresh (n + 1) rs positive)

put-twice :
    (channels : ℕ → Channel) (index : ℕ) (ch : Channel)
    → put
        (put channels index ch)
        index
        (record (put channels index ch index) { is_posted = true })
        index
      ≡ record ch { is_posted = true }
unfolding put
put-twice channels index ch = ground arith

-- A channel that a post may take.
pub record IsFree (b : Board) (id : ℕ) : Type 0 where
  pub taken : ((b.channels (id % b.size)).id ≡ 0) ⊎ ((b.channels (id % b.size)).id ≡ id)
  pub unposted : (b.channels (id % b.size)).is_posted ≡ false
  pub unchained : (b.channels (id % b.size)).cc_first ≡ none

abbrev pub shared : Poster → ℕ → Bool
shared p a = covered p.local.local_ch_data a && covered p.write_map a

module _ (calloc : ℕ → ℕ) (fresh : (i j : ℕ) → calloc i ≡ calloc j → i ≡ j)
    (positive : (i : ℕ) → 0 < calloc i) (steps pw_space ppr_index : ℕ) (memory : Memory) where
  -- What the post of a poster's data leaves.
  pub record Posts (id : ℕ) (p p' : Poster) : Type 0 where
    pub channel :
        Posted p'.space.blocks memory (shared p) id (p'.board.channels (id % p'.board.size))
    pub kept :
        (a : ℕ)
        → covered p'.write_map a ≡ (covered p.write_map a && not (covered p.local.local_ch_data a))
    pub reset : p'.local.local_ch_id ≡ 0

  abbrev pub after_post : ℕ → ℕ → Poster → Poster
  after_post id index p =
      let made = create_patch calloc memory p.local.local_ch_data pw_space p.space in
      let ch : Channel = record (p.board.channels index) {
        id = id;
        sender = ppr_index;
        patch = made.patch;
      } in
      let before = put p.board.channels index ch in
      record {
        local = channel_local_reset p.local;
        write_map = map_subtract p.write_map p.local.local_ch_data;
        board = record p.board {
          channels = put before index (record (before index) { is_posted = true });
        };
        space = made.space;
      }

  post_channel-unchained :
      (id index : ℕ) (p : Poster)
      → (p.board.channels index).cc_first ≡ none
      → post_channel calloc steps pw_space ppr_index memory id index p
        ≡ some (after_post id index p)
  unfolding post_channel post_chain
  post_channel-unchained id index p e =
      let made = create_patch calloc memory p.local.local_ch_data pw_space p.space in
      let ch : Channel = record (p.board.channels index) {
        id = id;
        sender = ppr_index;
        patch = made.patch;
      } in
      ap
        (λ first.
          elim (post_chain steps (put p.board.channels index ch) index first)
            as (λ _. Option Poster) [
              | none ↦ none
              | some channels ↦ some (record {
                local = channel_local_reset p.local;
                write_map = map_subtract p.write_map p.local.local_ch_data;
                board = record p.board { channels = channels };
                space = made.space;
              })
            ])
        e

  post_local-unposted :
      (id : ℕ) (p p' : Poster)
      → (not ((p.board.channels (id % p.board.size)).id == 0)
          && not ((p.board.channels (id % p.board.size)).id == id))
        ≡ false
      → (p.board.channels (id % p.board.size)).is_posted ≡ false
      → post_channel calloc steps pw_space ppr_index memory id (id % p.board.size) p ≡ some p'
      → post_local calloc steps pw_space ppr_index memory id p ≡ some p'
  unfolding post_local
  post_local-unposted id p p' usable unposted e = rw (post_local, usable, unposted) e

  pub channel_post-Posts :
      (status : TaskStatus) (id : ℕ) (p : Poster)
      → is_outside_group status ≡ false
      → has_local_channel id p.local ≡ some true
      → HasGaps p.local.local_ch_data
      → HasGaps p.write_map
      → IsFree p.board id
      → (p' : Poster) × (channel_post calloc steps pw_space ppr_index memory status id p ≡ some p')
        × Posts id p p'
  unfolding channel_post channel_local_reset
  channel_post-Posts status id p inside own gl gw free =
      let meet = map_intersect p.local.local_ch_data p.write_map in
      let gaps = map_intersect-HasGaps p.local.local_ch_data p.write_map gl gw.valid in
      let met = map_intersect-Covers p.local.local_ch_data p.write_map gl.valid gw.valid in
      let (holds, ranges) = create_patch-own calloc fresh pw_space memory meet p.space gaps in
      let left = map_subtract-Covers p.write_map meet gw.valid gaps.valid in
      let usable : (not ((p.board.channels (id % p.board.size)).id == 0)
            && not ((p.board.channels (id % p.board.size)).id == id))
          ≡ false =
        elim free.taken [ inl z ↦ ground (arith, z) | inr z ↦ ground (arith, z) ] in
      let made = create_patch calloc memory meet pw_space p.space in
      let index = id % p.board.size in
      let written : Channel = record (p.board.channels index) {
        id = id;
        sender = ppr_index;
        patch = made.patch;
      } in
      let meeting : Poster = record p { local = record p.local { local_ch_data = meet } } in
      (
        after_post id index meeting,
        rw (channel_post, inside, own)
            (post_local-unposted id meeting _ usable free.unposted
              (post_channel-unchained id index meeting free.unchained)),
        record {
          channel =
              subst (Posted made.space.blocks memory (shared p) id)
                (sym (put-twice p.board.channels index written))
                (record {
                  own = refl;
                  posted = refl;
                  unchained = free.unchained;
                  valid =
                      (create_patch-HasGaps calloc fresh pw_space memory meet p.space gaps).valid;
                  exact = λ a. holds.same a ∙ met.exact a;
                  stored = holds.stored;
                  recorded =
                      subst Recorded (sym ranges)
                        (Recorded-copied calloc fresh p.space.made (to_list meet.root) positive);
                });
          kept = λ a. ground (arith, left.exact a, met.exact a);
          reset = refl;
        },
      )
