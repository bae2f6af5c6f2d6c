-- ===== src/Postwait/Board/Receive.antt =====
-- `channel_wait` of postwait.c on a channel that is posted: the data that it takes in.
use cbop.Prelude.{
  ℕ, ◌+◌, ◌-◌, ◌%◌, ◌≤◌, ◌<◌, ◌≡◌, ◌∙◌, refl, sym, ap, Bool, true, false, ◌&&◌, ◌||◌, List, [], ◌∷◌,
  none, some, arith, inl, inr, ◌==◌, Bool-cases, if◌then◌else◌,
}
use cbop.Prelude.Word.{max_addr}
use cbop.Task.{TaskStatus}
use cbop.RangeTree.Range.{MemRange, holds, within}
use cbop.RangeTree.Tree.{to_list, covers_list, Chain, Between-iff, covers-to_list}
use cbop.RangeTree.Map.{RangeMap, IsWellFormed, covered}
use cbop.RangeTree.SetOps.Union.{Covers, Chain-le, covers_list-below}
use cbop.Merge.{Memory}
use cbop.Merge.Patch.{Stores, overwrite}
use cbop.Postwait.FromTask.Disjoint.{map_add_range_from_task-Added}
use cbop.Postwait.Board.{Channel, Board}
use cbop.Postwait.Board.Wait.{
  done, Receiver, data_clone, copy_approved, receive_range, receive_ranges, receive_channel,
  receive_posted, never_waits, channel_wait,
}
use cbop.Postwait.{assert_no_overlap_iff}

-- Every range has a record.
abbrev pub Recorded : List MemRange → Type 0
Recorded [] = Unit
Recorded (r ∷ rs) = (0 < r.rec) × Recorded rs

-- What taking in the ranges of a list leaves.
pub record Received (rs : List MemRange) (source : Memory) (r r' : Receiver) : Type 0 where
  pub bytes : (a : ℕ) → r'.memory a ≡ overwrite rs source r.memory a
  pub taken : Covers r'.received (λ a. covers_list rs a || covered r.received a)

module _ (malloc : ℕ → ℕ) (blocks : ℕ → ℕ → ℕ) (sender : ℕ) (source : Memory) where
  receive_range-Received :
      (range : MemRange) (r : Receiver)
      → 0 < range.rec
      → 0 < range.size
      → range.base + range.size ≤ max_addr
      → ((i : ℕ) → i < range.size → blocks range.rec i ≡ source (range.base + i))
      → IsWellFormed r.received
      → ((a : ℕ) → (holds range a && covered r.received a) ≡ false)
      → (r' : Receiver) × (receive_range malloc blocks sender range r ≡ done r')
        × Received (range ∷ []) source r r'
  unfolding receive_range copy_approved data_clone
  receive_range-Received range r rec n fits stored w free =
      let clone = malloc r.space.made in
      let (m', e, out) =
        map_add_range_from_task-Added r.received range.base range.size clone sender w n fits free in
      let some_rec : (range.rec == 0) ≡ false = ground arith in
      let space = data_clone blocks clone range.rec range.size r.space in
      (
        record {
          received = m';
          memory = λ a.
              if within range.base range.size a
              then space.blocks clone (a - range.base)
              else r.memory a;
          space = space;
        },
        rw (receive_range, some_rec, e) (rw (some_rec, out.returned) refl),
        record {
          bytes = λ a. elim (Bool-cases (holds range a)) [
            | inl inside ↦
                let offset : range.base + (a - range.base) ≡ a = ground arith in
                ground (arith, inside, stored (a - range.base), ap source offset)
            | inr outside ↦ ground (arith, outside)
          ];
          taken = record { valid = out.valid; exact = λ a. ground (arith, out.exact a) };
        },
      )

  receive_ranges-Received :
      (rs : List MemRange) (lo : ℕ) (r : Receiver)
      → Chain lo rs max_addr
      → Recorded rs
      → Stores blocks source rs
      → IsWellFormed r.received
      → ((a : ℕ) → (covers_list rs a && covered r.received a) ≡ false)
      → (r' : Receiver) × (receive_ranges malloc blocks sender rs r ≡ done r')
        × Received rs source r r'
  unfolding receive_ranges
  receive_ranges-Received [] lo r chain rec stored w free =
      (r, refl, record { bytes = λ a. refl; taken = record { valid = w; exact = λ a. refl } })
  receive_ranges-Received (range ∷ rs) lo r chain rec stored w free =
      let le = Chain-le rs (range.base + range.size) max_addr chain.2 in
      let (r1, e1, out1) =
        receive_range-Received range r rec.0 chain.1 le stored.0 w (λ a. ground (arith, free a)) in
      let (r2, e2, out2) =
        receive_ranges-Received rs (range.base + range.size) r1 chain.2 rec.1 stored.1
          out1.taken.valid
          (λ a. ground (
            arith,
            out1.taken.exact a,
            free a,
            covers_list-below rs (range.base + range.size) max_addr a chain.2,
          )) in
      (
        r2,
        rw (receive_ranges, e1) e2,
        record {
          bytes = λ a. ground (arith, out2.bytes a, out1.bytes a);
          taken = record {
            valid = out2.taken.valid;
            exact = λ a. ground (arith, out2.taken.exact a, out1.taken.exact a);
          };
        },
      )

-- A channel that is posted, in no chain, with the bytes of a source for some addresses.
pub record Posted (blocks : ℕ → ℕ → ℕ) (source : Memory) (content : ℕ → Bool) (id : ℕ)
    (ch : Channel) : Type 0 where
  pub own : ch.id ≡ id
  pub posted : ch.is_posted ≡ true
  pub unchained : ch.cc_first ≡ none
  pub valid : IsWellFormed ch.patch
  pub exact : (a : ℕ) → covered ch.patch a ≡ content a
  pub stored : Stores blocks source (to_list ch.patch.root)
  pub recorded : Recorded (to_list ch.patch.root)

module _ (malloc : ℕ → ℕ) (blocks : ℕ → ℕ → ℕ) (metacow_space : ℕ) (read_map write_map : RangeMap)
    (source : Memory) (content : ℕ → Bool) where
  pub channel_wait-Posted :
      (steps : ℕ) (status : TaskStatus) (id : ℕ) (b : Board) (r : Receiver)
      → never_waits status ≡ false
      → Posted blocks source content id (b.channels (id % b.size))
      → IsWellFormed read_map
      → IsWellFormed write_map
      → IsWellFormed r.received
      → ((a : ℕ)
          → (content a && (covered read_map a || (covered write_map a || covered r.received a)))
            ≡ false)
      → (r' : Receiver) × (channel_wait malloc blocks metacow_space read_map write_map steps status
            id b r
          ≡ some (done r'))
        × ((a : ℕ) → r'.memory a ≡ (if content a then source a else r.memory a))
  unfolding channel_wait receive_posted receive_channel
  channel_wait-Posted steps status id b r waits h wr ww wg free =
      let ch = b.channels (id % b.size) in
      let listed : (a : ℕ) → covers_list (to_list ch.patch.root) a ≡ content a =
        λ a. sym (covers-to_list ch.patch.root a) ∙ h.exact a in
      let (r', e, out) =
        receive_ranges-Received malloc blocks ch.sender source (to_list ch.patch.root) 0 r
          ((Between-iff ch.patch.root 0 max_addr).0 h.valid.ordered) h.recorded h.stored wg
          (λ a. ground (arith, listed a, free a)) in
      let read_apart =
        (assert_no_overlap_iff metacow_space ch.patch read_map h.valid wr).1
          (λ a. ground (arith, h.exact a, free a)) in
      let write_apart =
        (assert_no_overlap_iff metacow_space ch.patch write_map h.valid ww).1
          (λ a. ground (arith, h.exact a, free a)) in
      let own : (ch.id == id) ≡ true = ground (arith, h.own) in
      (
        r',
        rw (channel_wait, waits, h.posted, own, h.unchained)
            (rw (receive_channel, read_apart, write_apart) (ap some e)),
        λ a. out.bytes a ∙ ap (λ c. if c then source a else r.memory a) (listed a),
      )
