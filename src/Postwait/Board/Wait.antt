-- ===== src/Postwait/Board/Wait.antt =====
-- `channel_wait` of postwait.c, and the data that it takes in.
use cbop.Prelude.{
  ℕ, zero, suc, ◌+◌, ◌%◌, ◌-◌, ltb, Bool, true, false, ◌&&◌, List, [], ◌∷◌, Option, none, some,
  ◌==◌, if◌then◌else◌,
}
use cbop.Task.{TaskStatus}
use cbop.RangeTree.Range.{MemRange, within}
use cbop.RangeTree.Tree.{to_list}
use cbop.RangeTree.Map.{RangeMap}
use cbop.Merge.{Memory, Space}
use cbop.Postwait.{assert_no_overlap}
use cbop.Postwait.FromTask.{added, asserted, aborted, root_range, map_add_range_from_task}
use cbop.Postwait.Board.{Channel, Board}

-- What a wait comes to: nothing to do, a spin, the end of the process, or data that are given up.
pub data Waited (A : Type 0) : Type 0 where
  done : A → Waited A
  spinning : Waited A
  aborted_spec : Waited A
  failed_assert : Waited A
  abandoned : A → Waited A

-- What a task holds when it receives; `space` has its private copies.
pub record Receiver : Type 0 where
  pub received : RangeMap
  pub memory : Memory
  pub space : Space

-- The channel of a chain whose data count; `none` where the steps are not enough.
unfoldable pub find_data : ℕ → (ℕ → Channel) → ℕ → Option ℕ → Option ℕ
find_data steps channels i none = some i
find_data zero channels i (some next) = if (channels i).patch.size == 0 then none else some i
find_data (suc steps) channels i (some next) =
    let later = find_data steps channels next (channels next).cc_next in
    if (channels i).patch.size == 0 then later else some i

-- `data_clone` into a new private block.
unfoldable pub data_clone : (ℕ → ℕ → ℕ) → ℕ → ℕ → ℕ → Space → Space
data_clone blocks clone src size space = record space {
  blocks = λ a i. if a == clone then (if ltb i size then blocks src i else 0) else space.blocks a i;
  made = space.made + 1;
}

-- `memcpy` from the private block of the range that was approved.
unfoldable pub copy_approved : RangeMap → Space → Memory → Option MemRange → Waited Receiver
copy_approved received space memory none = failed_assert
copy_approved received space memory (some approved) = done (record {
  received = received;
  memory = λ a.
      if within approved.base approved.size a
      then space.blocks approved.rec (a - approved.base)
      else memory a;
  space = space;
})

-- `malloc n` is the address of the n-th private block.
unfoldable pub receive_range : (ℕ → ℕ) → (ℕ → ℕ → ℕ) → ℕ → MemRange → Receiver → Waited Receiver
unfolding data_clone copy_approved
receive_range malloc blocks sender range r =
    let clone = malloc r.space.made in
    let space =
      if range.rec == 0 then r.space else data_clone blocks clone range.rec range.size r.space in
    elim (map_add_range_from_task r.received range.base range.size
      (if range.rec == 0 then 0 else clone) sender) [
        | asserted ↦ failed_assert
        | aborted ↦ aborted_spec
        | added received ↦ copy_approved received space r.memory (root_range received.root)
      ]

unfoldable pub receive_ranges :
    (ℕ → ℕ) → (ℕ → ℕ → ℕ) → ℕ → List MemRange → Receiver → Waited Receiver
unfolding receive_range
receive_ranges malloc blocks sender [] r = done r
receive_ranges malloc blocks sender (range ∷ ranges) r =
    elim (receive_range malloc blocks sender range r) [
      | done r' ↦ receive_ranges malloc blocks sender ranges r'
      | spinning ↦ spinning
      | aborted_spec ↦ aborted_spec
      | failed_assert ↦ failed_assert
      | abandoned r' ↦ abandoned r'
    ]

-- A main task and a task outside the group do not wait.
unfoldable pub never_waits : TaskStatus → Bool
never_waits TaskStatus.spec = false
never_waits _ = true

module _ (malloc : ℕ → ℕ) (blocks : ℕ → ℕ → ℕ) (metacow_space : ℕ)
    (read_map write_map : RangeMap) where
  -- The checks before the data are taken in.
  unfoldable pub receive_channel : Channel → Receiver → Waited Receiver
  unfolding receive_ranges assert_no_overlap
  receive_channel ch r =
      if assert_no_overlap metacow_space ch.patch read_map
        && assert_no_overlap metacow_space ch.patch write_map
      then receive_ranges malloc blocks ch.sender (to_list ch.patch.root) r
      else abandoned r

  -- `none` where the steps are not enough.
  unfoldable pub receive_posted :
      ℕ → (ℕ → Channel) → ℕ → Option ℕ → Receiver → Option (Waited Receiver)
  unfolding receive_channel find_data
  receive_posted steps channels index none r = some (receive_channel (channels index) r)
  receive_posted steps channels index (some first) r =
      elim (find_data steps channels first (channels first).cc_next) [
        | none ↦ none
        | some i ↦
            if (channels i).patch.size == 0
            then some failed_assert
            else some (receive_channel (channels i) r)
      ]

  unfoldable pub channel_wait : ℕ → TaskStatus → ℕ → Board → Receiver → Option (Waited Receiver)
  unfolding receive_posted never_waits
  channel_wait steps status id b r =
      let index = id % b.size in
      let ch = b.channels index in
      if never_waits status
      then some (done r)
      else (if ch.is_posted
          then (if ch.id == id
              then receive_posted steps b.channels index ch.cc_first r
              else some aborted_spec)
          else some spinning)
