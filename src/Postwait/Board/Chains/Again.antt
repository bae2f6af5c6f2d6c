-- ===== src/Postwait/Board/Chains/Again.antt =====
-- `channel_chain` of postwait.c on two channels, and again on the same ones.
use cbop.Prelude.{
  ℕ, zero, suc, ◌%◌, ◌<◌, ◌≡◌, ◌≢◌, refl, sym, ap, ◌∙◌, Bool, false, ◌||◌, [], ◌∷◌, none, some,
  arith, inl, inr, ◌⊎◌,
}
use cbop.Task.{TaskStatus}
use cbop.RangeTree.Map.{init_empty_map}
use cbop.Merge.{is_outside_group}
use cbop.Postwait.Board.{
  Channel, Board, put, get_channel, set_chain, tail_of, rechain, connect_chain, chain_up,
  channel_chain, or_first,
}
use cbop.Postwait.Board.Chains.{Linked}

-- Two channels that point at one another.
abbrev Cycle : (ℕ → Channel) → ℕ → ℕ → Type 0
Cycle channels i j = ((channels i).cc_next ≡ some j) × ((channels j).cc_next ≡ some i)

Cycle-set_chain :
    (channels : ℕ → Channel) (i j k head : ℕ) (posted : Bool)
    → Cycle channels i j
    → Cycle (set_chain channels k (some head) (channels k).cc_next posted) i j
unfolding set_chain put
Cycle-set_chain channels i j k head posted c = (ground (arith, c.0), ground (arith, c.1))

rechain-Cycle :
    (steps : ℕ) (channels : ℕ → Channel) (i j head : ℕ) (posted : Bool)
    → Cycle channels i j
    → rechain steps channels head posted (some i) ≡ none
unfolding rechain
rechain-Cycle zero channels i j head posted c = refl
rechain-Cycle (suc steps) channels i j head posted c =
    let next = set_chain channels i (some head) (channels i).cc_next posted in
    let again = Cycle-set_chain channels i j i head posted c in
    ap (rechain steps next head posted) c.0
    ∙ rechain-Cycle steps next j i head posted (again.1, again.0)

-- The channels that chaining the two channels at hand leaves.
abbrev paired : (ℕ → Channel) → ℕ → ℕ → Bool → ℕ → Channel
paired channels i j posted =
    set_chain (set_chain channels i (some i) (some j) posted) j (some i) none posted

record IsPaired (channels : ℕ → Channel) (i j : ℕ) : Type 0 where
  first_next : (channels i).cc_next ≡ some j
  last_next : (channels j).cc_next ≡ none
  first_first : (channels i).cc_first ≡ some i
  last_first : (channels j).cc_first ≡ some i

paired-IsPaired :
    (channels : ℕ → Channel) (i j : ℕ) (posted : Bool)
    → i ≢ j
    → IsPaired (paired channels i j posted) i j
unfolding set_chain put
paired-IsPaired channels i j posted apart = record {
  first_next = ground (arith, apart);
  last_next = ground arith;
  first_first = ground (arith, apart);
  last_first = ground arith;
}

tail_of-IsPaired :
    (steps : ℕ) (channels : ℕ → Channel) (i j : ℕ)
    → IsPaired channels i j
    → (tail_of steps channels i (some j) ≡ none) ⊎ (tail_of steps channels i (some j) ≡ some j)
unfolding tail_of
tail_of-IsPaired zero channels i j p = inl refl
tail_of-IsPaired (suc steps) channels i j p = inr (rw p.last_next refl)

Cycle-closed :
    (channels : ℕ → Channel) (i j : ℕ) (posted : Bool)
    → i ≢ j
    → IsPaired channels i j
    → Cycle (set_chain channels j (some i) (some i) posted) i j
unfolding set_chain put
Cycle-closed channels i j posted apart p = (ground (arith, apart, p.first_next), ground arith)

connect_chain-IsPaired :
    (steps : ℕ) (channels : ℕ → Channel) (i j : ℕ) (posted : Bool)
    → i ≢ j
    → IsPaired channels i j
    → connect_chain steps channels i j posted ≡ none
unfolding connect_chain or_first
connect_chain-IsPaired steps channels i j posted apart p =
    rw (connect_chain, p.first_next)
      (elim (tail_of-IsPaired steps channels i j p) [
        | inl e ↦ rw e refl
        | inr e ↦
            rw (e, p.last_first)
              (rechain-Cycle steps _ i j i posted (Cycle-closed channels i j posted apart p))
      ])

-- What a second chaining comes to, whichever of the two channels is looked at.
chain_up-IsPaired :
    (steps : ℕ) (channels : ℕ → Channel) (i j : ℕ) (posted : Bool)
    → i ≢ j
    → IsPaired channels i j
    → chain_up steps channels i j posted (channels i).cc_first (channels j).cc_first ≡ none
unfolding chain_up
chain_up-IsPaired steps channels i j posted apart p =
    rw p.first_first (connect_chain-IsPaired steps channels i j posted apart p)

-- A channel that is free, or taken by its id, and in no chain.
pub record IsUnchained (b : Board) (id : ℕ) : Type 0 where
  pub taken : ((b.channels (id % b.size)).id ≡ 0) ⊎ ((b.channels (id % b.size)).id ≡ id)
  pub unchained : (b.channels (id % b.size)).cc_first ≡ none

get_channel-own :
    (pw_space id : ℕ) (b : Board)
    → 0 < id
    → (b.channels (id % b.size)).id ≡ id
    → get_channel pw_space id b ≡ some (id % b.size, b)
unfolding get_channel
get_channel-own pw_space id b pos e = ground (arith, e, pos)

-- What a channel's lookup leaves.
record Got (pw_space id : ℕ) (b : Board) : Type 0 where
  left : Board
  result : get_channel pw_space id b ≡ some (id % b.size, left)
  same_size : left.size ≡ b.size
  own : (left.channels (id % b.size)).id ≡ id
  chains : (i : ℕ) → (left.channels i).cc_first ≡ (b.channels i).cc_first
  other : (i : ℕ) → i ≢ (id % b.size) → left.channels i ≡ b.channels i

get_channel-Got :
    (pw_space id : ℕ) (b : Board)
    → 0 < id
    → ((b.channels (id % b.size)).id ≡ 0) ⊎ ((b.channels (id % b.size)).id ≡ id)
    → Got pw_space id b
unfolding get_channel put
get_channel-Got pw_space id b pos (inl e) = record {
  left = record b {
    channels =
        put b.channels (id % b.size)
          (record (b.channels (id % b.size)) { id = id; patch = init_empty_map pw_space });
  };
  result = rw e refl;
  same_size = refl;
  own = ground arith;
  chains = λ i. ground arith;
  other = λ i n. ground (arith, n);
}
get_channel-Got pw_space id b pos (inr e) = record {
  left = b;
  result = get_channel-own pw_space id b pos e;
  same_size = refl;
  own = e;
  chains = λ i. refl;
  other = λ i n. refl;
}

-- What the lookups of two channels leave.
record GotBoth (pw_space id1 id2 : ℕ) (b : Board) : Type 0 where
  between : Board
  left : Board
  first_result : get_channel pw_space id1 b ≡ some (id1 % b.size, between)
  second_result : get_channel pw_space id2 between ≡ some (id2 % b.size, left)
  same_size : left.size ≡ b.size
  first_own : (left.channels (id1 % b.size)).id ≡ id1
  second_own : (left.channels (id2 % b.size)).id ≡ id2
  chains : (i : ℕ) → (left.channels i).cc_first ≡ (b.channels i).cc_first

get_channel-GotBoth :
    (pw_space id1 id2 : ℕ) (b : Board)
    → 0 < id1
    → 0 < id2
    → (id1 % b.size) ≢ (id2 % b.size)
    → IsUnchained b id1
    → IsUnchained b id2
    → GotBoth pw_space id1 id2 b
get_channel-GotBoth pw_space id1 id2 b pos1 pos2 apart u1 u2 =
    let g1 = get_channel-Got pw_space id1 b pos1 u1.taken in
    let moved : (g1.left.channels (id2 % g1.left.size)).id ≡ (b.channels (id2 % b.size)).id =
      ap (λ n. (g1.left.channels (id2 % n)).id) g1.same_size
      ∙ ap (λ c. c.id) (g1.other (id2 % b.size) (λ e. apart (sym e))) in
    let g2 =
      get_channel-Got pw_space id2 g1.left pos2
        (elim u2.taken [ inl e ↦ inl (moved ∙ e) | inr e ↦ inr (moved ∙ e) ]) in
    record {
      between = g1.left;
      left = g2.left;
      first_result = g1.result;
      second_result = g2.result ∙ ap (λ n. some (id2 % n, g2.left)) g1.same_size;
      same_size = g2.same_size ∙ g1.same_size;
      first_own =
          ap (λ c. c.id) (g2.other (id1 % b.size) (λ e. apart (e ∙ ap (λ n. id2 % n) g1.same_size)))
          ∙ g1.own;
      second_own = ap (λ n. (g2.left.channels (id2 % n)).id) (sym g1.same_size) ∙ g2.own;
      chains = λ i. g2.chains i ∙ g1.chains i;
    }

-- The board after a first chaining of two channels, and what it holds.
record Chained (steps pw_space id1 id2 : ℕ) (status : TaskStatus) (b : Board) : Type 0 where
  left : Board
  result : channel_chain steps pw_space status id1 id2 b ≡ some left
  same_size : left.size ≡ b.size
  pair : IsPaired left.channels (id1 % b.size) (id2 % b.size)
  own : ((left.channels (id1 % b.size)).id ≡ id1) × ((left.channels (id2 % b.size)).id ≡ id2)

paired-id :
    (channels : ℕ → Channel) (i j k : ℕ) (posted : Bool)
    → (paired channels i j posted k).id ≡ (channels k).id
unfolding set_chain put
paired-id channels i j k posted = ground arith

channel_chain-Chained :
    (steps pw_space id1 id2 : ℕ) (status : TaskStatus) (b : Board)
    → is_outside_group status ≡ false
    → 0 < id1
    → 0 < id2
    → (id1 % b.size) ≢ (id2 % b.size)
    → IsUnchained b id1
    → IsUnchained b id2
    → Chained steps pw_space id1 id2 status b
unfolding channel_chain chain_up
channel_chain-Chained steps pw_space id1 id2 status b inside pos1 pos2 apart u1 u2 =
    let i = id1 % b.size in
    let j = id2 % b.size in
    let g = get_channel-GotBoth pw_space id1 id2 b pos1 pos2 apart u1 u2 in
    let posted = (g.left.channels i).is_posted || (g.left.channels j).is_posted in
    record {
      left = record g.left { channels = paired g.left.channels i j posted };
      result =
          rw
            (
              inside,
              g.first_result,
              g.second_result,
              g.chains i,
              u1.unchained,
              g.chains j,
              u2.unchained,
            )
            refl;
      same_size = g.same_size;
      pair = paired-IsPaired g.left.channels i j posted apart;
      own = (
        paired-id g.left.channels i j i posted ∙ g.first_own,
        paired-id g.left.channels i j j posted ∙ g.second_own,
      );
    }

got :
    (pw_space id : ℕ) (b left : Board)
    → left.size ≡ b.size
    → 0 < id
    → (left.channels (id % b.size)).id ≡ id
    → get_channel pw_space id left ≡ some (id % b.size, left)
got pw_space id b left same pos own =
    get_channel-own pw_space id left pos (ap (λ n. (left.channels (id % n)).id) same ∙ own)
    ∙ ap (λ n. some (id % n, left)) same

-- Chaining two channels that are in no chain succeeds and makes them a chain of two; chaining the same
-- two channels again never ends, whatever the number of steps: the second channel is linked back to
-- the first one, and the loop over the chain follows the links for ever. The ids are not 0 and have
-- places of their own on the board, which are free or theirs, and the task is inside a group.
pub channel_chain-again :
    (steps again pw_space id1 id2 : ℕ) (status : TaskStatus) (b : Board)
    → is_outside_group status ≡ false
    → 0 < id1
    → 0 < id2
    → (id1 % b.size) ≢ (id2 % b.size)
    → IsUnchained b id1
    → IsUnchained b id2
    → (b' : Board) × (channel_chain steps pw_space status id1 id2 b ≡ some b')
      × Linked b'.channels (id1 % b.size ∷ id2 % b.size ∷ [])
      × (channel_chain again pw_space status id1 id2 b' ≡ none)
unfolding channel_chain
channel_chain-again steps again pw_space id1 id2 status b inside pos1 pos2 apart u1 u2 =
    let c = channel_chain-Chained steps pw_space id1 id2 status b inside pos1 pos2 apart u1 u2 in
    (
      c.left,
      c.result,
      (c.pair.first_next, c.pair.last_next),
      rw
          (
            inside,
            got pw_space id1 b c.left c.same_size pos1 c.own.0,
            got pw_space id2 b c.left c.same_size pos2 c.own.1,
          )
          (rw
            (chain_up-IsPaired again c.left.channels (id1 % b.size) (id2 % b.size)
              ((c.left.channels (id1 % b.size)).is_posted
                || (c.left.channels (id2 % b.size)).is_posted)
              apart c.pair)
            refl),
    )
