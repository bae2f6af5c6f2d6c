-- ===== src/Postwait/Board/Chains.antt =====
-- The chains of postwait.c: posting along a chain.
pub mod Again
use cbop.Prelude.{
  ℕ, zero, suc, ◌%◌, ◌≤◌, ◌<◌, ◌≡◌, ◌≢◌, refl, sym, ap, ◌∙◌, Bool, true, false, ◌||◌, List, [], ◌∷◌,
  none, some, arith, length, ◌==◌, inl, inr, ◌⊎◌,
}
use cbop.Task.{TaskStatus}
use cbop.RangeTree.Map.{init_empty_map}
use cbop.Merge.{is_outside_group}
use cbop.Postwait.Board.{
  Channel, Board, put, get_channel, set_chain, tail_of, rechain, connect_chain, chain_up,
  channel_chain, mark_posted, or_first,
}

-- The channels of a chain from one on, in the order of their pointers.
abbrev pub Linked : (ℕ → Channel) → List ℕ → Type 0
Linked channels [] = ⊥
Linked channels (i ∷ []) = (channels i).cc_next ≡ none
Linked channels (i ∷ j ∷ l) = ((channels i).cc_next ≡ some j) × Linked channels (j ∷ l)

abbrev pub member : ℕ → List ℕ → Bool
member j [] = false
member j (i ∷ l) = j == i || member j l

abbrev posted_at : (ℕ → Channel) → ℕ → ℕ → Channel
posted_at channels i = put channels i (record (channels i) { is_posted = true })

Linked-posted_at :
    (channels : ℕ → Channel) (k : ℕ) (l : List ℕ)
    → Linked channels l
    → Linked (posted_at channels k) l
unfolding put
Linked-posted_at channels k [] h = h
Linked-posted_at channels k (i ∷ []) h = ground (arith, h)
Linked-posted_at channels k (i ∷ j ∷ l) h =
    (ground (arith, h.0), Linked-posted_at channels k (j ∷ l) h.1)

-- Posting a channel at the head of a chain ends after one step for each channel of the chain. All of
-- them are then posted, and no other channel is that was not.
pub mark_posted-posted :
    (channels : ℕ → Channel) (i steps : ℕ) (l : List ℕ)
    → Linked channels (i ∷ l)
    → length (i ∷ l) ≤ steps
    → (channels' : ℕ → Channel) × (mark_posted steps channels (some i) ≡ some channels')
      × ((j : ℕ) → (channels' j).is_posted ≡ (member j (i ∷ l) || (channels j).is_posted))
unfolding mark_posted put
mark_posted-posted channels i zero l h p = absurd (omega arith)
mark_posted-posted channels i (suc steps) [] h p =
    (posted_at channels i, ap (mark_posted steps (posted_at channels i)) h, λ j. ground arith)
mark_posted-posted channels i (suc steps) (k ∷ l) h p =
    let (channels', e, all) =
      mark_posted-posted (posted_at channels i) k steps l (Linked-posted_at channels i (k ∷ l) h.1)
        (omega arith) in
    (channels', ap (mark_posted steps (posted_at channels i)) h.0 ∙ e, λ j. ground (arith, all j))
