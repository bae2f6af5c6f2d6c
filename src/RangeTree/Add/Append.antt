-- ===== src/RangeTree/Add/Append.antt =====
-- `map_add_range` of dtree.c with a range behind the last one of a map.
use cbop.Prelude.{ℕ, ◌+◌, ◌≤◌, ◌<◌, ◌≡◌, refl, ◌∙◌, ap, [], ◌∷◌, ◌++◌, arith}
use cbop.Prelude.Word.{max_addr}
use cbop.RangeTree.Range.{MemRange, IsRange}
use cbop.RangeTree.Tree.{Tree, leaf, node, to_list, Between, Between-le}
use cbop.RangeTree.Splay.{splay, to_list-splay}
use cbop.RangeTree.Splay.Keys.{Splits, splay-Splits, splay-Between, is_leaf-node}
use cbop.RangeTree.Absorb.{absorb_right}
use cbop.RangeTree.Map.{RangeMap}
use cbop.RangeTree.Add.{new_node, insert_right, add_at, add_under, add_range}
use cbop.RangeTree.Add.Root.{joins, joins_lem}

module _ (m : RangeMap) (n : MemRange) (hi : ℕ) (hn : IsRange n) (behind : hi < n.base) where
  to_list-add_at :
      (t : Tree)
      → Between 0 t hi
      → Splits n.base t
      → to_list (add_at m n t).root ≡ to_list t ++ (n ∷ [])
  unfolding add_at joins insert_right absorb_right
  to_list-add_at leaf h s = absurd s
  to_list-add_at (node lc top leaf) h s =
      ground (arith, joins_lem n top hn, h.1, h.2, Between-le lc 0 top.base h.0)
  to_list-add_at (node lc top (node lc' r rc)) h s =
      absurd (omega (arith, s.1.1, h.2.1, Between-le rc (r.base + r.size) hi h.2.2))

  to_list-add_under :
      (t : Tree) → Between 0 t hi → to_list (add_under m n t).root ≡ to_list t ++ (n ∷ [])
  unfolding add_under
  to_list-add_under leaf h = refl
  to_list-add_under (node lc r rc) h =
      to_list-add_at (splay (node lc r rc) n.base) (splay-Between (node lc r rc) n.base 0 hi h)
        (splay-Splits (node lc r rc) n.base 0 hi (is_leaf-node lc r rc) h)
      ∙ ap (λ l. l ++ (n ∷ [])) (to_list-splay (node lc r rc) n.base)

-- A range that starts behind the end of the last one, with a gap, becomes the last one.
pub to_list-add_range :
    (m : RangeMap) (base size obj hi : ℕ)
    → Between 0 m.root hi
    → hi < base
    → 0 < size
    → base + size ≤ max_addr
    → to_list (add_range m base size obj).root ≡ to_list m.root ++ (new_node base size obj ∷ [])
unfolding add_range new_node
to_list-add_range m base size obj hi h behind n fits =
    to_list-add_under m (new_node base size obj) hi (record { nonempty = n; fits = fits }) behind
      m.root h
