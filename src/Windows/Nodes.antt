-- ===== src/Windows/Nodes.antt =====
-- The rows of `merkle_nodes` after the inserts of a batch.
use Prim.Native.String.{String}
use text.Mathlib.Text.{◌==◌ as str_eq}
use omni_aegis.Prelude.{
  ℕ, ◌≡◌, refl, sym, ap, ap₂, ◌∙◌, Bool, true, false, ◌&&◌, inl, inr, List, [], ◌∷◌, ◌++◌, Option,
  none, some, if◌then◌else◌, ◌==◌, arith, Bool-cases,
}
use omni_aegis.Prelude.Dict.{str_eq_refl}
use omni_aegis.Redis.{is_some}
use omni_aegis.Merkle.{MerkleNode}
use omni_aegis.Merkle.Rows.{find_row}
use omni_aegis.Windows.{select_node, insert_node, insert_nodes}

module _ (id : String) (l p : ℕ) where
  abbrev here : MerkleNode → Bool
  here node = node.level == l && node.position == p

  abbrev or_else : Option MerkleNode → Option MerkleNode → Option MerkleNode
  or_else none b = b
  or_else (some a) b = some a

  or_else_some : (o b : Option MerkleNode) → is_some o ≡ true → o ≡ or_else o b
  or_else_some none b h = absurd (cc h)
  or_else_some (some a) b h = refl

  or_else_nothing : (o : Option MerkleNode) → o ≡ or_else o none
  or_else_nothing none = refl
  or_else_nothing (some a) = refl

  or_else_if :
      (o q : Option MerkleNode) (b : Bool) (a : MerkleNode)
      → or_else (or_else o (if b then some a else none)) q ≡ or_else o (if b then some a else q)
  or_else_if none q true a = refl
  or_else_if none q false a = refl
  or_else_if (some x) q b a = refl

  select_node-append :
      (node : MerkleNode) (nodes : List (String × MerkleNode))
      → select_node id l p (nodes ++ (id, node) ∷ [])
        ≡ or_else (select_node id l p nodes) (if here node then some node else none)
  select_node-append node [] = rw (str_eq_refl id) refl
  select_node-append node ((j, other) ∷ nodes) = elim (Bool-cases (str_eq j id && here other)) [
    | inl e ↦ rw (e) refl
    | inr e ↦ rw (e) (select_node-append node nodes)
  ]

  select_node-insert_node :
      (node : MerkleNode) (nodes : List (String × MerkleNode))
      → select_node id l p (insert_node id node nodes)
        ≡ or_else (select_node id l p nodes) (if here node then some node else none)
  select_node-insert_node node nodes =
      elim (Bool-cases (is_some (select_node id node.level node.position nodes))) [
        | inr new ↦ rw (insert_node, new) (select_node-append node nodes)
        | inl known ↦ elim (Bool-cases (here node)) [
          | inr other ↦ rw (insert_node, known, other) (or_else_nothing (select_node id l p nodes))
          | inl same ↦
              let levels : node.level ≡ l = ground (arith, same) in
              let positions : node.position ≡ p = ground (arith, same) in
              let found =
                sym (ap₂ (λ l p. is_some (select_node id l p nodes)) levels positions) ∙ known in
              rw (insert_node, known) (or_else_some (select_node id l p nodes) _ found)
        ]
      ]

  select_node-insert_nodes :
      (rows : List MerkleNode) (nodes : List (String × MerkleNode))
      → select_node id l p (insert_nodes id rows nodes)
        ≡ or_else (select_node id l p nodes) (find_row l p rows)
  select_node-insert_nodes [] nodes = or_else_nothing (select_node id l p nodes)
  select_node-insert_nodes (node ∷ rows) nodes =
      select_node-insert_nodes rows (insert_node id node nodes)
      ∙ ap (λ o. or_else o (find_row l p rows)) (select_node-insert_node node nodes)
      ∙ or_else_if (select_node id l p nodes) (find_row l p rows) (here node) node

  -- A batch whose id has no nodes yet gets its rows and no other.
  pub select_node-fresh :
      (rows : List MerkleNode) (nodes : List (String × MerkleNode))
      → select_node id l p nodes ≡ none
      → select_node id l p (insert_nodes id rows nodes) ≡ find_row l p rows
  select_node-fresh rows nodes fresh =
      select_node-insert_nodes rows nodes ∙ ap (λ o. or_else o (find_row l p rows)) fresh
