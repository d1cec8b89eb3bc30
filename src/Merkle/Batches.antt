-- ===== src/Merkle/Batches.antt =====
-- What the root of a built batch says about its decisions.
use Prim.Native.String.{String}
use omni_aegis.Prelude.{
  ℕ, suc, ◌+◌, ◌%◌, ◌<◌, ◌≡◌, refl, sym, ap, ap₂, ◌∙◌, List, [], ◌∷◌, ◌++◌, ◌⊎◌, length, arith, All,
  length-map, length-append,
}
use omni_aegis.Prelude.Dict.{Dict}
use omni_aegis.Merkle.{
  Bytes, Digests, hash, ok, DecisionLeaf, MerkleBatch, leaf_hashes, levels_from, build_merkle_batch,
}
use omni_aegis.Merkle.Binding.{Collision, root_of-binds, root_of-pad}
use omni_aegis.Merkle.Inclusion.{build_merkle_batch-ok}
use omni_aegis.Merkle.Levels.{root_of, root_of-fuel}

leaf_hashes-append :
    {Float : Type 0} (xs ys : List (DecisionLeaf Float))
    → leaf_hashes (xs ++ ys) ≡ leaf_hashes xs ++ leaf_hashes ys
leaf_hashes-append [] ys = refl
leaf_hashes-append (x ∷ xs) ys = ap (◌∷◌ x.leaf_hash) (leaf_hashes-append xs ys)

module _ {Float : Type 0} (dg : Digests) (algorithm : String) (h : Bytes → Bytes)
    (supported : (b : Bytes) → hash dg algorithm b ≡ ok (h b)) where
  -- A batch that was built has the root and the count of its leaves.
  merkle_root-built :
      (prefix id : String) (now ws we : ℕ) (leaves : List (DecisionLeaf Float))
      (batch : MerkleBatch) (levels : List (List Bytes)) (index : Dict ℕ)
      → build_merkle_batch dg algorithm prefix now id leaves ws we ≡ ok (batch, levels, index)
      → (batch.merkle_root ≡ root_of h (length leaves) (leaf_hashes leaves))
        × (batch.leaf_count ≡ length leaves)
  merkle_root-built prefix id now ws we [] batch levels index e =
      absurd (unfold build_merkle_batch levels_from in (cc e))
  merkle_root-built prefix id now ws we (l ∷ ls) batch levels index e =
      let e' =
        sym (
          build_merkle_batch-ok dg algorithm h supported prefix now id (l ∷ ls) ws we (omega arith))
        ∙ e in
      (cc e', cc e')

  -- Two batches that were built with one supported digest of fixed output size, from leaf hashes
  -- of that size, and that agree in root and leaf count, have the same leaf hashes in the same
  -- order; or else the proof computes two inputs on which the digest collides.
  pub build_merkle_batch-binds :
      (prefix prefix' id id' : String) (now now' ws ws' we we' n : ℕ)
      (leaves leaves' : List (DecisionLeaf Float)) (batch batch' : MerkleBatch)
      (levels levels' : List (List Bytes)) (index index' : Dict ℕ)
      → build_merkle_batch dg algorithm prefix now id leaves ws we ≡ ok (batch, levels, index)
      → build_merkle_batch dg algorithm prefix' now' id' leaves' ws' we'
        ≡ ok (batch', levels', index')
      → ((b : Bytes) → length (h b) ≡ n)
      → All (λ b. length b ≡ n) (leaf_hashes leaves)
      → All (λ b. length b ≡ n) (leaf_hashes leaves')
      → batch.merkle_root ≡ batch'.merkle_root
      → batch.leaf_count ≡ batch'.leaf_count
      → (leaf_hashes leaves ≡ leaf_hashes leaves') ⊎ Collision h
  build_merkle_batch-binds prefix prefix' id id' now now' ws ws' we we' n leaves leaves' batch
        batch' levels levels' index index' e e' sized s s' root count =
      let (r, c) = merkle_root-built prefix id now ws we leaves batch levels index e in
      let (r', c') = merkle_root-built prefix' id' now' ws' we' leaves' batch' levels' index' e' in
      let size = length-map leaves (λ (leaf : DecisionLeaf Float). leaf.leaf_hash) in
      let size' = length-map leaves' (λ (leaf : DecisionLeaf Float). leaf.leaf_hash) in
      let same = sym c ∙ count ∙ c' in
      let roots = sym r ∙ root ∙ r' ∙ ap (λ k. root_of h k (leaf_hashes leaves')) (sym same) in
      root_of-binds h n sized (length leaves) (leaf_hashes leaves) (leaf_hashes leaves')
        (omega (arith, size)) (omega (arith, size, size', same)) s s' roots

  -- A batch of an odd number of at least three decisions has the same root as the batch with its
  -- last decision given twice, so the root does not determine the number of leaves.
  pub build_merkle_batch-pad :
      (prefix prefix' id id' : String) (now now' ws ws' we we' : ℕ)
      (leaves : List (DecisionLeaf Float)) (last : DecisionLeaf Float) (batch batch' : MerkleBatch)
      (levels levels' : List (List Bytes)) (index index' : Dict ℕ)
      → 0 < length leaves
      → length leaves % 2 ≡ 0
      → build_merkle_batch dg algorithm prefix now id (leaves ++ last ∷ []) ws we
        ≡ ok (batch, levels, index)
      → build_merkle_batch dg algorithm prefix' now' id' (leaves ++ last ∷ last ∷ []) ws' we'
        ≡ ok (batch', levels', index')
      → batch.merkle_root ≡ batch'.merkle_root
  build_merkle_batch-pad prefix prefix' id id' now now' ws ws' we we' leaves last batch batch'
        levels levels' index index' p even e e' =
      let (r, _) =
        merkle_root-built prefix id now ws we (leaves ++ last ∷ []) batch levels index e in
      let (r', _) =
        merkle_root-built prefix' id' now' ws' we' (leaves ++ last ∷ last ∷ []) batch' levels'
          index' e' in
      let hashes = leaf_hashes leaves in
      let y = last.leaf_hash in
      let size = length-map leaves (λ (leaf : DecisionLeaf Float). leaf.leaf_hash) in
      let odd : length (leaves ++ last ∷ []) ≡ length leaves + 1 = length-append leaves _ in
      let two : length (leaves ++ last ∷ last ∷ []) ≡ suc (length leaves + 1) =
        omega (arith, length-append leaves (last ∷ last ∷ [])) in
      let k = length-append hashes (y ∷ []) in
      let n = length leaves + 1 in
      r
      ∙ ap₂ (root_of h) odd (leaf_hashes-append leaves (last ∷ []))
      ∙ root_of-fuel h n (suc n) (hashes ++ y ∷ []) (omega (arith, k, size))
          (omega (arith, k, size))
      ∙ root_of-pad h hashes y n (omega (arith, size)) (ap (λ t. t % 2) size ∙ even)
      ∙ sym (ap₂ (root_of h) two (leaf_hashes-append leaves (last ∷ last ∷ [])))
      ∙ sym r'
