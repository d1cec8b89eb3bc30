-- ===== src/Merkle/Tests.antt =====
-- Runs of the tree and its proofs with a toy digest, and the theorems at concrete batches.
use omni_aegis.Prelude.{
  ℕ, suc, ◌+◌, ◌*◌, ◌%◌, ◌≡◌, ◌⊎◌, refl, List, [], ◌∷◌, ◌++◌, Option, some, arith, Bool, true, ◌==◌,
  ◌&&◌,
}
use Prim.Native.Nat.{bit_xor}
use omni_aegis.Merkle.{
  Bytes, Digests, hash, Outcome, ok, raise, key_error, overflow_error, DecisionLeaf, MerkleNode,
  next_level, levels_from, build_merkle_batch, node_rows, fetch_node_hash, proof_loop, proof_hashes,
  stored_node_hash, fetch_proof_hashes, confidence_scaled, canonical_bytes, flip_low_bit,
  leaf_hashes, index_map,
}
use omni_aegis.Merkle.Binding.{Collision}
use omni_aegis.Merkle.Batches
use omni_aegis.Merkle.Canonical
use omni_aegis.Merkle.Inclusion
use omni_aegis.Sentinel.Samples.{conversions}
use omni_aegis.Merkle.Levels.{tree, above, root_of}
use omni_aegis.Merkle.Proof.{climb}
use omni_aegis.Merkle.Rows.{find_row}

-- A digest of one byte: a polynomial of its input.
abbrev mix : Bytes → ℕ
mix [] = 7
mix (b ∷ bs) = (31 * mix bs + b + 1) % 256

abbrev toy : Bytes → Bytes
toy b = mix b ∷ []

abbrev digests : Digests
digests = record { keccak256 = toy; sha256 = toy }

program : Unit {0}
unfolding hash next_level levels_from build_merkle_batch fetch_node_hash proof_loop proof_hashes
    fetch_proof_hashes canonical_bytes tree above root_of
program = tt

abbrev leaf : ℕ → DecisionLeaf ℕ
leaf n = record {
  decision_id = "d";
  asset_hash = [];
  action = 0;
  confidence = 0;
  timestamp = n;
  canonical = [];
  leaf_hash = n ∷ [];
}

abbrev three : List (DecisionLeaf ℕ)
three = leaf 1 ∷ leaf 2 ∷ leaf 3 ∷ []

abbrev rows : List MerkleNode
rows = node_rows three (tree toy 3 (leaf_hashes three))

-- The proof of the third leaf: itself, since it has no sibling, and the node over the first two.
third_proof :
    proof_hashes (stored_node_hash (λ l p. find_row l p rows)) 4 2
    ≡ ok (some (3 ∷ []) ∷ some (toy (1 ∷ 2 ∷ [])) ∷ [])
unfolding program
third_proof = refl

unsupported : hash digests "md5" [] ≡ raise omni_aegis.Merkle.unsupported_hash
unfolding program
unsupported = refl

action_too_large : canonical_bytes conversions 1000 [] 256 0 0 ≡ raise overflow_error
unfolding program
action_too_large = refl

flips : Bool
flips = go 300
  where
    go : ℕ → Bool
    go ℕ.zero = true
    go (suc n) = (flip_low_bit n == bit_xor n 1) && go n

flips_lem : flips ≡ true
unfolding flips
flips_lem = refl

supported : (b : Bytes) → hash digests "sha256" b ≡ ok (toy b)
unfolding hash
supported b = refl

build_merkle_batch-ok_example :
    build_merkle_batch digests "sha256" "p" 9 "b" three 0 5
    ≡ ok (
      Inclusion.built digests "sha256" toy supported "p" 9 "b" three 0 5,
      tree toy 3 (leaf_hashes three),
      index_map 0 three [],
    )
build_merkle_batch-ok_example =
    Inclusion.build_merkle_batch-ok digests "sha256" toy supported "p" 9 "b" three 0 5 (omega arith)

inclusion_example :
    (proof : List (Option Bytes)) × (proof_hashes (stored_node_hash (λ l p. find_row l p rows)) 4 2
      ≡ ok proof)
    × (climb toy 2 (3 ∷ []) proof ≡ some (root_of toy 3 (leaf_hashes three)))
inclusion_example =
    Inclusion.inclusion digests "sha256" toy supported "p" 9 "b" three 0 5
      (λ l p. find_row l p rows) (λ l p. refl) 2 (leaf 3) refl

fetch_proof_hashes-key_error_example :
    fetch_proof_hashes (λ l p. find_row l p rows) 4 2 ≡ raise key_error
fetch_proof_hashes-key_error_example =
    Inclusion.fetch_proof_hashes-key_error digests "sha256" toy supported "p" 9 "b" three 0 5
      (λ l p. find_row l p rows) (λ l p. refl) 2 3 (leaf 3) refl

abbrev two : List (DecisionLeaf ℕ)
two = leaf 1 ∷ leaf 2 ∷ []

build_merkle_batch-binds_example : (leaf_hashes two ≡ leaf_hashes two) ⊎ Collision toy
build_merkle_batch-binds_example =
    Batches.build_merkle_batch-binds digests "sha256" toy supported "p" "q" "b" "c" 9 8 0 5 3 7 1
      two two _ _ _ _ _ _
      (Inclusion.build_merkle_batch-ok digests "sha256" toy supported "p" 9 "b" two 0 3
        (omega arith))
      (Inclusion.build_merkle_batch-ok digests "sha256" toy supported "q" 8 "c" two 5 7
        (omega arith))
      (λ b. refl) (refl, (refl, tt)) (refl, (refl, tt)) refl refl

build_merkle_batch-pad_example :
    root_of toy 3 (leaf_hashes three) ≡ root_of toy 4 (leaf_hashes (two ++ leaf 3 ∷ leaf 3 ∷ []))
build_merkle_batch-pad_example =
    Batches.build_merkle_batch-pad digests "sha256" toy supported "p" "q" "b" "c" 9 8 0 5 3 7 two
      (leaf 3) _ _ _ _ _ _ (omega arith) refl
      (Inclusion.build_merkle_batch-ok digests "sha256" toy supported "p" 9 "b" three 0 3
        (omega arith))
      (Inclusion.build_merkle_batch-ok digests "sha256" toy supported "q" 8 "c"
        (two ++ leaf 3 ∷ leaf 3 ∷ []) 5 7 (omega arith))

-- With a scale of 2, the confidence 1.000 and the clamped 1.700 are both encoded as 2.
canonical_bytes-injective_example :
    (◌≡◌ {A = Bytes} (9 ∷ []) (9 ∷ []))
    × (◌≡◌ {A = ℕ} 1 1)
    × (confidence_scaled conversions 2 1000 ≡ confidence_scaled conversions 2 1700)
    × (◌≡◌ {A = ℕ} 3 3)
unfolding canonical_bytes
canonical_bytes-injective_example =
    Canonical.canonical_bytes-injective conversions 2 (9 ∷ []) (9 ∷ []) 1 1 1000 1700 3 3
      (9 ∷ 1 ∷ 0 ∷ 0 ∷ 0 ∷ 2 ∷ 0 ∷ 0 ∷ 0 ∷ 0 ∷ 0 ∷ 0 ∷ 0 ∷ 3 ∷ []) refl refl refl
