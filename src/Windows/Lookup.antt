-- ===== src/Windows/Lookup.antt =====
-- `get_merkle_proof` (decision_layer/services/batch_coordinator.py).
use Prim.Native.String.{String}
use text.Mathlib.Text.{◌==◌ as str_eq}
use omni_aegis.Prelude.{ℕ, List, [], ◌∷◌, Option, none, some, if◌then◌else◌}
use omni_aegis.Merkle.{Bytes, Outcome, ok, raise, MerkleBatch, MerkleError, fetch_proof_hashes}
use omni_aegis.Windows.{BatchRow, DecisionRow, State, fetch_decision_with_batch, select_node}

-- `_fetch_batch_meta`.
abbrev pub fetch_batch_meta : String → List BatchRow → Option MerkleBatch
fetch_batch_meta batch_id [] = none
fetch_batch_meta batch_id (row ∷ rows) =
    if str_eq row.batch.batch_id batch_id then some row.batch else fetch_batch_meta batch_id rows

pub data ProofError : Type 0 where
  unknown_decision_id : ProofError
  not_yet_included : ProofError
  no_leaf_index : ProofError
  missing_batch_metadata : ProofError
  unreadable : MerkleError → ProofError

-- What `get_merkle_proof` returns, without the prefix 0x of its hexadecimal texts.
pub record ProofAnswer : Type 0 where
  pub decision_id : String
  pub batch_id : String
  pub merkle_root : Bytes
  pub leaf_hash : Bytes
  pub proof_hashes : List (Option Bytes)
  pub hash_algorithm : String
  pub leaf_index : ℕ
  pub window_start : ℕ
  pub window_end : ℕ

pub data ProofResult : Type 0 where
  proved : ProofAnswer → ProofResult
  refused : ProofError → ProofResult

-- `get_merkle_proof`; the loop of `_fetch_proof_hashes` runs on fuel for the batch's leaves.
module _ {Float : Type 0} (s : State Float) where
  abbrev pub proof_with_meta :
      DecisionRow Float → String → ℕ → List (Option Bytes) → Option MerkleBatch → ProofResult
  proof_with_meta row batch_id index hashes none = refused missing_batch_metadata
  proof_with_meta row batch_id index hashes (some batch) = proved (record {
    decision_id = row.leaf.decision_id;
    batch_id = batch_id;
    merkle_root = batch.merkle_root;
    leaf_hash = row.leaf.leaf_hash;
    proof_hashes = hashes;
    hash_algorithm = batch.hash_algorithm;
    leaf_index = index;
    window_start = batch.window_start;
    window_end = batch.window_end;
  })

  abbrev pub proof_with_hashes :
      DecisionRow Float → String → ℕ → Outcome (List (Option Bytes)) → ProofResult
  proof_with_hashes row batch_id index (raise error) = refused (unreadable error)
  proof_with_hashes row batch_id index (ok hashes) =
      proof_with_meta row batch_id index hashes (fetch_batch_meta batch_id s.batches)

  abbrev pub proof_at : ℕ → DecisionRow Float → String → Option ℕ → ProofResult
  proof_at fuel row batch_id none = refused no_leaf_index
  proof_at fuel row batch_id (some index) = proof_with_hashes row batch_id index (
      fetch_proof_hashes (λ level position. select_node batch_id level position s.nodes) fuel index)

  abbrev pub proof_of_batched : ℕ → DecisionRow Float → Option String → ProofResult
  proof_of_batched fuel row none = refused not_yet_included
  proof_of_batched fuel row (some batch_id) = proof_at fuel row batch_id row.leaf_index

  abbrev pub proof_of_row : ℕ → Option (DecisionRow Float) → ProofResult
  proof_of_row fuel none = refused unknown_decision_id
  proof_of_row fuel (some row) = proof_of_batched fuel row row.batch_id

  unfoldable pub get_merkle_proof : ℕ → String → ProofResult
  get_merkle_proof fuel decision_id =
      proof_of_row fuel (fetch_decision_with_batch decision_id s.decisions)
