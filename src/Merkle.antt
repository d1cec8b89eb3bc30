-- ===== src/Merkle.antt =====
-- The Merkle tree of a batch of decisions and its inclusion proofs
-- (decision_layer/services/batch_coordinator.py: `_hash`, `_canonical_bytes`,
-- `_build_merkle_batch`, `_persist_batch`, `_fetch_node_hash`, `_fetch_proof_hashes`).
-- The digests `hashlib.sha256` and `AsyncWeb3.keccak` and the doubles are parameters. A row of the
-- database is a dict, as the pool's `row_factory` has it.
pub mod Levels
pub mod Rows
pub mod Proof
pub mod Inclusion
pub mod Binding
pub mod Canonical
pub mod Batches
mod Tests
use Prim.Native.String.{String}
use text.Mathlib.Text.{◌==◌ as str_eq}
use Prim.Native.String.{◌++◌ as append_text}
use mathlib.Core.Option
use omni_aegis.Prelude.Dict.{Dict, insert}
use omni_aegis.Prelude.Int.{ℤ, pos, negsuc}
use omni_aegis.Doubles.{Doubles, null, one, fmax, fmin}
use omni_aegis.Values.{Conversions}
use omni_aegis.Prelude.{
  map, ℕ, zero, suc, ◌+◌, ◌-◌, ◌*◌, ◌/◌, ◌%◌, ◌^◌, ◌≤◌, ◌<◌, ◌≡◌, Bool, true, false, List, [], ◌∷◌,
  ◌++◌, Option, none, some, ltb, leb, if◌then◌else◌, length, get_elem?, ◌==◌,
}

abbrev pub Bytes : Type 0
Bytes = List ℕ

pub data MerkleError : Type 0 where
  unsupported_hash : MerkleError
  overflow_error : MerkleError
  index_error : MerkleError
  key_error : MerkleError
  loop_bound : MerkleError

pub data Outcome {ℓ} (A : Type ℓ) : Type ℓ where
  ok : A → Outcome A
  raise : MerkleError → Outcome A

infixl 5 ◌>>=◌
abbrev pub ◌>>=◌ {ℓ κ} : {A : Type ℓ} {B : Type κ} → Outcome A → (A → Outcome B) → Outcome B
ok a >>= f = f a
raise e >>= f = raise e

pub record Digests : Type 0 where
  pub keccak256 : Bytes → Bytes
  pub sha256 : Bytes → Bytes

-- `_hash`.
unfoldable pub hash : Digests → String → Bytes → Outcome Bytes
hash dg algorithm bytes =
    if str_eq algorithm "keccak256"
    then ok (dg.keccak256 bytes)
    else if str_eq algorithm "sha256"
    then ok (dg.sha256 bytes)
    else raise unsupported_hash

-- `int.to_bytes(n, byteorder="big", signed=False)`, which raises `OverflowError` where the number
-- does not fit.
abbrev pub big_endian : ℕ → ℕ → Bytes
big_endian zero v = []
big_endian (suc n) v = (v / 256 ^ n) % 256 ∷ big_endian n v

abbrev pub to_bytes : ℕ → ℕ → Outcome Bytes
to_bytes n v = if ltb v (256 ^ n) then ok (big_endian n v) else raise overflow_error

-- `to_bytes` of an integer, which raises `OverflowError` for a negative one too.
abbrev pub int_to_bytes : ℕ → ℤ → Outcome Bytes
int_to_bytes n (pos v) = to_bytes n v
int_to_bytes n (negsuc v) = raise overflow_error

module _ {fl : Doubles} (py : Conversions fl) (min_confidence_scale : ℕ) where
  -- `int(max(0.0, min(1.0, confidence)) * self.config.min_confidence_scale)`.
  abbrev pub confidence_scaled : fl.Float → ℤ
  confidence_scaled confidence = py.truncate (
      fl.mul (fmax fl (null fl) (fmin fl (one fl) confidence))
        (py.of_int (pos min_confidence_scale)))

  -- `_canonical_bytes`.
  unfoldable pub canonical_bytes : Bytes → ℕ → fl.Float → ℕ → Outcome Bytes
  canonical_bytes asset_hash action confidence timestamp = do
    action_byte ← to_bytes 1 action
    confidence_bytes ← int_to_bytes 4 (confidence_scaled confidence)
    timestamp_bytes ← to_bytes 8 timestamp
    ok (asset_hash ++ (action_byte ++ (confidence_bytes ++ timestamp_bytes)))

module _ (hash_of : Bytes → Outcome Bytes) where
  -- The inner loop of `_build_merkle_batch`: a node over each pair, the last one over a single
  -- hash taken twice where the number is odd.
  unfoldable pub next_level : List Bytes → Outcome (List Bytes)
  next_level [] = ok []
  next_level (left ∷ []) = do node ← hash_of (left ++ left); ok (node ∷ [])
  next_level (left ∷ right ∷ rest) = do
    node ← hash_of (left ++ right)
    nodes ← next_level rest
    ok (node ∷ nodes)

  -- The loop `while len(current) > 1`, on fuel: the levels from `current` up.
  unfoldable pub levels_from : ℕ → List Bytes → Outcome (List (List Bytes))
  levels_from zero current = if ltb 1 (length current) then raise loop_bound else ok (current ∷ [])
  levels_from (suc fuel) current = elim (ltb 1 (length current)) [
    | true ↦ do above ← next_level current; rest ← levels_from fuel above; ok (current ∷ rest)
    | false ↦ ok (current ∷ [])
  ]

-- `DecisionLeaf`; the confidence is a float.
pub record DecisionLeaf (Float : Type 0) : Type 0 where
  pub decision_id : String
  pub asset_hash : Bytes
  pub action : ℕ
  pub confidence : Float
  pub timestamp : ℕ
  pub canonical : Bytes
  pub leaf_hash : Bytes

-- `MerkleBatch`.
pub record MerkleBatch : Type 0 where
  pub batch_id : String
  pub window_start : ℕ
  pub window_end : ℕ
  pub leaf_count : ℕ
  pub merkle_root : Bytes
  pub manifest_uri : String
  pub hash_algorithm : String
  pub created_at : ℕ

-- f"{pending_manifest_prefix}/{batch_id}".
abbrev pub manifest_uri : String → String → String
manifest_uri manifest_prefix batch_id = append_text manifest_prefix (append_text "/" batch_id)

-- `current[0]` of the last level.
abbrev pub last_head : List (List Bytes) → Outcome Bytes
last_head [] = raise index_error
last_head ([] ∷ []) = raise index_error
last_head ((root ∷ _) ∷ []) = ok root
last_head (_ ∷ level ∷ levels) = last_head (level ∷ levels)

module _ {Float : Type 0} where
  abbrev pub leaf_hashes : List (DecisionLeaf Float) → List Bytes
  leaf_hashes = map (λ leaf. leaf.leaf_hash)

  -- `{leaf.decision_id: i for i, leaf in enumerate(leaves)}`.
  abbrev pub index_map : ℕ → List (DecisionLeaf Float) → Dict ℕ → Dict ℕ
  index_map i [] d = d
  index_map i (leaf ∷ leaves) d = index_map (i + 1) leaves (insert leaf.decision_id i d)

  -- `_build_merkle_batch`; `now` is the clock and `manifest_prefix` the configured prefix.
  unfoldable pub build_merkle_batch :
      Digests
      → String
      → String
      → ℕ
      → String
      → List (DecisionLeaf Float)
      → ℕ
      → ℕ
      → Outcome (MerkleBatch × List (List Bytes) × Dict ℕ)
  build_merkle_batch dg algorithm manifest_prefix now batch_id leaves window_start window_end = do
    levels ← levels_from (hash dg algorithm) (length leaves) (leaf_hashes leaves)
    merkle_root ← last_head levels
    ok (
      record {
        batch_id = batch_id;
        window_start = window_start;
        window_end = window_end;
        leaf_count = length leaves;
        merkle_root = merkle_root;
        manifest_uri = manifest_uri manifest_prefix batch_id;
        hash_algorithm = algorithm;
        created_at = now;
      },
      levels,
      index_map 0 leaves [],
    )

-- A row of `merkle_nodes` under its key (level, position).
pub record MerkleNode : Type 0 where
  pub level : ℕ
  pub position : ℕ
  pub node_hash : Bytes
  pub left_hash : Option Bytes
  pub right_hash : Option Bytes
  pub decision_id : Option String
  pub is_leaf : Bool

-- The rows of one level above the leaves: `prev` is the level below.
abbrev pub inner_rows : ℕ → List Bytes → ℕ → List Bytes → List MerkleNode
inner_rows level prev position [] = []
inner_rows level prev position (node_hash ∷ hashes) =
    let left_index = position * 2 in
    let right_index = left_index + 1 in
    record {
      level = level;
      position = position;
      node_hash = node_hash;
      left_hash = get_elem? prev left_index;
      right_hash =
          if ltb right_index (length prev)
          then get_elem? prev right_index
          else get_elem? prev left_index;
      decision_id = none;
      is_leaf = false;
    }
    ∷ inner_rows level prev (suc position) hashes

abbrev pub level_rows : ℕ → List Bytes → List (List Bytes) → List MerkleNode
level_rows level prev [] = []
level_rows level prev (hashes ∷ levels) =
    inner_rows level prev 0 hashes ++ level_rows (suc level) hashes levels

module _ {Float : Type 0} where
  abbrev pub leaf_rows : List (DecisionLeaf Float) → ℕ → List Bytes → List MerkleNode
  leaf_rows leaves position [] = []
  leaf_rows leaves position (node_hash ∷ hashes) =
      record {
        level = 0;
        position = position;
        node_hash = node_hash;
        left_hash = none;
        right_hash = none;
        decision_id = Option.map (λ leaf. leaf.decision_id) (get_elem? leaves position);
        is_leaf = true;
      }
      ∷ leaf_rows leaves (suc position) hashes

  -- The rows that `_persist_batch` inserts into `merkle_nodes`, in order.
  abbrev pub node_rows : List (DecisionLeaf Float) → List (List Bytes) → List MerkleNode
  node_rows leaves [] = []
  node_rows leaves (hashes ∷ levels) = leaf_rows leaves 0 hashes ++ level_rows 1 hashes levels

-- `position ^ 1`: the lowest bit flipped.
abbrev pub flip_low_bit : ℕ → ℕ
flip_low_bit zero = 1
flip_low_bit (suc zero) = 0
flip_low_bit (suc (suc n)) = suc (suc (flip_low_bit n))

-- `list.pop()` on a proof that is not empty.
abbrev pub drop_last {ℓ} : {A : Type ℓ} → List A → List A
drop_last [] = []
drop_last (x ∷ []) = []
drop_last (x ∷ y ∷ ys) = x ∷ drop_last (y ∷ ys)

-- `if sibling is None: sibling = current`.
abbrev pub or_current : Option Bytes → Option Bytes → Option Bytes
or_current none current = current
or_current (some s) current = some s

-- Reading the tree back, by any function that reads the hash of a node.
module _ (read_node : ℕ → ℕ → Outcome (Option Bytes)) where
  -- The loop of `_fetch_proof_hashes`, on fuel. An entry `none` is a Python `None`.
  unfoldable pub proof_loop : ℕ → ℕ → ℕ → Outcome (List (Option Bytes))
  proof_loop zero level position = raise loop_bound
  proof_loop (suc fuel) level position = do
    sibling ← read_node level (flip_low_bit position)
    current ← read_node level position
    next_level_hash ← read_node (suc level) (position / 2)
    elim next_level_hash [
      | none ↦ ok (or_current sibling current ∷ [])
      | some _ ↦ do
        rest ← proof_loop fuel (suc level) (position / 2)
        ok (or_current sibling current ∷ rest)
    ]

  -- The loop from a leaf, and the removal of the last entry.
  unfoldable pub proof_hashes : ℕ → ℕ → Outcome (List (Option Bytes))
  unfolding proof_loop
  proof_hashes fuel leaf_index = do proof ← proof_loop fuel 0 leaf_index; ok (drop_last proof)

-- `select_node` is the `SELECT` on `merkle_nodes` for the batch, by level and position.
module _ (select_node : ℕ → ℕ → Option MerkleNode) where
  -- `_fetch_node_hash`: `row[0]` looks up the key 0, which the dict of a row does not have.
  unfoldable pub fetch_node_hash : ℕ → ℕ → Outcome (Option Bytes)
  fetch_node_hash level position = elim (select_node level position) [
    | none ↦ ok none
    | some row ↦ raise key_error
  ]

  -- `_fetch_proof_hashes`.
  unfoldable pub fetch_proof_hashes : ℕ → ℕ → Outcome (List (Option Bytes))
  unfolding proof_hashes fetch_node_hash
  fetch_proof_hashes fuel leaf_index = proof_hashes fetch_node_hash fuel leaf_index

  -- What a reader gets that takes the column by its name, `row["node_hash"]`.
  abbrev pub stored_node_hash : ℕ → ℕ → Outcome (Option Bytes)
  stored_node_hash level position =
      ok (Option.map (λ row. row.node_hash) (select_node level position))
