-- ===== src/Policy.antt =====
-- Policy proposals and their signatures (decision_layer/services/batch_coordinator.py).
-- The two tables are dicts in the order of their inserts: a proposal's signatures by signer, whose
-- place an upsert keeps. `bytes.fromhex`, ids, nonces and the chain are parameters.
pub mod Signers
mod Tests
use Prim.Native.String.{String}
use omni_aegis.Prelude.Dict.{Dict, lookup, insert}
use omni_aegis.Prelude.{
  ℕ, ◌+◌, ◌≡◌, Bool, true, false, not, List, [], ◌∷◌, map, Option, none, some, if◌then◌else◌, ltb,
  leb, ◌==◌, length, take,
}
use omni_aegis.Redis.{is_some}

pub data ProposalStatus : Type 0 where
  pending_signatures : ProposalStatus
  anchored : String → ProposalStatus
  anchor_failed : ProposalStatus

pub record Proposal : Type 0 where
  pub policy_id : String
  pub policy_hash : String
  pub valid_from : ℕ
  pub nonce : ℕ
  pub status : ProposalStatus

-- `sent` are the proposals with the signatures that the chain was sent, the last first.
pub record State : Type 0 where
  pub proposals : Dict Proposal
  pub signatures : Dict (Dict String)
  pub sent : List (String × List String)

pub data PolicyError : Type 0 where
  unknown_proposal_id : PolicyError
  not_hex : PolicyError
  invalid_signature_length : PolicyError
  insufficient_signatures : PolicyError
  not_configured : PolicyError
  chain_failed : PolicyError

pub data Answer {ℓ} (A : Type ℓ) : Type ℓ where
  returns : A → Answer A
  raises : PolicyError → Answer A

-- `propose_policy`: ON CONFLICT DO NOTHING.
unfoldable pub propose_policy : String → String → String → ℕ → ℕ → State → State
propose_policy proposal_id policy_id policy_hash valid_from nonce s =
    if is_some (lookup proposal_id s.proposals) then s else record s {
      proposals =
          insert proposal_id
            (record {
              policy_id = policy_id;
              policy_hash = policy_hash;
              valid_from = valid_from;
              nonce = nonce;
              status = pending_signatures;
            })
            s.proposals;
    }

-- The rows of `proposal_signatures` of a proposal.
abbrev pub or_no_rows : Option (Dict String) → Dict String
or_no_rows none = []
or_no_rows (some rows) = rows

abbrev pub rows_of : String → State → Dict String
rows_of proposal_id s = or_no_rows (lookup proposal_id s.signatures)

-- `_count_proposal_signatures` and `_fetch_proposal_signatures`.
abbrev pub count_proposal_signatures : String → State → ℕ
count_proposal_signatures proposal_id s = length (rows_of proposal_id s)

abbrev pub fetch_proposal_signatures : String → State → List String
fetch_proposal_signatures proposal_id s = take 3 (map (λ row. row.1) (rows_of proposal_id s))

-- `_store_proposal_signature`.
abbrev pub store_proposal_signature : String → String → String → State → State
store_proposal_signature proposal_id signer signature s = record s {
  signatures = insert proposal_id (insert signer signature (rows_of proposal_id s)) s.signatures;
}

-- What `collect_signature` returns.
pub record Collected : Type 0 where
  pub collected_signatures : ℕ
  pub ready_to_anchor : Bool

module _ (hex_length : String → Option ℕ) where
  -- A signature is looked at for its length only.
  abbrev pub check_length : Option ℕ → Option PolicyError
  check_length none = some not_hex
  check_length (some n) = if n == 65 then none else some invalid_signature_length

  -- `collect_signature`.
  unfoldable pub collect_signature : String → String → String → State → State × Answer Collected
  collect_signature proposal_id signer signature s = elim (lookup proposal_id s.proposals) [
    | none ↦ (s, raises unknown_proposal_id)
    | some proposal ↦ elim (check_length (hex_length signature)) [
      | some error ↦ (s, raises error)
      | none ↦
          let s' = store_proposal_signature proposal_id signer signature s in
          let collected = count_proposal_signatures proposal_id s' in
          (
            s',
            returns
                (record { collected_signatures = collected; ready_to_anchor = leb 2 collected }),
          )
    ]
  ]

-- `_mark_proposal_anchored` and `_mark_proposal_anchor_failed`.
abbrev pub mark_proposal : String → Proposal → ProposalStatus → State → State
mark_proposal proposal_id proposal status s = record s {
  proposals = insert proposal_id (record proposal { status = status }) s.proposals;
}

-- `anchor_policy_on_chain`; the chain accepts the transaction or something raises.
unfoldable pub anchor_policy_on_chain :
    Bool → Option String → String → State → State × Answer String
anchor_policy_on_chain configured chain proposal_id s = elim (lookup proposal_id s.proposals) [
  | none ↦ (s, raises unknown_proposal_id)
  | some proposal ↦
      if ltb (length (fetch_proposal_signatures proposal_id s)) 2
      then (s, raises insufficient_signatures)
      else if not configured
      then (s, raises not_configured)
      else elim chain [
        | none ↦ (mark_proposal proposal_id proposal anchor_failed s, raises chain_failed)
        | some tx_hash ↦
            let s' = record s {
              sent = (proposal_id, fetch_proposal_signatures proposal_id s) ∷ s.sent;
            } in
            (mark_proposal proposal_id proposal (anchored tx_hash) s', returns tx_hash)
      ]
]
