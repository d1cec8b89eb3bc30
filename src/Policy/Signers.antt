-- ===== src/Policy/Signers.antt =====
-- How many signers a proposal needs.
use Prim.Native.String.{String}
use omni_aegis.Prelude.{
  ℕ, ◌≡◌, refl, Bool, true, ◌⊎◌, inl, inr, List, [], ◌∷◌, map, Option, Option-cases, length, take,
  ltb,
}
use omni_aegis.Prelude.Dict.{Dict, lookup, insert, lookup-insert, str_eq_refl}
use omni_aegis.Policy.{
  State, rows_of, store_proposal_signature, check_length, collect_signature, anchor_policy_on_chain,
}

module _ (hex_length : String → Option ℕ) (proposal_id signer : String) where
  -- One signer sends signatures, one after the other.
  unfoldable pub collect_all : List String → State → State
  collect_all [] s = s
  collect_all (signature ∷ signatures) s =
      collect_all signatures (collect_signature hex_length proposal_id signer signature s).0

  abbrev OneSigner : Dict String → Type 0
  OneSigner rows = (rows ≡ []) ⊎ ((signature : String) × (rows ≡ (signer, signature) ∷ []))

  insert-OneSigner :
      (signature : String) (rows : Dict String)
      → OneSigner rows
      → OneSigner (insert signer signature rows)
  insert-OneSigner signature rows (inl e) = rw (e) (inr (signature, refl))
  insert-OneSigner signature rows (inr (old, e)) =
      rw (e, str_eq_refl signer) (inr (signature, refl))

  store-OneSigner :
      (signature : String) (s : State)
      → OneSigner (rows_of proposal_id s)
      → OneSigner (rows_of proposal_id (store_proposal_signature proposal_id signer signature s))
  store-OneSigner signature s h =
      rw
        (
          lookup-insert proposal_id proposal_id (insert signer signature (rows_of proposal_id s))
              s.signatures,
          str_eq_refl proposal_id,
        )
        (insert-OneSigner signature (rows_of proposal_id s) h)

  collect_signature-OneSigner :
      (signature : String) (s : State)
      → OneSigner (rows_of proposal_id s)
      → OneSigner
          (rows_of proposal_id (collect_signature hex_length proposal_id signer signature s).0)
  unfolding collect_signature
  collect_signature-OneSigner signature s h = elim (Option-cases (lookup proposal_id s.proposals)) [
    | inl unknown ↦ rw (collect_signature, unknown) h
    | inr (proposal, known) ↦ elim (Option-cases (check_length hex_length (hex_length signature))) [
      | inl sound ↦ rw (collect_signature, known, sound) (store-OneSigner signature s h)
      | inr (error, bad) ↦ rw (collect_signature, known, bad) h
    ]
  ]

  collect_all-OneSigner :
      (signatures : List String) (s : State)
      → OneSigner (rows_of proposal_id s)
      → OneSigner (rows_of proposal_id (collect_all signatures s))
  unfolding collect_all
  collect_all-OneSigner [] s h = h
  collect_all-OneSigner (signature ∷ signatures) s h =
      collect_all-OneSigner signatures
        (collect_signature hex_length proposal_id signer signature s).0
        (collect_signature-OneSigner signature s h)

  too_few :
      (rows : Dict String)
      → OneSigner rows
      → ltb (length (take 3 (map (λ row. row.1) rows))) 2 ≡ true
  too_few rows (inl e) = rw (e)
  too_few rows (inr (signature, e)) = rw (e)

  anchor-OneSigner :
      (configured : Bool) (chain : Option String) (s : State)
      → OneSigner (rows_of proposal_id s)
      → (anchor_policy_on_chain configured chain proposal_id s).0 ≡ s
  unfolding anchor_policy_on_chain
  anchor-OneSigner configured chain s h = elim (Option-cases (lookup proposal_id s.proposals)) [
    | inl unknown ↦ rw (anchor_policy_on_chain, unknown)
    | inr (proposal, known) ↦ rw (anchor_policy_on_chain, known, too_few (rows_of proposal_id s) h)
  ]

  -- One signer's address, spelled in one way, does not anchor a policy: if a proposal has no
  -- signatures, then after any number of calls of `collect_signature` with the same text for the
  -- signer, whatever their signatures are, the attempt to anchor it changes nothing, so
  -- that nothing is sent to the chain and the proposal is not marked.
  pub collect_all-anchor_policy_on_chain :
      (signatures : List String) (configured : Bool) (chain : Option String) (s : State)
      → rows_of proposal_id s ≡ []
      → (anchor_policy_on_chain configured chain proposal_id (collect_all signatures s)).0
        ≡ collect_all signatures s
  collect_all-anchor_policy_on_chain signatures configured chain s h =
      anchor-OneSigner configured chain (collect_all signatures s)
        (collect_all-OneSigner signatures s (inl h))
