-- ===== src/Policy/Tests.antt =====
-- A proposal with one signer and with two.
use Prim.Native.String.{String}
use omni_aegis.Prelude.{ℕ, ◌≡◌, refl, true, [], ◌∷◌, Option, some}
use omni_aegis.Policy.{State, returns, propose_policy, collect_signature, anchor_policy_on_chain}
use omni_aegis.Policy.Signers.{collect_all, collect_all-anchor_policy_on_chain}

abbrev always_65 : String → Option ℕ
always_65 s = some 65

abbrev proposed : State
proposed =
    propose_policy "p" "policy" "hash" 5 1 (record { proposals = []; signatures = []; sent = [] })

abbrev signed_by : String → State → State
signed_by signer s = (collect_signature always_65 "p" signer "sig" s).0

program : Unit {0}
unfolding propose_policy collect_signature anchor_policy_on_chain collect_all
program = tt

-- One signature under two names is enough.
two_names :
    (collect_signature always_65 "p" "0xAb" "sig" (signed_by "0xab" proposed)).1
    ≡ returns (record { collected_signatures = 2; ready_to_anchor = true })
unfolding program
two_names = refl

-- A proposal that has been anchored can be anchored again.
anchored_twice :
    (anchor_policy_on_chain true
      (some "tx2")
      "p"
      (anchor_policy_on_chain true (some "tx1") "p" (signed_by "b" (signed_by "a" proposed))).0).1
    ≡ returns "tx2"
unfolding program
anchored_twice = refl

collect_all-anchor_policy_on_chain_example :
    (anchor_policy_on_chain true
      (some "tx")
      "p"
      (collect_all always_65 "p" "a" ("sig" ∷ "other" ∷ []) proposed)).0
    ≡ collect_all always_65 "p" "a" ("sig" ∷ "other" ∷ []) proposed
unfolding program
collect_all-anchor_policy_on_chain_example =
    collect_all-anchor_policy_on_chain always_65 "p" "a" ("sig" ∷ "other" ∷ []) true (some "tx")
      proposed refl
