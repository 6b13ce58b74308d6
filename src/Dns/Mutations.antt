-- ===== src/Dns/Mutations.antt =====
-- indieweb2-bastion/graphql-dns-api/src/resolvers.rs: the three mutations that call the policy
-- enforcer. The identity in the context of a request is an optional argument.
pub mod Refinement
use civic_connect.Prelude.{
  ℕ, String, Option, none, some, List, [], ◌∷◌, Result, ok, err, map_err, ok_or, ◌>>=◌,
}
use civic_connect.Dns.Policy.{
  MutationProposal, PolicyEnforcer, PolicyError, propose_mutation, approve_proposal,
  execute_proposal,
}

pub data MutationError : Type 0 where
  authentication_required : MutationError
  policy_error : PolicyError → MutationError

module _ {J : Type 0} where
  unfoldable pub propose_as :
      String
      → Option ℕ
      → Option String
      → String
      → J
      → PolicyEnforcer J
      → Result MutationError (MutationProposal J × PolicyEnforcer J)
  propose_as id now identity mutation_name payload e = do
    who ← ok_or identity authentication_required
    map_err policy_error (propose_mutation id now mutation_name who payload e)

  unfoldable pub approve_as :
      Option String
      → String
      → PolicyEnforcer J
      → Result MutationError (MutationProposal J × PolicyEnforcer J)
  approve_as identity proposal_id e = do
    who ← ok_or identity authentication_required
    map_err policy_error (approve_proposal proposal_id who e)

  unfoldable pub execute_mutation :
      Option ℕ
      → String
      → PolicyEnforcer J
      → Result MutationError (MutationProposal J × PolicyEnforcer J)
  execute_mutation now proposal_id e = map_err policy_error (execute_proposal proposal_id now e)

-- A request of one of the three mutations.
pub data Request (J : Type 0) : Type 0 where
  ask_propose : String → Option ℕ → Option String → String → J → Request J
  ask_approve : Option String → String → Request J
  ask_execute : Option ℕ → String → Request J

module _ {J : Type 0} where
  unfoldable pub answer :
      Request J → PolicyEnforcer J → Result MutationError (MutationProposal J × PolicyEnforcer J)
  answer (ask_propose id now identity name payload) e = propose_as id now identity name payload e
  answer (ask_approve identity id) e = approve_as identity id e
  answer (ask_execute now id) e = execute_mutation now id e

  -- The enforcer after an answer: the new one, or the old one after an error.
  abbrev pub kept :
      PolicyEnforcer J
      → Result MutationError (MutationProposal J × PolicyEnforcer J)
      → PolicyEnforcer J
  kept e (ok (_, e')) = e'
  kept e (err _) = e

  unfoldable pub serve : PolicyEnforcer J → List (Request J) → PolicyEnforcer J
  serve e [] = e
  serve e (r ∷ rs) = serve (kept e (answer r e)) rs
