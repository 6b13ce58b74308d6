-- ===== src/Dns/Mutations/Refinement.antt =====
-- indieweb2-bastion/graphql-dns-api/src/resolvers.rs: requests as calls of the enforcer.
use civic_connect.Prelude.{
  ◌≡◌, refl, ap, ◌∙◌, none, some, List, [], ◌∷◌, ◌++◌, Result, ok, err, map_err,
}
use civic_connect.Dns.Policy.{
  MutationProposal, PolicyEnforcer, PolicyError, propose_mutation, approve_proposal,
  execute_proposal, Call, propose, approve, execute, result, after, step, run,
}
use civic_connect.Dns.Mutations.{
  policy_error, propose_as, approve_as, execute_mutation, Request, ask_propose, ask_approve,
  ask_execute, answer, kept, serve,
}

module _ {J : Type 0} where
  -- The call that a request makes: none without an identity, but for an execution.
  abbrev pub calls_of : Request J → List (Call J)
  calls_of (ask_propose id now none name payload) = []
  calls_of (ask_propose id now (some who) name payload) = propose id now name who payload ∷ []
  calls_of (ask_approve none id) = []
  calls_of (ask_approve (some who) id) = approve id who ∷ []
  calls_of (ask_execute now id) = execute id now ∷ []

  abbrev pub calls : List (Request J) → List (Call J)
  calls [] = []
  calls (r ∷ rs) = calls_of r ++ calls rs

  kept-map_err :
      (e : PolicyEnforcer J) (x : Result PolicyError (MutationProposal J × PolicyEnforcer J))
      → kept e (map_err policy_error x) ≡ after e x
  kept-map_err e (ok (p, e')) = refl
  kept-map_err e (err f) = refl

  kept-answer :
      (e : PolicyEnforcer J) (r : Request J) (cs : List (Call J))
      → run (kept e (answer r e)) cs ≡ run e (calls_of r ++ cs)
  unfolding answer propose_as approve_as execute_mutation run step result
  kept-answer e (ask_propose id now none name payload) cs = refl
  kept-answer e (ask_propose id now (some who) name payload) cs =
      ap (λ s. run s cs) (kept-map_err e (propose_mutation id now name who payload e))
  kept-answer e (ask_approve none id) cs = refl
  kept-answer e (ask_approve (some who) id) cs =
      ap (λ s. run s cs) (kept-map_err e (approve_proposal id who e))
  kept-answer e (ask_execute now id) cs =
      ap (λ s. run s cs) (kept-map_err e (execute_proposal id now e))

  -- The resolvers implement the enforcer: after any requests the enforcer is as after the calls that
  -- they make, in their order, where a proposal or an approval without an identity makes no call and
  -- one with an identity makes the call in its name.
  pub serve_refines : (e : PolicyEnforcer J) (rs : List (Request J)) → serve e rs ≡ run e (calls rs)
  unfolding serve run
  serve_refines e [] = refl
  serve_refines e (r ∷ rs) = serve_refines (kept e (answer r e)) rs ∙ kept-answer e r (calls rs)
