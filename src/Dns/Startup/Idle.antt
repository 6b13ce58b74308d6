-- ===== src/Dns/Startup/Idle.antt =====
-- indieweb2-bastion/graphql-dns-api/src: main.rs, what requests do to the enforcer of the server.
use civic_connect.Prelude.{
  String, ◌≡◌, refl, sym, ap, subst, ◌∙◌, List, [], ◌∷◌, Result, ok, err, map_err, bind-ok_inv,
}
use civic_connect.Prelude.HashMap.{get}
use civic_connect.Dns.Policy.{PolicyEnforcer, execute_proposal, can_execute_proposal}
use civic_connect.Dns.Mutations.{propose_as, approve_as, execute_mutation, answer, kept, serve}
use civic_connect.Dns.Startup.{
  Nickel, NickelError, command_error, read_policy, from_nickel_file, start_enforcer, GraphqlRequest,
  propose_request, approve_request, execute_request, in_context, graphql_handler,
}

module _ {J : Type 0} where
  -- No proposal is stored.
  abbrev pub IsIdle : PolicyEnforcer J → Type 0
  IsIdle e = e.proposals ≡ []

  answer_same :
      (e : PolicyEnforcer J) (r : GraphqlRequest J)
      → IsIdle e
      → kept e (answer (in_context r) e) ≡ e
  unfolding answer propose_as approve_as execute_mutation execute_proposal can_execute_proposal get
  answer_same e (propose_request id now name payload) h = refl
  answer_same e (approve_request id) h = refl
  answer_same e (execute_request now id) h = rw (h) refl

  graphql_handler_same :
      (e : PolicyEnforcer J) (rs : List (GraphqlRequest J)) → IsIdle e → graphql_handler e rs ≡ e
  unfolding graphql_handler serve
  graphql_handler_same e [] h = refl
  graphql_handler_same e (r ∷ rs) h =
      ap (λ x. graphql_handler x rs) (answer_same e r h) ∙ graphql_handler_same e rs h

  loaded-IsIdle :
      (n : Nickel) (path : String) (e : PolicyEnforcer J)
      → from_nickel_file n path ≡ ok e
      → IsIdle e
  unfolding from_nickel_file
  loaded-IsIdle n path e h =
      let (output, p, q) = bind-ok_inv (map_err command_error (n.output path)) _ e h in
      let (policy, r, s) = bind-ok_inv (read_policy n output) _ e q in
      let same : ◌≡◌ {A = PolicyEnforcer J} (record { policy = policy; proposals = [] }) e = cc s in
      ap (λ x. x.proposals) (sym same)

  start_enforcer-IsIdle :
      (m : Result NickelError (PolicyEnforcer J))
      → ((e : PolicyEnforcer J) → m ≡ ok e → IsIdle e)
      → IsIdle (start_enforcer m)
  unfolding start_enforcer
  start_enforcer-IsIdle (ok e) h = h e refl
  start_enforcer-IsIdle (err f) h = refl

  -- Whatever the policy file, and whether it loads or not, after any
  -- requests to propose, approve and execute mutations the enforcer is the one with which the server
  -- started, and holds no proposal.
  pub graphql_handler-IsIdle :
      (n : Nickel) (path : String) (rs : List (GraphqlRequest J))
      → (graphql_handler (start_enforcer (from_nickel_file n path)) rs
          ≡ start_enforcer (from_nickel_file n path))
        × IsIdle (graphql_handler (start_enforcer (from_nickel_file n path)) rs)
  graphql_handler-IsIdle n path rs =
      let m : Result NickelError (PolicyEnforcer J) = from_nickel_file n path in
      let same =
        graphql_handler_same (start_enforcer m) rs
          (start_enforcer-IsIdle m (loaded-IsIdle n path)) in
      (same, subst IsIdle (sym same) (start_enforcer-IsIdle m (loaded-IsIdle n path)))
