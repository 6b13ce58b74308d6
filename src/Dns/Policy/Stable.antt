-- ===== src/Dns/Policy/Stable.antt =====
-- indieweb2-bastion/graphql-dns-api/src/policy.rs: what stays true of one stored proposal over any
-- calls that do not propose anew under its identifier.
use civic_connect.Prelude.{
  String, ◌≡◌, sym, subst, ◌≢◌, inl, inr, List, [], ◌∷◌, arith, ◌==◌, eq_iff, Bool-cases, some, All,
}
use civic_connect.Prelude.HashMap.{get, insert}
use civic_connect.Dns.Policy.{
  executed, MutationProposal, PolicyEnforcer, new_proposal, store, propose_mutation, add_approval,
  approve_proposal, execute_proposal, Call, propose, approve, execute, result, step, run,
}
use civic_connect.Dns.Policy.Outcomes.{
  propose_mutation_ok, approve_proposal_ok, execute_proposal_ok, after_cases,
}
use civic_connect.Prelude.HashMap.{get-insert}

module _ {J : Type 0} where
  -- The proposal stored under the identifier has the property.
  abbrev pub Holds : (MutationProposal J → Type 0) → String → PolicyEnforcer J → Type 0
  Holds P id e = (q : MutationProposal J) × (get id e.proposals ≡ some q) × P q

  -- No new proposal takes the identifier: `Uuid::new_v4` returns a fresh one.
  abbrev pub Spares : String → Call J → Type 0
  Spares id (propose id' now name proposer payload) = id' ≢ id
  Spares id (approve id' approver) = Unit
  Spares id (execute id' now) = Unit

  pub get-insert_self :
      (id : String) (p : MutationProposal J) (e : PolicyEnforcer J)
      → get id (insert id p e.proposals) ≡ some p
  get-insert_self id p e = ground (arith, get-insert id id p e.proposals, eq_iff id id)

-- A property that survives an approval and an execution of its proposal.
module _ {J : Type 0} (P : MutationProposal J → Type 0)
    (approving : (a : String) (q : MutationProposal J) → P q → P (add_approval a q))
    (executing : (q : MutationProposal J) → P q → P (record q { status = executed })) where
  insert-Holds :
      (id j : String) (e e' : PolicyEnforcer J) (p : MutationProposal J)
      → e' ≡ record e { proposals = insert j p e.proposals }
      → (j ≡ id → P p)
      → Holds P id e
      → Holds P id e'
  insert-Holds id j e e' p stored same (q, found, h) = elim (Bool-cases (j == id)) [
    | inl eq ↦
        let hit : get id (insert j p e.proposals) ≡ some p =
          ground (arith, get-insert j id p e.proposals) in
        (p, ground (arith, hit), same ((eq_iff j id).0 eq))
    | inr ne ↦
        let miss : get id (insert j p e.proposals) ≡ some q =
          ground (arith, get-insert j id p e.proposals) in
        (q, ground (arith, miss), h)
  ]

  at_same :
      (id j : String) (e : PolicyEnforcer J) (q : MutationProposal J)
      → get j e.proposals ≡ some q
      → Holds P id e
      → j ≡ id
      → P q
  at_same id j e q found (q0, found0, h) k = let same : q0 ≡ q = ground arith in subst P same h

  step-Holds :
      (id : String) (e : PolicyEnforcer J) (c : Call J)
      → Spares id c
      → Holds P id e
      → Holds P id (step e c)
  unfolding step result store new_proposal
  step-Holds id e (propose id' now name proposer payload) s x =
      after_cases (Holds P id) e (propose_mutation id' now name proposer payload e) x λ p e' h.
        let (m, t, may, known, clock, made, stored) =
          propose_mutation_ok id' now name proposer payload e e' p h in
        insert-Holds id p.id e e' p stored (λ k. absurd (s (ground arith))) x
  step-Holds id e (approve id' approver) s x =
      after_cases (Holds P id) e (approve_proposal id' approver e) x λ p e' h.
        let (q, found, may, fresh, made, stored) = approve_proposal_ok id' approver e e' p h in
        insert-Holds id id' e e' p stored
          (λ k. subst P (sym made) (approving approver q (at_same id id' e q found x k))) x
  step-Holds id e (execute id' now) s x =
      after_cases (Holds P id) e (execute_proposal id' now e) x λ p e' h.
        let (q, found, able, made, stored) = execute_proposal_ok id' now e e' p h in
        insert-Holds id id' e e' p stored
          (λ k. subst P (sym made) (executing q (at_same id id' e q found x k))) x

  pub run-Holds :
      (id : String) (e : PolicyEnforcer J) (cs : List (Call J))
      → All (Spares id) cs
      → Holds P id e
      → Holds P id (run e cs)
  unfolding run
  run-Holds id e [] s x = x
  run-Holds id e (c ∷ cs) s x = run-Holds id (step e c) cs s.1 (step-Holds id e c s.0 x)
