-- ===== src/Dns/Policy/Outcomes.antt =====
-- indieweb2-bastion/graphql-dns-api/src/policy.rs: what a success of each method says, and the
-- rule for a call that may fail.
use civic_connect.Prelude.{
  ℕ, String, ◌≡◌, refl, true, false, inl, inr, arith, Option-cases, Option, some, Result, ok, err,
}
use civic_connect.Prelude.HashMap.{get, insert}
use civic_connect.Dns.Policy.{
  MutationPolicy, executed, MutationProposal, PolicyEnforcer, PolicyError, contains, has_privilege,
  get_mutation_policy, new_proposal, store, propose_mutation, add_approval, approve_proposal,
  can_execute, can_execute_proposal, execute_proposal, Call, propose, approve, execute, result,
  after, step,
}

module _ {J : Type 0} where
  -- What a success of each method says: the guards that were passed, and the new enforcer.
  pub propose_mutation_ok :
      (id : String) (now : Option ℕ) (name proposer : String) (payload : J)
      (e e' : PolicyEnforcer J) (p : MutationProposal J)
      → propose_mutation id now name proposer payload e ≡ ok (p, e')
      → (m : MutationPolicy) × (t : ℕ) × (has_privilege e proposer name ≡ true)
        × (get_mutation_policy e name ≡ some m)
        × (now ≡ some t)
        × (p ≡ new_proposal id t m name proposer payload)
        × (e' ≡ store p e)
  unfolding propose_mutation
  propose_mutation_ok id now name proposer payload e e' p h = ground arith

  pub approve_proposal_ok :
      (id approver : String) (e e' : PolicyEnforcer J) (p : MutationProposal J)
      → approve_proposal id approver e ≡ ok (p, e')
      → (q : MutationProposal J) × (get id e.proposals ≡ some q)
        × (has_privilege e approver q.mutation_name ≡ true)
        × (contains q.approvals approver ≡ false)
        × (p ≡ add_approval approver q)
        × (e' ≡ record e { proposals = insert id p e.proposals })
  unfolding approve_proposal
  approve_proposal_ok id approver e e' p h = elim (Option-cases (get id e.proposals)) [
    | inl missing ↦ (let h' = rw (missing, approve_proposal) at h in cc h')
    | inr (q, found) ↦
        (let h' = rw (found, approve_proposal) at h in
          (
            q,
            found,
            ground (arith, h'),
            ground (arith, h'),
            ground (arith, h'),
            ground (arith, h'),
          ))
  ]

  pub execute_proposal_ok :
      (id : String) (now : Option ℕ) (e e' : PolicyEnforcer J) (p : MutationProposal J)
      → execute_proposal id now e ≡ ok (p, e')
      → (q : MutationProposal J) × (get id e.proposals ≡ some q)
        × (can_execute q now ≡ ok true)
        × (p ≡ record q { status = executed })
        × (e' ≡ record e { proposals = insert id p e.proposals })
  unfolding execute_proposal can_execute_proposal
  execute_proposal_ok id now e e' p h = elim (Option-cases (get id e.proposals)) [
    | inl missing ↦ (let h' = rw (missing, execute_proposal) at h in cc h')
    | inr (q, found) ↦
        (let h' = rw (found, execute_proposal) at h in
          (q, found, ground (arith, h'), ground (arith, h'), ground (arith, h')))
  ]

  -- What holds before a call, and after every success of it, holds after the call.
  pub after_cases :
      (P : PolicyEnforcer J → Type 0) (e : PolicyEnforcer J)
      (r : Result PolicyError (MutationProposal J × PolicyEnforcer J))
      → P e
      → ((p : MutationProposal J) (e' : PolicyEnforcer J) → r ≡ ok (p, e') → P e')
      → P (after e r)
  after_cases P e (ok (p, e')) h k = k p e' refl
  after_cases P e (err x) h k = h

  -- No method changes the policy.
  pub policy-step : (e : PolicyEnforcer J) (c : Call J) → (step e c).policy ≡ e.policy
  unfolding step result store
  policy-step e (propose id now name proposer payload) =
      after_cases (λ x. x.policy ≡ e.policy) e (propose_mutation id now name proposer payload e)
        refl λ p e' h. ground (arith, propose_mutation_ok id now name proposer payload e e' p h)
  policy-step e (approve id approver) =
      after_cases (λ x. x.policy ≡ e.policy) e (approve_proposal id approver e) refl
        λ p e' h. ground (arith, approve_proposal_ok id approver e e' p h)
  policy-step e (execute id now) =
      after_cases (λ x. x.policy ≡ e.policy) e (execute_proposal id now e) refl
        λ p e' h. ground (arith, execute_proposal_ok id now e e' p h)
