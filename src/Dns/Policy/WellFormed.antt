-- ===== src/Dns/Policy/WellFormed.antt =====
-- indieweb2-bastion/graphql-dns-api/src/policy.rs: what every stored proposal satisfies.
use civic_connect.Prelude.{
  ℕ, ◌^◌, ◌≤◌, ◌<◌, String, ◌≡◌, sym, subst, true, false, ◌⊎◌, inl, inr, List, [], ◌∷◌, ◌++◌, arith,
  ◌==◌, Bool-cases, Option, some, ok, length, length-append, All, All-snoc,
}
pub use civic_connect.Prelude.Text.{Distinct}
use civic_connect.Prelude.HashMap.{insert, values, All-insert, All-get}
use civic_connect.Dns.Policy.{
  MutationPolicy, Role, ProposalStatus, pending, timelock_active, approved, rejected, executed,
  status_eq, MutationProposal, PolicyEnforcer, contains, has_privilege, get_mutation_policy,
  find_mutation, initial_status, new_proposal, store, add_approval, can_execute, Call, propose,
  approve, execute, result, step, run,
}
use civic_connect.Dns.Policy.Outcomes.{
  propose_mutation_ok, approve_proposal_ok, execute_proposal_ok, after_cases,
}
use civic_connect.Dns.Policy.Rbac.{In, In-contains, Grants, has_privilege_iff}

In-snoc : (xs : List String) (x y : String) → In x (xs ++ y ∷ []) → In x xs ⊎ (y ≡ x)
In-snoc [] x y (inl e) = inr e
In-snoc [] x y (inr i) = elim i [ ]
In-snoc (z ∷ zs) x y (inl e) = inl (inl e)
In-snoc (z ∷ zs) x y (inr i) = elim (In-snoc zs x y i) [ inl j ↦ inl (inr j) | inr e ↦ inr e ]

pub Distinct-snoc :
    (xs : List String) (y : String) → Distinct xs → ¬ In y xs → Distinct (xs ++ y ∷ [])
Distinct-snoc [] y d h = (λ i. i, tt)
Distinct-snoc (x ∷ xs) y d h = (
  λ i. elim (In-snoc xs x y i) [ inl j ↦ d.0 j | inr e ↦ h (inl (sym e)) ],
  Distinct-snoc xs y d.1 (λ i. h (inr i)),
)

-- How many approvals each status goes with.
abbrev pub Counted : ProposalStatus → ℕ → ℕ → Type 0
Counted pending required given = given < required
Counted timelock_active required given = Unit
Counted approved required given = required ≤ given
Counted rejected required given = ⊥
Counted executed required given = required ≤ given

-- A stored proposal: its approvers are distinct, each has the privilege, and the status agrees with
-- their number.
pub record Governed {J : Type 0} (roles : List Role) (p : MutationProposal J) : Type 0 where
  pub distinct : Distinct p.approvals
  pub privileged : All (λ a. Grants a p.mutation_name roles) p.approvals
  pub word : p.required_approvals < 2 ^ 32
  pub counted : Counted p.status p.required_approvals (length p.approvals)

-- The `u32` fields of a mutation's policy.
abbrev pub IsU32 : MutationPolicy → Type 0
IsU32 m = (m.approvals < 2 ^ 32) × (m.timelock_hours < 2 ^ 32)

pub record IsWellFormed {J : Type 0} (e : PolicyEnforcer J) : Type 0 where
  pub words : All IsU32 e.policy.mutations
  pub governed : All (Governed e.policy.roles) (values e.proposals)

find_mutation-IsU32 :
    (ms : List MutationPolicy) (name : String) (m : MutationPolicy)
    → All IsU32 ms
    → find_mutation ms name ≡ some m
    → IsU32 m
unfolding find_mutation
find_mutation-IsU32 [] name m h e = cc
find_mutation-IsU32 (x ∷ ms) name m h e = elim (Bool-cases (x.name == name)) [
  | inl hit ↦ (let same : x ≡ m = ground arith in subst IsU32 same h.0)
  | inr miss ↦ find_mutation-IsU32 ms name m h.1 (rw miss at e)
]

initial_status-Counted : (m : MutationPolicy) → Counted (initial_status m) m.approvals 1
unfolding initial_status
initial_status-Counted m = ground arith

module _ {J : Type 0} where
  new_proposal-Governed :
      (e : PolicyEnforcer J) (id : String) (t : ℕ) (m : MutationPolicy) (name proposer : String)
      (payload : J)
      → has_privilege e proposer name ≡ true
      → IsU32 m
      → Governed e.policy.roles (new_proposal id t m name proposer payload)
  unfolding new_proposal
  new_proposal-Governed e id t m name proposer payload h w = record {
    distinct = (λ i. i, tt);
    privileged = ((has_privilege_iff e proposer name).0 h, tt);
    word = w.0;
    counted = initial_status-Counted m;
  }

  add_approval-Counted :
      (approver : String) (p : MutationProposal J)
      → p.required_approvals < 2 ^ 32
      → Counted p.status p.required_approvals (length p.approvals)
      → Counted
          (add_approval approver p).status
          p.required_approvals
          (length (p.approvals ++ approver ∷ []))
  unfolding add_approval status_eq
  add_approval-Counted approver p w c = ground (arith, length-append p.approvals (approver ∷ []))

  add_approval-Governed :
      (e : PolicyEnforcer J) (approver : String) (p : MutationProposal J)
      → has_privilege e approver p.mutation_name ≡ true
      → contains p.approvals approver ≡ false
      → Governed e.policy.roles p
      → Governed e.policy.roles (add_approval approver p)
  unfolding add_approval
  add_approval-Governed e approver p h new g = record {
    distinct =
        Distinct-snoc p.approvals approver g.distinct
          (λ i. cc (new, In-contains p.approvals approver i));
    privileged =
        All-snoc (λ a. Grants a p.mutation_name e.policy.roles) p.approvals approver g.privileged
          ((has_privilege_iff e approver p.mutation_name).0 h);
    word = g.word;
    counted = add_approval-Counted approver p g.word g.counted;
  }

  executed-Governed :
      (roles : List Role) (q : MutationProposal J) (now : Option ℕ)
      → can_execute q now ≡ ok true
      → Governed roles q
      → Governed roles (record q { status = executed })
  unfolding can_execute status_eq
  executed-Governed roles q now h g = record {
    distinct = g.distinct;
    privileged = g.privileged;
    word = g.word;
    counted = ground (arith, g.counted);
  }

  store-IsWellFormed :
      (e e' : PolicyEnforcer J) (id : String) (p : MutationProposal J)
      → IsWellFormed e
      → Governed e.policy.roles p
      → e' ≡ record e { proposals = insert id p e.proposals }
      → IsWellFormed e'
  store-IsWellFormed e e' id p w g h = subst IsWellFormed (sym h) (record {
    words = w.words;
    governed = All-insert (Governed e.policy.roles) id p e.proposals w.governed g;
  })

  -- Each call keeps the enforcer well-formed, whether it succeeds or fails.
  pub step-IsWellFormed :
      (e : PolicyEnforcer J) (c : Call J) → IsWellFormed e → IsWellFormed (step e c)
  unfolding step result store get_mutation_policy
  step-IsWellFormed e (propose id now name proposer payload) w =
      after_cases IsWellFormed e _ w λ p e' h.
        let (m, t, may, known, clock, made, stored) =
          propose_mutation_ok id now name proposer payload e e' p h in
        let word = find_mutation-IsU32 e.policy.mutations name m w.words known in
        store-IsWellFormed e e' p.id p w
          (subst (Governed e.policy.roles) (sym made)
            (new_proposal-Governed e id t m name proposer payload may word))
          stored
  step-IsWellFormed e (approve id approver) w = after_cases IsWellFormed e _ w λ p e' h.
      let (q, found, may, fresh, made, stored) = approve_proposal_ok id approver e e' p h in
      let old = All-get (Governed e.policy.roles) id q e.proposals w.governed found in
      store-IsWellFormed e e' id p w
        (subst (Governed e.policy.roles) (sym made)
          (add_approval-Governed e approver q may fresh old))
        stored
  step-IsWellFormed e (execute id now) w = after_cases IsWellFormed e _ w λ p e' h.
      let (q, found, able, made, stored) = execute_proposal_ok id now e e' p h in
      let old = All-get (Governed e.policy.roles) id q e.proposals w.governed found in
      store-IsWellFormed e e' id p w
        (subst (Governed e.policy.roles) (sym made)
          (executed-Governed e.policy.roles q now able old))
        stored

  -- From a well-formed enforcer, after any calls, failing ones included, the enforcer is
  -- well-formed: every stored proposal has distinct approvers, each of them with the privilege for
  -- its mutation, and a status that agrees with their number (fewer than required while pending, at
  -- least as many as required once approved or executed, and never rejected).
  pub run-IsWellFormed :
      (e : PolicyEnforcer J) (cs : List (Call J)) → IsWellFormed e → IsWellFormed (run e cs)
  unfolding run
  run-IsWellFormed e [] w = w
  run-IsWellFormed e (c ∷ cs) w = run-IsWellFormed (step e c) cs (step-IsWellFormed e c w)
