-- ===== src/Dns/Policy/Governance.antt =====
-- indieweb2-bastion/graphql-dns-api/src/policy.rs: enough privileged approvers and the end of the
-- timelock bring a proposal to its execution.
use civic_connect.Prelude.{
  ℕ, ◌+◌, ◌*◌, ◌%◌, ◌^◌, ◌≤◌, ◌<◌, String, ◌≡◌, refl, sym, ap, subst, ◌∙◌, true, false, ◌⊎◌, inl,
  inr, List, [], ◌∷◌, ◌++◌, map, arith, eq_iff, Bool-cases, some, length, All,
}
use civic_connect.Prelude.HashMap.{get, insert, All-get}
use civic_connect.Dns.Policy.{
  MutationPolicy, Role, ProposalStatus, pending, timelock_active, approved, executed, status_eq,
  MutationProposal, PolicyEnforcer, contains, has_privilege, get_mutation_policy, initial_status,
  new_proposal, store, propose_mutation, add_approval, approve_proposal, propose, approve, execute,
  result, step, run,
}
use mathlib.Core.List.{append-nil, append_assoc}
use civic_connect.Dns.Policy.WellFormed.{
  Distinct, Governed, IsWellFormed, step-IsWellFormed, run-IsWellFormed,
}
use civic_connect.Dns.Policy.Execution.{IsReady, mark_executed, execute_proposal_iff}
use civic_connect.Dns.Policy.Rbac.{In, contains-In}
use civic_connect.Prelude.HashMap.{get-insert}

Distinct-middle :
    (xs : List String) (y : String) (ys : List String) → Distinct (xs ++ y ∷ ys) → ¬ In y xs
Distinct-middle [] y ys d i = i
Distinct-middle (x ∷ xs) y ys d (inl e) = d.0 (In-middle xs)
  where
    In-middle : (zs : List String) → In x (zs ++ y ∷ ys)
    In-middle [] = inl (sym e)
    In-middle (z ∷ zs) = inr (In-middle zs)
Distinct-middle (x ∷ xs) y ys d (inr i) = Distinct-middle xs y ys d.1 i

contains_new : (xs : List String) (w : String) → ¬ In w xs → contains xs w ≡ false
contains_new xs w h = elim (Bool-cases (contains xs w)) [
  | inl old ↦ absurd (h (contains-In xs w old))
  | inr new ↦ new
]

-- Neither rejected nor executed.
abbrev pub IsOpen : ProposalStatus → Type 0
IsOpen s = (s ≡ pending) ⊎ (s ≡ timelock_active) ⊎ (s ≡ approved)

initial_status-IsOpen : (m : MutationPolicy) → IsOpen (initial_status m)
unfolding initial_status
initial_status-IsOpen m = ground arith

module _ {J : Type 0} where
  -- `q'` is `q` with more approvals.
  pub record Extends (q : MutationProposal J) (more : List String) (q' : MutationProposal J)
      : Type 0 where
    pub approvals : q'.approvals ≡ q.approvals ++ more
    pub required : q'.required_approvals ≡ q.required_approvals
    pub until : q'.timelock_until ≡ q.timelock_until
    pub still_open : IsOpen q'.status

  approve_proposal_new :
      (e : PolicyEnforcer J) (id w : String) (q : MutationProposal J)
      → get id e.proposals ≡ some q
      → has_privilege e w q.mutation_name ≡ true
      → contains q.approvals w ≡ false
      → step e (approve id w) ≡ record e { proposals = insert id (add_approval w q) e.proposals }
  unfolding step result approve_proposal
  approve_proposal_new e id w q found may fresh = rw found (rw (may, fresh))

  add_approval-IsOpen :
      (w : String) (q : MutationProposal J) → IsOpen q.status → IsOpen (add_approval w q).status
  unfolding add_approval status_eq
  add_approval-IsOpen w q o = ground arith

  Extends-add_approval :
      (q : MutationProposal J) (w : String) (ws : List String) (q' : MutationProposal J)
      → Extends (add_approval w q) ws q'
      → Extends q (w ∷ ws) q'
  unfolding add_approval
  Extends-add_approval q w ws q' x = record {
    approvals = x.approvals ∙ append_assoc q.approvals (w ∷ []) ws;
    required = x.required;
    until = x.until;
    still_open = x.still_open;
  }

  approve_run :
      (e : PolicyEnforcer J) (id : String) (q : MutationProposal J) (ws : List String)
      → get id e.proposals ≡ some q
      → IsOpen q.status
      → All (λ w. has_privilege e w q.mutation_name ≡ true) ws
      → Distinct (q.approvals ++ ws)
      → (q' : MutationProposal J) × (get id (run e (map (approve id) ws)).proposals ≡ some q')
        × Extends q ws q'
  unfolding run has_privilege add_approval
  approve_run e id q [] found o may d = (
    q,
    found,
    record {
      approvals = sym (append-nil q.approvals);
      required = refl;
      until = refl;
      still_open = o;
    },
  )
  approve_run e id q (w ∷ ws) found o may d =
      let fresh = contains_new q.approvals w (Distinct-middle q.approvals w ws d) in
      let q1 : MutationProposal J = add_approval w q in
      let e1 : PolicyEnforcer J = record e { proposals = insert id q1 e.proposals } in
      let hit : get id e1.proposals ≡ some q1 =
        ground (arith, get-insert id id q1 e.proposals, eq_iff id id) in
      let d1 = subst Distinct (sym (append_assoc q.approvals (w ∷ []) ws)) d in
      let (q', found', x) = approve_run e1 id q1 ws hit (add_approval-IsOpen w q o) may.1 d1 in
      subst
        (λ x.
          (q' : MutationProposal J) × (get id (run x (map (approve id) ws)).proposals ≡ some q')
          × Extends q (w ∷ ws) q')
        (sym (approve_proposal_new e id w q found may.0 fresh))
        (q', found', Extends-add_approval q w ws q' x)

  execute_ready :
      (v : PolicyEnforcer J) (id : String) (q : MutationProposal J) (t : ℕ)
      → get id v.proposals ≡ some q
      → IsReady q t
      → get id (step v (execute id (some t))).proposals ≡ some (mark_executed q)
  unfolding step result
  execute_ready v id q t found r =
      rw ((execute_proposal_iff v id t q found).1 r)
        (ground (arith, get-insert id id (mark_executed q) v.proposals, eq_iff id id))

  -- An open proposal of a well-formed enforcer is ready once the approvals and the time are there.
  Governed-IsReady :
      (roles : List Role) (q : MutationProposal J) (t : ℕ)
      → Governed roles q
      → IsOpen q.status
      → q.required_approvals ≤ length q.approvals
      → length q.approvals < 2 ^ 32
      → q.timelock_until ≤ t
      → IsReady q t
  Governed-IsReady roles q t g o enough small over = record {
    open_status = ground (arith, g.counted);
    enough = omega arith;
    unlocked = over;
  }

  propose_new :
      (e : PolicyEnforcer J) (id name proposer : String) (payload : J) (m : MutationPolicy)
      (now : ℕ)
      → get_mutation_policy e name ≡ some m
      → has_privilege e proposer name ≡ true
      → step e (propose id (some now) name proposer payload)
        ≡ store (new_proposal id now m name proposer payload) e
  unfolding step result propose_mutation
  propose_new e id name proposer payload m now known may = rw (may, known)

  -- A proposal is carried out when enough people want it: after a proposer with the privilege
  -- proposes a known mutation, and distinct others with the privilege approve it until the required
  -- number is reached, an execution at or after the end of the timelock marks it as executed.
  pub governance_live :
      (e : PolicyEnforcer J) (id name proposer : String) (payload : J) (m : MutationPolicy)
      (ws : List String) (now t : ℕ)
      → IsWellFormed e
      → get_mutation_policy e name ≡ some m
      → has_privilege e proposer name ≡ true
      → All (λ w. has_privilege e w name ≡ true) ws
      → Distinct (proposer ∷ ws)
      → m.approvals ≤ 1 + length ws
      → 1 + length ws < 2 ^ 32
      → (now + m.timelock_hours * 3600) % 2 ^ 64 ≤ t
      → let voted =
          run (step e (propose id (some now) name proposer payload)) (map (approve id) ws) in
        (q : MutationProposal J) × (get id (step voted (execute id (some t))).proposals ≡ some q)
        × (q.status ≡ executed)
        × (q.approvals ≡ proposer ∷ ws)
  unfolding store new_proposal has_privilege
  governance_live e id name proposer payload m ws now t w known may all d enough small over =
      let p : MutationProposal J = new_proposal id now m name proposer payload in
      let e0 : PolicyEnforcer J = store p e in
      let proposed = propose_new e id name proposer payload m now known may in
      let w0 =
        subst IsWellFormed proposed
          (step-IsWellFormed e (propose id (some now) name proposer payload) w) in
      let hit : get id e0.proposals ≡ some p =
        ground (arith, get-insert id id p e.proposals, eq_iff id id) in
      let (q, found, x) = approve_run e0 id p ws hit (initial_status-IsOpen m) all d in
      let v : PolicyEnforcer J = run e0 (map (approve id) ws) in
      let wv = run-IsWellFormed e0 (map (approve id) ws) w0 in
      let g = All-get (Governed v.policy.roles) id q v.proposals wv.governed found in
      let count : length q.approvals ≡ 1 + length ws = omega (arith, ap length x.approvals) in
      let ready =
        Governed-IsReady v.policy.roles q t g x.still_open (omega (arith, x.required, count))
          (omega (arith, count)) (omega (arith, x.until)) in
      subst
        (λ y.
          (q : MutationProposal J) × (get id
              (step (run y (map (approve id) ws)) (execute id (some t))).proposals
            ≡ some q)
          × (q.status ≡ executed)
          × (q.approvals ≡ proposer ∷ ws))
        (sym proposed) (mark_executed q, execute_ready v id q t found ready, refl, x.approvals)
