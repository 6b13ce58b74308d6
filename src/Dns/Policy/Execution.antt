-- ===== src/Dns/Policy/Execution.antt =====
-- indieweb2-bastion/graphql-dns-api/src/policy.rs: when `execute_proposal` succeeds, and that it
-- succeeds once.
use civic_connect.Prelude.{
  ℕ, ◌+◌, ◌*◌, ◌%◌, ◌^◌, ◌≤◌, ◌<◌, String, ◌≡◌, refl, true, ◌⊎◌, ◌↔◌, List, arith, Option, some, ok,
  err, length, All,
}
use civic_connect.Prelude.HashMap.{get, insert}
use civic_connect.Dns.Policy.{
  MutationPolicy, timelock_active, approved, executed, not_executable_yet, status_eq,
  MutationProposal, PolicyEnforcer, get_mutation_policy, new_proposal, store, propose_mutation,
  add_approval, can_execute, can_execute_proposal, execute_proposal, Call, run,
}
use civic_connect.Dns.Policy.Outcomes.{propose_mutation_ok, execute_proposal_ok}
use civic_connect.Dns.Policy.Stable.{Holds, Spares, get-insert_self, run-Holds}

module _ {J : Type 0} where
  -- The new state of a proposal that has been executed.
  abbrev pub mark_executed : MutationProposal J → MutationProposal J
  mark_executed q = record q { status = executed }

  abbrev pub executed_in : PolicyEnforcer J → String → MutationProposal J → PolicyEnforcer J
  executed_in e id q = record e { proposals = insert id (mark_executed q) e.proposals }

  -- Ready for execution at the time `t`.
  pub record IsReady (q : MutationProposal J) (t : ℕ) : Type 0 where
    pub open_status : (q.status ≡ approved) ⊎ (q.status ≡ timelock_active)
    pub enough : q.required_approvals ≤ length q.approvals % 2 ^ 32
    pub unlocked : q.timelock_until ≤ t

  can_execute-IsReady :
      (q : MutationProposal J) (t : ℕ) → IsReady q t → can_execute q (some t) ≡ ok true
  unfolding can_execute status_eq
  can_execute-IsReady q t r = ground arith

  IsReady-can_execute :
      (q : MutationProposal J) (t : ℕ) → can_execute q (some t) ≡ ok true → IsReady q t
  unfolding can_execute status_eq
  IsReady-can_execute q t h = record {
    open_status = ground arith;
    enough = ground arith;
    unlocked = ground arith;
  }

  pub execute_proposal_iff :
      (e : PolicyEnforcer J) (id : String) (t : ℕ) (q : MutationProposal J)
      → get id e.proposals ≡ some q
      → (execute_proposal id (some t) e ≡ ok (mark_executed q, executed_in e id q)) ↔ IsReady q t
  unfolding execute_proposal can_execute_proposal
  execute_proposal_iff e id t q found = (
    λ h.
        let (q', found', able, _, _) = execute_proposal_ok id (some t) e _ _ h in
        IsReady-can_execute q t (ground (arith, found')),
    λ r. rw found (rw (can_execute-IsReady q t r)),
  )

  abbrev pub IsExecuted : MutationProposal J → Type 0
  IsExecuted q = q.status ≡ executed

  add_approval-IsExecuted :
      (approver : String) (q : MutationProposal J)
      → q.status ≡ executed
      → (add_approval approver q).status ≡ executed
  unfolding add_approval status_eq
  add_approval-IsExecuted approver q h = ground arith

  executed_again :
      (id : String) (e : PolicyEnforcer J) (now : Option ℕ)
      → Holds IsExecuted id e
      → execute_proposal id now e ≡ err not_executable_yet
  unfolding execute_proposal can_execute_proposal can_execute status_eq
  executed_again id e now (q, found, done) = rw found (rw done)

  -- A proposal is executed at most once: after a success of `execute_proposal`, and any calls that do
  -- not propose anew under the same identifier, executing it again is refused at every time.
  pub execute_proposal_once :
      (id : String) (now later : Option ℕ) (e e' : PolicyEnforcer J) (p : MutationProposal J)
      (cs : List (Call J))
      → execute_proposal id now e ≡ ok (p, e')
      → All (Spares id) cs
      → execute_proposal id later (run e' cs) ≡ err not_executable_yet
  execute_proposal_once id now later e e' p cs h s =
      let (q, found, able, made, stored) = execute_proposal_ok id now e e' p h in
      let x : Holds IsExecuted id e' = (p, ground (arith, get-insert_self id p e), ground arith) in
      executed_again id (run e' cs) later
        (run-Holds IsExecuted add_approval-IsExecuted (λ q done. refl) id e' cs s x)

  add_approval-until :
      (u : ℕ) (a : String) (q : MutationProposal J)
      → q.timelock_until ≡ u
      → (add_approval a q).timelock_until ≡ u
  unfolding add_approval
  add_approval-until u a q h = h

  -- The timelock is kept: once a mutation is proposed at the time `now`, whatever calls follow that
  -- do not propose anew under the same identifier, it is executed at the time `t` only if the hours
  -- of its policy have passed (the sum being within u64).
  pub timelock_kept :
      (id name proposer : String) (payload : J) (m : MutationPolicy) (now t : ℕ)
      (e e1 e2 : PolicyEnforcer J) (p q : MutationProposal J) (cs : List (Call J))
      → get_mutation_policy e name ≡ some m
      → now + m.timelock_hours * 3600 < 2 ^ 64
      → propose_mutation id (some now) name proposer payload e ≡ ok (p, e1)
      → All (Spares id) cs
      → execute_proposal id (some t) (run e1 cs) ≡ ok (q, e2)
      → now + m.timelock_hours * 3600 ≤ t
  unfolding new_proposal store
  timelock_kept id name proposer payload m now t e e1 e2 p q cs known small proposed s done =
      let (m', now', may, known', clock, made, stored) =
        propose_mutation_ok id (some now) name proposer payload e e1 p proposed in
      let u : ℕ = now + m.timelock_hours * 3600 in
      let p0 : MutationProposal J = new_proposal id now m name proposer payload in
      let same : p ≡ p0 = ground arith in
      let x : Holds (λ (r : MutationProposal J). r.timelock_until ≡ u) id e1 =
        (p0, ground (arith, get-insert_self id p0 e), omega arith) in
      let (r, at, until) =
        run-Holds (λ (r : MutationProposal J). r.timelock_until ≡ u) (add_approval-until u)
          (λ r h. h) id e1 cs s x in
      let (r', at', able, _, _) = execute_proposal_ok id (some t) (run e1 cs) e2 q done in
      let ready = IsReady-can_execute r' t able in
      let unlocked = ready.unlocked in ground (arith, until, unlocked)
