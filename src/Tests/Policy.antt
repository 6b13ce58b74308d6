-- ===== src/Tests/Policy.antt =====
-- Inputs for indieweb2-bastion/graphql-dns-api/src/policy.rs.
use civic_connect.Prelude.{
  ℕ, ◌+◌, ◌*◌, ◌≤◌, ◌≡◌, refl, ◌↔◌, true, inl, inr, some, List, [], ◌∷◌, ◌++◌, map, arith, eq_iff,
  ok, err,
}
use civic_connect.Prelude.HashMap.{get, insert}
use civic_connect.Dns.Policy.{
  MutationPolicy, Role, Policy, timelock_active, executed, not_executable_yet, MutationProposal,
  PolicyEnforcer, contains, has_privilege_in, has_privilege, find_mutation, get_mutation_policy,
  initial_status, new_proposal, store, propose_mutation, add_approval, approve_proposal,
  can_execute, can_execute_proposal, execute_proposal, status_eq, Call, propose, approve, execute,
  result, step, run,
}
use civic_connect.Dns.Policy.WellFormed.{IsWellFormed, run-IsWellFormed}
use civic_connect.Dns.Policy.Execution.{
  IsReady, mark_executed, executed_in, execute_proposal_iff, execute_proposal_once, timelock_kept,
}
use civic_connect.Dns.Policy.Governance.{governance_live}
use civic_connect.Dns.Policy.Ordering.{Alike, approvals_commute}

abbrev change : MutationPolicy
change = record { name = "mutate_dns"; description = ""; approvals = 2; timelock_hours = 24 }

abbrev maintainer : Role
maintainer = record {
  name = "maintainer";
  members = "alice" ∷ "bob" ∷ [];
  privileges = "mutate_dns" ∷ [];
}

abbrev rules : Policy
rules = record {
  version = "0.1.0";
  capabilities = [];
  mutations = change ∷ [];
  roles = maintainer ∷ [];
  routes = [];
  consent_bindings = [];
  constraints = record { require_mtls = true; log_all_mutations = true; max_rate_rpm = 120 };
}

abbrev start : PolicyEnforcer ℕ
start = record { policy = rules; proposals = [] }

-- A proposal of alice at the time 100 that bob has approved.
abbrev ready : MutationProposal ℕ
ready = record {
  id = "p1";
  mutation_name = "mutate_dns";
  proposer = "alice";
  proposed_at = 100;
  timelock_until = 86500;
  approvals = "alice" ∷ "bob" ∷ [];
  required_approvals = 2;
  status = timelock_active;
  payload = 7;
}

abbrev loaded : PolicyEnforcer ℕ
loaded = record { policy = rules; proposals = ("p1", ready) ∷ [] }

start-IsWellFormed : IsWellFormed start
start-IsWellFormed = record { words = ((omega arith, omega arith), tt); governed = tt }

abbrev history : List (Call ℕ)
history =
    propose "p1" (some 100) "mutate_dns" "alice" 7
    ∷ approve "p1" "bob"
    ∷ approve "p1" "mallory"
    ∷ execute "p1" (some 200)
    ∷ execute "p1" (some 90000)
    ∷ []

run-IsWellFormed_example : IsWellFormed (run start history)
run-IsWellFormed_example = run-IsWellFormed start history start-IsWellFormed

found : get "p1" loaded.proposals ≡ some ready
unfolding get
found = refl

execute_proposal_iff_example :
    (execute_proposal "p1" (some 86500) loaded
      ≡ ok (mark_executed ready, executed_in loaded "p1" ready))
    ↔ IsReady ready 86500
execute_proposal_iff_example = execute_proposal_iff loaded "p1" 86500 ready found

executes :
    execute_proposal "p1" (some 86500) loaded
    ≡ ok (mark_executed ready, executed_in loaded "p1" ready)
executes =
    execute_proposal_iff_example.1
      (record { open_status = inr refl; enough = omega arith; unlocked = omega arith })

execute_proposal_once_example :
    execute_proposal "p1"
      (some 99999)
      (run (executed_in loaded "p1" ready) (approve "p1" "alice" ∷ []))
    ≡ err not_executable_yet
execute_proposal_once_example =
    execute_proposal_once "p1" (some 86500) (some 99999) loaded (executed_in loaded "p1" ready)
      (mark_executed ready) (approve "p1" "alice" ∷ []) executes (tt, tt)

known : get_mutation_policy start "mutate_dns" ≡ some change
unfolding get_mutation_policy find_mutation
known = refl

abbrev fresh : MutationProposal ℕ
fresh = record ready { approvals = "alice" ∷ [] }

proposes :
    propose_mutation "p1" (some 100) "mutate_dns" "alice" 7 start
    ≡ ok (fresh, record start { proposals = ("p1", fresh) ∷ [] })
unfolding propose_mutation has_privilege has_privilege_in contains get_mutation_policy find_mutation
    new_proposal initial_status store insert
proposes = refl

executes_history :
    execute_proposal "p1"
      (some 86500)
      (run (record start { proposals = ("p1", fresh) ∷ [] }) (approve "p1" "bob" ∷ []))
    ≡ ok (mark_executed ready, executed_in loaded "p1" ready)
unfolding execute_proposal can_execute_proposal can_execute status_eq run step result
    approve_proposal has_privilege has_privilege_in contains add_approval get insert
executes_history = refl

timelock_kept_example : 100 + 24 * 3600 ≤ 86500
timelock_kept_example =
    timelock_kept "p1" "mutate_dns" "alice" 7 change 100 86500 start
      (record start { proposals = ("p1", fresh) ∷ [] }) (executed_in loaded "p1" ready) fresh
      (mark_executed ready) (approve "p1" "bob" ∷ []) known (omega arith) proposes (tt, tt)
      executes_history

may_propose : has_privilege start "alice" "mutate_dns" ≡ true
unfolding has_privilege has_privilege_in contains
may_propose = refl

may_approve : has_privilege start "bob" "mutate_dns" ≡ true
unfolding has_privilege has_privilege_in contains
may_approve = refl

governance_live_example :
    (q : MutationProposal ℕ) × (get "p1"
        (step
          (run
            (step start (propose "p1" (some 100) "mutate_dns" "alice" 7))
            (map (approve "p1") ("bob" ∷ [])))
          (execute "p1" (some 86500))).proposals
      ≡ some q)
    × (q.status ≡ executed)
    × (q.approvals ≡ "alice" ∷ "bob" ∷ [])
governance_live_example =
    governance_live start "p1" "mutate_dns" "alice" 7 change ("bob" ∷ []) 100 86500
      start-IsWellFormed known may_propose (may_approve, tt)
      ((λ i. elim i [ inl e ↦ ground (arith, eq_iff "bob" "alice") | inr j ↦ j ]), (λ i. i, tt))
      (omega arith) (omega arith) (omega arith)

-- A policy of three maintainers.
abbrev three : PolicyEnforcer ℕ
three = record {
  policy = record rules {
    roles = record maintainer { members = "alice" ∷ "bob" ∷ "carol" ∷ [] } ∷ [];
  };
  proposals = [];
}

abbrev proposed : List (Call ℕ)
proposed = propose "p1" (some 100) "mutate_dns" "alice" 7 ∷ []

approvals_commute_example :
    Alike
      (run three
        (proposed ++ approve "p1" "bob" ∷ approve "p1" "carol" ∷ execute "p1" (some 90000) ∷ []))
      (run three
        (proposed ++ approve "p1" "carol" ∷ approve "p1" "bob" ∷ execute "p1" (some 90000) ∷ []))
approvals_commute_example =
    approvals_commute three proposed (execute "p1" (some 90000) ∷ []) "p1" "bob" "p1" "carol"
