-- ===== src/Dns/Policy.antt =====
-- indieweb2-bastion/graphql-dns-api/src/policy.rs: the policy, the proposals of mutations, and the
-- enforcer. `JsonValue` of serde_json is the parameter `J`, the clock is the argument `now`
-- (`none` where `duration_since(UNIX_EPOCH)` fails), and the fresh uuid is the argument `id`.
-- A method on `&mut self` returns the new enforcer beside its result; no method changes the
-- enforcer before it fails, so a failure returns the error alone.
pub mod Rbac
pub mod Outcomes
pub mod WellFormed
pub mod Stable
pub mod Execution
pub mod Governance
pub mod Ordering
use civic_connect.Prelude.{
  ℕ, ◌+◌, ◌*◌, ◌%◌, ◌^◌, String, Bool, true, false, not, ◌&&◌, ◌||◌, Option, none, some, List, [],
  ◌∷◌, ◌++◌, length, ltb, leb, if◌then◌else◌, ◌==◌, Result, ok, err, ◌>>=◌, ok_or,
}
unfoldable pub use civic_connect.Prelude.Text.{contains}
use civic_connect.Prelude.HashMap.{HashMap, get, insert, values}

pub record MutationPolicy : Type 0 where
  pub name : String
  pub description : String
  pub approvals : ℕ
  pub timelock_hours : ℕ

pub record Role : Type 0 where
  pub name : String
  pub members : List String
  pub privileges : List String

pub record Route : Type 0 where
  pub path : String
  pub plane : String
  pub methods : List String
  pub guards : List String

pub record ConsentDefaults : Type 0 where
  pub telemetry : String
  pub indexing : String

pub record ConsentBinding : Type 0 where
  pub name : String
  pub manifest_ref : String
  pub required : Bool
  pub defaults : ConsentDefaults

pub record Constraints : Type 0 where
  pub require_mtls : Bool
  pub log_all_mutations : Bool
  pub max_rate_rpm : ℕ

pub record Policy : Type 0 where
  pub version : String
  pub capabilities : HashMap String
  pub mutations : List MutationPolicy
  pub roles : List Role
  pub routes : List Route
  pub consent_bindings : List ConsentBinding
  pub constraints : Constraints

pub data ProposalStatus : Type 0 where
  pending timelock_active approved rejected executed : ProposalStatus

-- The derived `PartialEq`.
unfoldable pub status_eq : ProposalStatus → ProposalStatus → Bool
status_eq pending pending = true
status_eq timelock_active timelock_active = true
status_eq approved approved = true
status_eq rejected rejected = true
status_eq executed executed = true
status_eq _ _ = false

pub record MutationProposal (J : Type 0) : Type 0 where
  pub id : String
  pub mutation_name : String
  pub proposer : String
  pub proposed_at : ℕ
  pub timelock_until : ℕ
  pub approvals : List String
  pub required_approvals : ℕ
  pub status : ProposalStatus
  pub payload : J

pub record PolicyEnforcer (J : Type 0) : Type 0 where
  pub policy : Policy
  pub proposals : HashMap (MutationProposal J)

-- The `anyhow!` messages, one constructor for each.
pub data PolicyError : Type 0 where
  lacks_privilege : String → String → PolicyError
  unknown_mutation : String → PolicyError
  proposal_not_found : String → PolicyError
  already_approved : String → PolicyError
  not_executable_yet : PolicyError
  clock_error : PolicyError

unfoldable pub has_privilege_in : List Role → String → String → Bool
has_privilege_in [] identity privilege = false
has_privilege_in (role ∷ roles) identity privilege =
    if contains role.members identity && contains role.privileges privilege
    then true
    else has_privilege_in roles identity privilege

unfoldable pub find_mutation : List MutationPolicy → String → Option MutationPolicy
find_mutation [] mutation_name = none
find_mutation (m ∷ ms) mutation_name =
    if m.name == mutation_name then some m else find_mutation ms mutation_name

unfoldable pub initial_status : MutationPolicy → ProposalStatus
initial_status m =
    if ltb 0 m.timelock_hours
    then timelock_active
    else if leb m.approvals 1
    then approved
    else pending

module _ {J : Type 0} where
  unfoldable pub has_privilege : PolicyEnforcer J → String → String → Bool
  has_privilege e identity privilege = has_privilege_in e.policy.roles identity privilege

  unfoldable pub get_mutation_policy : PolicyEnforcer J → String → Option MutationPolicy
  get_mutation_policy e mutation_name = find_mutation e.policy.mutations mutation_name

  -- `now + (policy.timelock_hours as u64 * 3600)`, in u64.
  unfoldable pub new_proposal :
      String → ℕ → MutationPolicy → String → String → J → MutationProposal J
  new_proposal id now m mutation_name proposer payload = record {
    id = id;
    mutation_name = mutation_name;
    proposer = proposer;
    proposed_at = now;
    timelock_until = (now + m.timelock_hours * 3600) % 2 ^ 64;
    approvals = proposer ∷ [];
    required_approvals = m.approvals;
    status = initial_status m;
    payload = payload;
  }

  unfoldable pub store : MutationProposal J → PolicyEnforcer J → PolicyEnforcer J
  store p e = record e { proposals = insert p.id p e.proposals }

  unfoldable pub propose_mutation :
      String
      → Option ℕ
      → String
      → String
      → J
      → PolicyEnforcer J
      → Result PolicyError (MutationProposal J × PolicyEnforcer J)
  propose_mutation id now mutation_name proposer payload e =
      if not (has_privilege e proposer mutation_name)
      then err (lacks_privilege proposer mutation_name)
      else do
        m ← ok_or (get_mutation_policy e mutation_name) (unknown_mutation mutation_name)
        t ← ok_or now clock_error
        let p = new_proposal id t m mutation_name proposer payload
        ok (p, store p e)

  -- The two updates of `approve_proposal` through `get_mut`.
  unfoldable pub add_approval : String → MutationProposal J → MutationProposal J
  add_approval approver p =
      let approvals = p.approvals ++ approver ∷ [] in
      let status = p.status in
      record p {
        approvals = approvals;
        status =
            if leb p.required_approvals (length approvals % 2 ^ 32) && status_eq status pending
            then approved
            else status;
      }

  unfoldable pub approve_proposal :
      String
      → String
      → PolicyEnforcer J
      → Result PolicyError (MutationProposal J × PolicyEnforcer J)
  approve_proposal proposal_id approver e = do
    p ← ok_or (get proposal_id e.proposals) (proposal_not_found proposal_id)
    if not (has_privilege e approver p.mutation_name)
        then err (lacks_privilege approver p.mutation_name)
        else if contains p.approvals approver
        then err (already_approved approver)
        else ok (
          add_approval approver p,
          record e { proposals = insert proposal_id (add_approval approver p) e.proposals },
        )

  unfoldable pub can_execute : MutationProposal J → Option ℕ → Result PolicyError Bool
  can_execute p now =
      if not (status_eq p.status approved) && not (status_eq p.status timelock_active)
      then ok false
      else if ltb (length p.approvals % 2 ^ 32) p.required_approvals
      then ok false
      else do t ← ok_or now clock_error; if ltb t p.timelock_until then ok false else ok true

  unfoldable pub can_execute_proposal :
      String → Option ℕ → PolicyEnforcer J → Result PolicyError Bool
  can_execute_proposal proposal_id now e = do
    p ← ok_or (get proposal_id e.proposals) (proposal_not_found proposal_id)
    can_execute p now

  unfoldable pub execute_proposal :
      String
      → Option ℕ
      → PolicyEnforcer J
      → Result PolicyError (MutationProposal J × PolicyEnforcer J)
  execute_proposal proposal_id now e = do
    able ← can_execute_proposal proposal_id now e
    if not able then err not_executable_yet else do
      p ← ok_or (get proposal_id e.proposals) (proposal_not_found proposal_id)
      let done = record p { status = executed }
      ok (done, record e { proposals = insert proposal_id done e.proposals })

  unfoldable pub get_proposals : PolicyEnforcer J → List (MutationProposal J)
  get_proposals e = values e.proposals

  unfoldable pub get_proposal : PolicyEnforcer J → String → Option (MutationProposal J)
  get_proposal e proposal_id = get proposal_id e.proposals

  unfoldable pub check_rate_limit : PolicyEnforcer J → ℕ → Bool
  check_rate_limit e requests_in_window = leb requests_in_window e.policy.constraints.max_rate_rpm

-- A call of one of the three methods that change the enforcer.
pub data Call (J : Type 0) : Type 0 where
  propose : String → Option ℕ → String → String → J → Call J
  approve : String → String → Call J
  execute : String → Option ℕ → Call J

module _ {J : Type 0} where
  unfoldable pub result :
      Call J → PolicyEnforcer J → Result PolicyError (MutationProposal J × PolicyEnforcer J)
  result (propose id now name proposer payload) e = propose_mutation id now name proposer payload e
  result (approve id approver) e = approve_proposal id approver e
  result (execute id now) e = execute_proposal id now e

  abbrev pub after :
      PolicyEnforcer J
      → Result PolicyError (MutationProposal J × PolicyEnforcer J)
      → PolicyEnforcer J
  after e (ok (_, e')) = e'
  after e (err _) = e

  unfoldable pub step : PolicyEnforcer J → Call J → PolicyEnforcer J
  step e c = after e (result c e)

  unfoldable pub run : PolicyEnforcer J → List (Call J) → PolicyEnforcer J
  run e [] = e
  run e (c ∷ cs) = run (step e c) cs
