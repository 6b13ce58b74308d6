-- ===== src/Dns/Policy/Ordering.antt =====
-- indieweb2-bastion/graphql-dns-api/src/policy.rs: the order in which approvals arrive.
pub mod Slots
use civic_connect.Prelude.{
  ℕ, zero, suc, ◌+◌, ◌-◌, ◌*◌, ◌/◌, ◌%◌, ◌^◌, ◌≤◌, ◌<◌, String, ◌≡◌, refl, sym, ap, subst, ◌∙◌, ◌≢◌,
  ◌↔◌, ◌⊎◌, inl, inr, Bool, true, false, not, ◌&&◌, ◌||◌, Option, none, some, List, [], ◌∷◌, ◌++◌,
  map, ◌==◌, eq_iff, ltb, leb, eqb, if◌then◌else◌, Bool-cases, Option-cases, length, take, drop,
  replicate, length-append, length-take, take-append-drop, take-append, drop-append,
  length-replicate, All, reverse, Result, ok, err, ok_or, map_err, is_ok, ◌>>=◌, ◌>>◌, bind-ok,
  bind-err, bind-ok_inv, ok_or-ok_inv, map_err-ok_inv, map_err-ok, map_err-err,
}
use native.Mathlib.Omega.{arith}
use std.Path.{ap₂}
use civic_connect.Prelude.HashMap.{HashMap, get, insert, get-insert}
use civic_connect.Dns.Policy.{
  Policy, MutationProposal, PolicyEnforcer, store, Call, propose, approve, execute, step, run,
}
use civic_connect.Dns.Policy.Outcomes.{policy-step}
use Slots.{
  AlikeProposal, AlikeSlot, AlikeSlot-refl, slot_approve, slot_execute, drafted, kept,
  slot_approve-Alike, slot_approve-swap, slot_execute-Alike, get-approve, get-execute, step-propose,
  eq_comm,
}

module _ {J : Type 0} where
  -- The enforcers have one policy, and their stored proposals agree but for the order of approvals.
  pub record Alike (e e' : PolicyEnforcer J) : Type 0 where
    pub same_policy : e.policy ≡ e'.policy
    pub same_proposals : (id : String) → AlikeSlot (get id e.proposals) (get id e'.proposals)

  if-Alike :
      (c : Bool) (s s' t t' : Option (MutationProposal J))
      → AlikeSlot s s'
      → AlikeSlot t t'
      → AlikeSlot (if c then s else t) (if c then s' else t')
  if-Alike true s s' t t' h k = h
  if-Alike false s s' t t' h k = k

  AlikeSlot-eq :
      (s s' t t' : Option (MutationProposal J)) → s ≡ s' → t ≡ t' → AlikeSlot s' t' → AlikeSlot s t
  AlikeSlot-eq s s' t t' p q h = rw (p, q) h

  store-Alike :
      (p : Option (MutationProposal J)) (e e' : PolicyEnforcer J) (j : String)
      → Alike e e'
      → AlikeSlot (get j (kept p e).proposals) (get j (kept p e').proposals)
  unfolding store
  store-Alike none e e' j h = h.same_proposals j
  store-Alike (some q) e e' j h =
      AlikeSlot-eq _ _ _ _ (get-insert q.id j q e.proposals) (get-insert q.id j q e'.proposals)
        (if-Alike (q.id == j) (some q) (some q) _ _ (AlikeSlot-refl (some q)) (h.same_proposals j))

  slots-step :
      (e e' : PolicyEnforcer J) (c : Call J)
      → Alike e e'
      → (j : String) → AlikeSlot (get j (step e c).proposals) (get j (step e' c).proposals)
  slots-step e e' (propose id now name proposer payload) h j =
      AlikeSlot-eq _ _ _ _
        (ap (λ x. get j x.proposals) (step-propose e id now name proposer payload))
        (ap (λ x. get j x.proposals) (step-propose e' id now name proposer payload))
        (subst
          (λ policy.
            AlikeSlot (get j (kept (drafted e.policy id now name proposer payload) e).proposals)
              (get j (kept (drafted policy id now name proposer payload) e').proposals))
          h.same_policy (store-Alike (drafted e.policy id now name proposer payload) e e' j h))
  slots-step e e' (approve id who) h j =
      AlikeSlot-eq _ _ _ _ (get-approve e id who j) (get-approve e' id who j) (
        if-Alike (id == j) _ _ _ _
          (subst
            (λ policy.
              AlikeSlot (slot_approve e.policy who (get id e.proposals))
                (slot_approve policy who (get id e'.proposals)))
            h.same_policy (slot_approve-Alike e.policy who _ _ (h.same_proposals id)))
          (h.same_proposals j))
  slots-step e e' (execute id now) h j =
      AlikeSlot-eq _ _ _ _ (get-execute e id j now) (get-execute e' id j now) (
        if-Alike (id == j) _ _ _ _ (slot_execute-Alike now _ _ (h.same_proposals id))
          (h.same_proposals j))

  step-Alike : (e e' : PolicyEnforcer J) (c : Call J) → Alike e e' → Alike (step e c) (step e' c)
  step-Alike e e' c h = record {
    same_policy = policy-step e c ∙ h.same_policy ∙ sym (policy-step e' c);
    same_proposals = slots-step e e' c h;
  }

  run-Alike :
      (e e' : PolicyEnforcer J) (cs : List (Call J)) → Alike e e' → Alike (run e cs) (run e' cs)
  unfolding run
  run-Alike e e' [] h = h
  run-Alike e e' (c ∷ cs) h = run-Alike (step e c) (step e' c) cs (step-Alike e e' c h)

  -- What is stored under `j` after two approvals.
  abbrev approved_twice :
      Policy
      → HashMap (MutationProposal J)
      → String
      → String
      → String
      → String
      → String
      → Option (MutationProposal J)
  approved_twice policy table id who id' who' j =
      if id' == j
      then slot_approve policy who'
          (if id == id' then slot_approve policy who (get id table) else get id' table)
      else if id == j
      then slot_approve policy who (get id table)
      else get j table

  get-approve_twice :
      (e : PolicyEnforcer J) (id who id' who' j : String)
      → get j (step (step e (approve id who)) (approve id' who')).proposals
        ≡ approved_twice e.policy e.proposals id who id' who' j
  get-approve_twice e id who id' who' j =
      let e1 = step e (approve id who) in
      get-approve e1 id' who' j
      ∙ ap
          (λ policy.
            if id' == j
            then slot_approve policy who' (get id' e1.proposals)
            else get j e1.proposals)
          (policy-step e (approve id who))
      ∙ ap₂ (λ s t. if id' == j then slot_approve e.policy who' s else t) (get-approve e id who id')
          (get-approve e id who j)

  slots-swap_apart :
      (policy : Policy) (table : HashMap (MutationProposal J)) (id who id' who' j : String)
      → (id == id') ≡ false
      → (id' == id) ≡ false
      → AlikeSlot
          (approved_twice policy table id who id' who' j)
          (approved_twice policy table id' who' id who j)
  slots-swap_apart policy table id who id' who' j apart apart' = elim (Bool-cases (id == j)) [
    | inl a ↦ elim (Bool-cases (id' == j)) [
      | inl b ↦
          let both : (id == id') ≡ true =
            (eq_iff id id').1 ((eq_iff id j).0 a ∙ sym ((eq_iff id' j).0 b)) in
          absurd (cc (both, apart))
      | inr b ↦ rw (a, b, apart') (AlikeSlot-refl (slot_approve policy who (get id table)))
    ]
    | inr a ↦ elim (Bool-cases (id' == j)) [
      | inl b ↦ rw (a, b, apart) (AlikeSlot-refl (slot_approve policy who' (get id' table)))
      | inr b ↦ rw (a, b) (AlikeSlot-refl (get j table))
    ]
  ]

  slots-swap :
      (policy : Policy) (table : HashMap (MutationProposal J)) (id who id' who' j : String)
      → AlikeSlot
          (approved_twice policy table id who id' who' j)
          (approved_twice policy table id' who' id who j)
  slots-swap policy table id who id' who' j = elim (Bool-cases (id == id')) [
    | inl same ↦
        subst
          (λ x.
            AlikeSlot (approved_twice policy table id who x who' j)
              (approved_twice policy table x who' id who j))
          ((eq_iff id id').0 same)
          (rw ((eq_iff id id).1 refl) (elim (Bool-cases (id == j)) [
            | inl hit ↦ rw hit (slot_approve-swap policy who' who (get id table))
            | inr miss ↦ rw miss (AlikeSlot-refl (get j table))
          ]))
    | inr apart ↦ slots-swap_apart policy table id who id' who' j apart (eq_comm id' id ∙ apart)
  ]

  -- Two approvals, of one proposal or of two, in either order.
  approve-swap :
      (e : PolicyEnforcer J) (id who id' who' : String)
      → Alike
          (step (step e (approve id who)) (approve id' who'))
          (step (step e (approve id' who')) (approve id who))
  approve-swap e id who id' who' = record {
    same_policy =
        policy-step (step e (approve id who)) (approve id' who')
        ∙ policy-step e (approve id who)
        ∙ sym (
            policy-step (step e (approve id' who')) (approve id who)
            ∙ policy-step e (approve id' who'));
    same_proposals = λ j.
        AlikeSlot-eq _ _ _ _ (get-approve_twice e id who id' who' j)
          (get-approve_twice e id' who' id who j)
          (slots-swap e.policy e.proposals id who id' who' j);
  }

  -- The order of approvals does not matter: when two approvals that follow each other, of one proposal
  -- or of two, change places, then whatever calls came before and come after, failing ones included,
  -- the enforcers at the end have one policy, and under every identifier either no proposal or
  -- proposals that agree but for the order of their approvals.
  pub approvals_commute :
      (e : PolicyEnforcer J) (before later : List (Call J)) (id who id' who' : String)
      → Alike
          (run e (before ++ approve id who ∷ approve id' who' ∷ later))
          (run e (before ++ approve id' who' ∷ approve id who ∷ later))
  unfolding run
  approvals_commute e [] later id who id' who' =
      run-Alike _ _ later (approve-swap e id who id' who')
  approvals_commute e (c ∷ cs) later id who id' who' =
      approvals_commute (step e c) cs later id who id' who'
