-- ===== src/Dns/Policy/Ordering/Slots.antt =====
-- indieweb2-bastion/graphql-dns-api/src/policy.rs: what a call does to one stored
-- proposal, and proposals that agree but for the order of their approvals.
use civic_connect.Prelude.{
  ℕ, ◌%◌, ◌^◌, String, ◌≡◌, refl, sym, ap, subst, ◌∙◌, inl, inr, Bool, true, false, not, ◌&&◌, ◌||◌,
  Option, none, some, List, [], ◌∷◌, ◌++◌, ◌==◌, eq_iff, ltb, leb, if◌then◌else◌, Bool-cases,
  Option-cases, length, length-append, Result, ok, err, ok_or, ◌>>=◌,
}
use native.Mathlib.Omega.{arith}
use std.Path.{ap₂}
use civic_connect.Prelude.Text.{contains}
use civic_connect.Prelude.HashMap.{get, get-insert}
use civic_connect.Dns.Policy.{
  Policy, pending, approved, timelock_active, clock_error, executed, status_eq, MutationProposal,
  PolicyEnforcer, PolicyError, has_privilege_in, find_mutation, has_privilege, get_mutation_policy,
  new_proposal, store, propose_mutation, add_approval, approve_proposal, can_execute,
  can_execute_proposal, execute_proposal, propose, approve, execute, result, step,
}

module _ {J : Type 0} where
  -- The proposals agree but for the order of their approvals.
  abbrev pub AlikeProposal : MutationProposal J → MutationProposal J → Type 0
  AlikeProposal p q =
      (record p { approvals = [] } ≡ record q { approvals = [] })
      × (length p.approvals ≡ length q.approvals)
      × ((who : String) → contains p.approvals who ≡ contains q.approvals who)

  abbrev pub AlikeSlot : Option (MutationProposal J) → Option (MutationProposal J) → Type 0
  AlikeSlot none none = Unit
  AlikeSlot (some p) (some q) = AlikeProposal p q
  AlikeSlot _ _ = ⊥

  -- Whether an approval of the proposal is taken, under a policy.
  may_approve : Policy → String → MutationProposal J → Bool
  may_approve policy who p =
      has_privilege_in policy.roles who p.mutation_name && not (contains p.approvals who)

  -- What an approval does to a stored proposal.
  pub slot_approve : Policy → String → Option (MutationProposal J) → Option (MutationProposal J)
  slot_approve policy who none = none
  slot_approve policy who (some p) =
      if may_approve policy who p then some (add_approval who p) else some p

  pub get-approve :
      (e : PolicyEnforcer J) (id who j : String)
      → get j (step e (approve id who)).proposals
        ≡ (if id == j then slot_approve e.policy who (get id e.proposals) else get j e.proposals)
  unfolding step result approve_proposal slot_approve may_approve has_privilege
  get-approve e id who j = elim (Option-cases (get id e.proposals)) [
    | inl missing ↦ rw (missing, approve_proposal) (ground (arith, eq_iff id j))
    | inr (p, found) ↦
        rw (found, approve_proposal)
          (ground (arith, eq_iff id j, get-insert id j (add_approval who p) e.proposals))
  ]

or_swap : (a b c : Bool) → (a || b || c) ≡ (a || c || b)
or_swap a b c = ground arith

pub eq_comm : (a b : String) → (a == b) ≡ (b == a)
eq_comm a b = ground (arith, eq_iff a b, eq_iff b a)

contains-append_one :
    (xs : List String) (a who : String)
    → contains (xs ++ a ∷ []) who ≡ (contains xs who || a == who)
unfolding contains
contains-append_one [] a who = ground arith
contains-append_one (x ∷ xs) a who = ground (arith, contains-append_one xs a who)

module _ {J : Type 0} where
  pub AlikeSlot-refl : (s : Option (MutationProposal J)) → AlikeSlot s s
  AlikeSlot-refl none = tt
  AlikeSlot-refl (some p) = (refl, refl, λ who. refl)

  -- The proposal without its approvals, when there are `n` of them after one more.
  counted : ℕ → MutationProposal J → MutationProposal J
  counted n p = record p {
    status =
        if leb p.required_approvals (n % 2 ^ 32) && status_eq p.status pending
        then approved
        else p.status;
  }

  add_approval-Alike :
      (a : String) (p q : MutationProposal J)
      → AlikeProposal p q
      → AlikeProposal (add_approval a p) (add_approval a q)
  unfolding add_approval counted
  add_approval-Alike a p q (same, len, who) =
      let longer : length (p.approvals ++ a ∷ []) ≡ length (q.approvals ++ a ∷ []) =
        omega (arith, length-append p.approvals (a ∷ []), length-append q.approvals (a ∷ [])) in
      (
        ap₂ counted longer same,
        longer,
        λ w.
            contains-append_one p.approvals a w
            ∙ ap (λ c. c || a == w) (who w)
            ∙ sym (contains-append_one q.approvals a w),
      )

  pub slot_approve-Alike :
      (policy : Policy) (a : String) (s t : Option (MutationProposal J))
      → AlikeSlot s t
      → AlikeSlot (slot_approve policy a s) (slot_approve policy a t)
  unfolding slot_approve may_approve
  slot_approve-Alike policy a none none h = tt
  slot_approve-Alike policy a none (some q) h = absurd h
  slot_approve-Alike policy a (some p) none h = absurd h
  slot_approve-Alike policy a (some p) (some q) h =
      let same_test : may_approve policy a p ≡ may_approve policy a q =
        ap₂ (λ name held. has_privilege_in policy.roles a name && not held)
          (ap (λ x. x.mutation_name) h.0) (h.2 a) in
      elim (Bool-cases (may_approve policy a p)) [
        | inl may ↦ rw (may, sym same_test ∙ may) (add_approval-Alike a p q h)
        | inr may_not ↦ rw (may_not, sym same_test ∙ may_not) h
      ]

  may_approve-add_approval :
      (policy : Policy) (a b : String) (p : MutationProposal J)
      → may_approve policy a (add_approval b p) ≡ (may_approve policy a p && not (b == a))
  unfolding may_approve add_approval
  may_approve-add_approval policy a b p = ground (arith, contains-append_one p.approvals b a)

  add_approval-swap :
      (a b : String) (p : MutationProposal J)
      → AlikeProposal (add_approval a (add_approval b p)) (add_approval b (add_approval a p))
  unfolding add_approval counted
  add_approval-swap a b p =
      let xs = p.approvals in
      let one : length (xs ++ b ∷ []) ≡ length (xs ++ a ∷ []) =
        omega (arith, length-append xs (a ∷ []), length-append xs (b ∷ [])) in
      let two : length ((xs ++ b ∷ []) ++ a ∷ []) ≡ length ((xs ++ a ∷ []) ++ b ∷ []) = omega (
        arith,
        one,
        length-append (xs ++ b ∷ []) (a ∷ []),
        length-append (xs ++ a ∷ []) (b ∷ []),
      ) in
      (
        ap₂ (λ m n. counted m (counted n (record p { approvals = [] }))) two one,
        two,
        λ w.
            contains-append_one (xs ++ b ∷ []) a w
            ∙ ap (λ c. c || a == w) (contains-append_one xs b w)
            ∙ or_swap (contains xs w) (b == w) (a == w)
            ∙ sym (ap (λ c. c || b == w) (contains-append_one xs a w))
            ∙ sym (contains-append_one (xs ++ a ∷ []) b w),
      )

  slot_approve-swap_apart :
      (policy : Policy) (a b : String) (p : MutationProposal J)
      → (b == a) ≡ false
      → (a == b) ≡ false
      → AlikeSlot
          (slot_approve policy a (slot_approve policy b (some p)))
          (slot_approve policy b (slot_approve policy a (some p)))
  unfolding slot_approve
  slot_approve-swap_apart policy a b p ne ne' =
      let a_then : may_approve policy a (add_approval b p) ≡ (may_approve policy a p && true) =
        may_approve-add_approval policy a b p ∙ ap (λ c. may_approve policy a p && not c) ne in
      let b_then : may_approve policy b (add_approval a p) ≡ (may_approve policy b p && true) =
        may_approve-add_approval policy b a p ∙ ap (λ c. may_approve policy b p && not c) ne' in
      elim (Bool-cases (may_approve policy a p)) [
        | inl may_a ↦ elim (Bool-cases (may_approve policy b p)) [
          | inl may_b ↦
              rw (may_a, may_b) (rw (a_then, b_then, may_a, may_b) (add_approval-swap a b p))
          | inr not_b ↦
              rw (may_a, not_b)
                (rw (b_then, may_a, not_b) (AlikeSlot-refl (some (add_approval a p))))
        ]
        | inr not_a ↦ elim (Bool-cases (may_approve policy b p)) [
          | inl may_b ↦
              rw (not_a, may_b) (rw (a_then, not_a) (AlikeSlot-refl (some (add_approval b p))))
          | inr not_b ↦ rw (not_a, not_b) (rw not_a (AlikeSlot-refl (some p)))
        ]
      ]

  pub slot_approve-swap :
      (policy : Policy) (a b : String) (s : Option (MutationProposal J))
      → AlikeSlot
          (slot_approve policy a (slot_approve policy b s))
          (slot_approve policy b (slot_approve policy a s))
  unfolding slot_approve
  slot_approve-swap policy a b none = tt
  slot_approve-swap policy a b (some p) = elim (Bool-cases (b == a)) [
    | inl eq ↦
        subst
          (λ x.
            AlikeSlot (slot_approve policy x (slot_approve policy b (some p)))
              (slot_approve policy b (slot_approve policy x (some p))))
          ((eq_iff b a).0 eq)
          (AlikeSlot-refl (slot_approve policy b (slot_approve policy b (some p))))
    | inr ne ↦ slot_approve-swap_apart policy a b p ne (rw (eq_comm a b) ne)
  ]

  marked : Result PolicyError Bool → MutationProposal J → MutationProposal J
  marked (ok true) p = record p { status = executed }
  marked (ok false) p = p
  marked (err e) p = p

  -- What an execution does to a stored proposal.
  pub slot_execute : Option ℕ → Option (MutationProposal J) → Option (MutationProposal J)
  slot_execute now none = none
  slot_execute now (some p) = some (marked (can_execute p now) p)

  pub get-execute :
      (e : PolicyEnforcer J) (id j : String) (now : Option ℕ)
      → get j (step e (execute id now)).proposals
        ≡ (if id == j then slot_execute now (get id e.proposals) else get j e.proposals)
  unfolding step result execute_proposal can_execute_proposal slot_execute marked
  get-execute e id j now = elim (Option-cases (get id e.proposals)) [
    | inl missing ↦ rw (missing, execute_proposal) (ground (arith, eq_iff id j))
    | inr (p, found) ↦
        rw (found, execute_proposal)
          (ground
            (arith, eq_iff id j, get-insert id j (record p { status = executed }) e.proposals))
  ]

  -- `can_execute` of a proposal of `n` approvals
  able : Option ℕ → ℕ → MutationProposal J → Result PolicyError Bool
  able now n p =
      if not (status_eq p.status approved) && not (status_eq p.status timelock_active)
      then ok false
      else if ltb (n % 2 ^ 32) p.required_approvals
      then ok false
      else do t ← ok_or now clock_error; if ltb t p.timelock_until then ok false else ok true

  can_execute-Alike :
      (p q : MutationProposal J) (now : Option ℕ)
      → AlikeProposal p q
      → can_execute p now ≡ can_execute q now
  unfolding can_execute able
  can_execute-Alike p q now h = ap₂ (able now) h.1 h.0

  marked-Alike :
      (r : Result PolicyError Bool) (p q : MutationProposal J)
      → AlikeProposal p q
      → AlikeProposal (marked r p) (marked r q)
  unfolding marked
  marked-Alike (ok true) p q h =
      (ap {A = MutationProposal J} (λ x. record x { status = executed }) h.0, h.1, h.2)
  marked-Alike (ok false) p q h = h
  marked-Alike (err e) p q h = h

  pub slot_execute-Alike :
      (now : Option ℕ) (s t : Option (MutationProposal J))
      → AlikeSlot s t
      → AlikeSlot (slot_execute now s) (slot_execute now t)
  unfolding slot_execute
  slot_execute-Alike now none none h = tt
  slot_execute-Alike now none (some q) h = absurd h
  slot_execute-Alike now (some p) none h = absurd h
  slot_execute-Alike now (some p) (some q) h =
      rw (can_execute-Alike p q now h) (marked-Alike (can_execute q now) p q h)

  draft : Policy → String → Option ℕ → String → String → J → Option (MutationProposal J)
  draft policy id now name proposer payload = elim (find_mutation policy.mutations name) [
    | none ↦ none
    | some m ↦ elim now [ none ↦ none | some t ↦ some (new_proposal id t m name proposer payload) ]
  ]

  -- The proposal that a call of `propose_mutation` makes, if it does.
  pub drafted : Policy → String → Option ℕ → String → String → J → Option (MutationProposal J)
  drafted policy id now name proposer payload =
      if not (has_privilege_in policy.roles proposer name)
      then none
      else draft policy id now name proposer payload

  abbrev pub kept : Option (MutationProposal J) → PolicyEnforcer J → PolicyEnforcer J
  kept none e = e
  kept (some p) e = store p e

  pub step-propose :
      (e : PolicyEnforcer J) (id : String) (now : Option ℕ) (name proposer : String) (payload : J)
      → step e (propose id now name proposer payload)
        ≡ kept (drafted e.policy id now name proposer payload) e
  unfolding step result propose_mutation drafted draft has_privilege get_mutation_policy
  step-propose e id now name proposer payload = ground arith
