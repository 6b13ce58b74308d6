-- ===== src/Dns/Policy/Rbac.antt =====
-- indieweb2-bastion/graphql-dns-api/src/policy.rs: what `has_privilege` decides.
use civic_connect.Prelude.{
  String, ◌≡◌, true, ◌&&◌, ◌⊎◌, inl, inr, ◌↔◌, List, [], ◌∷◌, arith, Bool-cases,
}
pub use civic_connect.Prelude.Text.{In, contains-In, In-contains}
use civic_connect.Dns.Policy.{Role, PolicyEnforcer, contains, has_privilege_in, has_privilege}

-- Some role of the list has the identity among its members and the privilege among its privileges.
abbrev pub Grants : String → String → List Role → Type 0
Grants identity privilege [] = ⊥
Grants identity privilege (r ∷ rs) =
    (In identity r.members × In privilege r.privileges) ⊎ Grants identity privilege rs

module _ (identity privilege : String) where
  has_privilege_in-Grants :
      (rs : List Role)
      → has_privilege_in rs identity privilege ≡ true
      → Grants identity privilege rs
  unfolding has_privilege_in
  has_privilege_in-Grants [] h = cc
  has_privilege_in-Grants (r ∷ rs) h =
      elim (Bool-cases (contains r.members identity && contains r.privileges privilege)) [
        | inl both ↦ inl (
          contains-In r.members identity (ground arith),
          contains-In r.privileges privilege (ground arith),
        )
        | inr miss ↦ inr (has_privilege_in-Grants rs (rw miss at h))
      ]

  Grants-has_privilege_in :
      (rs : List Role)
      → Grants identity privilege rs
      → has_privilege_in rs identity privilege ≡ true
  unfolding has_privilege_in
  Grants-has_privilege_in [] g = absurd g
  Grants-has_privilege_in (r ∷ rs) (inl both) =
      ground
        (arith, In-contains r.members identity both.0, In-contains r.privileges privilege both.1)
  Grants-has_privilege_in (r ∷ rs) (inr g) = ground (arith, Grants-has_privilege_in rs g)

-- `has_privilege` answers true exactly when some role of the policy has the identity among its
-- members and the privilege among its privileges.
pub has_privilege_iff :
    {J : Type 0} (e : PolicyEnforcer J) (identity privilege : String)
    → (has_privilege e identity privilege ≡ true) ↔ Grants identity privilege e.policy.roles
unfolding has_privilege
has_privilege_iff e identity privilege = (
  has_privilege_in-Grants identity privilege e.policy.roles,
  Grants-has_privilege_in identity privilege e.policy.roles,
)
