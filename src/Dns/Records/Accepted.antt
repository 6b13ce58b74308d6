-- ===== src/Dns/Records/Accepted.antt =====
-- indieweb2-bastion/graphql-dns-api/src/resolvers.rs: the inputs that the validation accepts.
use civic_connect.Prelude.{
  ℕ, String, ◌≡◌, refl, sym, ap, subst, ◌∙◌, ◌≢◌, ◌↔◌, inl, inr, true, false, some, List, [], ◌∷◌,
  if◌then◌else◌, Bool-cases, Option-cases, All, Result, ok, err,
}
use native.Mathlib.Omega.{arith}
use Prim.Native.Char.{Char}
use Prim.Native.String as Str
use civic_connect.Prelude.Text.{is_empty, has_char, split, join, parse_uint, split-join}
use civic_connect.Prelude.Pieces.{pieces}
use civic_connect.Dns.Records.{
  ℤ, pos, negsuc, DnsRecordType, a, aaaa, DnsRecordInput, ResolverError, invalid, is_negative,
  is_octet, all_octets, validate_value, validate_dns_record,
}

-- A number below 256 in decimal, and no dot.
abbrev pub IsOctet : String → Type 0
IsOctet q = (has_char "." q ≡ false) × ((n : ℕ) × (parse_uint 256 q ≡ some n))

-- One or more octets with dots between them.
abbrev pub IsOctets : String → Type 0
IsOctets value =
    (p : String) × (ps : List String) × (value ≡ join "." (p ∷ ps)) × All IsOctet (p ∷ ps)

abbrev pub AcceptsValue : DnsRecordType → String → Type 0
AcceptsValue a value = IsOctets value
AcceptsValue aaaa value = has_char ":" value ≡ true
AcceptsValue _ value = value ≢ ""

is_octet_iff : (q : String) → (is_octet q ≡ true) ↔ ((n : ℕ) × (parse_uint 256 q ≡ some n))
is_octet_iff q = elim (Option-cases (parse_uint 256 q)) [
  | inl bad ↦ (λ h. absurd (let h' = rw (bad, is_octet) at h in cc h'), λ x. absurd (cc (x.1, bad)))
  | inr (n, good) ↦ (λ h. (n, good), λ x. rw (good, is_octet) refl)
]

all_octets-IsOctet :
    (ps : List String)
    → All (λ q. has_char "." q ≡ false) ps
    → all_octets ps ≡ true
    → All IsOctet ps
all_octets-IsOctet [] plain h = tt
all_octets-IsOctet (p ∷ ps) plain h =
    ((plain.0, (is_octet_iff p).0 (ground arith)), all_octets-IsOctet ps plain.1 (ground arith))

IsOctet-all_octets : (ps : List String) → All IsOctet ps → all_octets ps ≡ true
IsOctet-all_octets [] h = refl
IsOctet-all_octets (p ∷ ps) h = rw ((is_octet_iff p).1 h.0.1, IsOctet-all_octets ps h.1) refl

IsOctet-plain : (ps : List String) → All IsOctet ps → All (λ q. has_char "." q ≡ false) ps
IsOctet-plain [] h = tt
IsOctet-plain (p ∷ ps) h = (h.0.0, IsOctet-plain ps h.1)

dotted_iff : (value : String) → (validate_value a value ≡ ok tt) ↔ IsOctets value
unfolding validate_value
dotted_iff value = (
  λ h.
      let s = pieces "." value in
      let parts : all_octets (s.head ∷ s.tail) ≡ true =
        ap all_octets (sym s.split-eq) ∙ elim (Bool-cases (all_octets (split "." value))) [
          | inl e ↦ e
          | inr e ↦ absurd (let h' = rw e at h in cc h')
        ] in
      (s.head, s.tail, sym s.join-eq, all_octets-IsOctet (s.head ∷ s.tail) s.plain parts),
  λ (p, ps, e, h).
      subst (λ v. validate_value a v ≡ ok tt) (sym e)
        (rw (split-join "." p ps (IsOctet-plain (p ∷ ps) h), IsOctet-all_octets (p ∷ ps) h) refl),
)

colon_iff : (value : String) → (validate_value aaaa value ≡ ok tt) ↔ (has_char ":" value ≡ true)
unfolding validate_value
colon_iff value = elim (Bool-cases (has_char ":" value)) [
  | inl held ↦ (λ h. held, λ h. rw held refl)
  | inr free ↦ (λ h. absurd (let h' = rw free at h in cc h'), λ h. cc)
]

not_empty : (c : Char) (s : String) → Str.◌∷◌ c s ≢ ""
not_empty c s e = cc

text_iff :
    (value : String)
    → ((if is_empty value then err (invalid "Record value cannot be empty") else ok (tt {0}))
        ≡ ok tt)
      ↔ (value ≢ "")
text_iff Str.[] = (λ h. absurd (cc h), λ h. absurd (h refl))
text_iff (Str.◌∷◌ c s) = (λ h. not_empty c s, λ h. refl)

value_iff :
    (t : DnsRecordType) (value : String) → (validate_value t value ≡ ok tt) ↔ AcceptsValue t value
unfolding validate_value
value_iff a value = dotted_iff value
value_iff aaaa value = colon_iff value
value_iff _ value = text_iff value

-- The first two tests, before that of the value.
guards_iff :
    (name : String) (ttl : ℤ) (r : Result ResolverError (Unit {0})) (Q : Type 0)
    → (r ≡ ok tt) ↔ Q
    → ((if is_empty name
          then err (invalid "DNS name cannot be empty")
          else if is_negative ttl
          then err (invalid "TTL must be positive")
          else r)
        ≡ ok tt)
      ↔ ((name ≢ "") × ((n : ℕ) × (ttl ≡ pos n)) × Q)
guards_iff Str.[] ttl r Q h = (λ e. absurd (cc e), λ x. absurd (x.0 refl))
guards_iff (Str.◌∷◌ c s) (negsuc n) r Q h = (λ e. absurd (cc e), λ x. absurd (cc x.1.1))
guards_iff (Str.◌∷◌ c s) (pos n) r Q h = (λ e. (not_empty c s, (n, refl), h.0 e), λ x. h.1 x.2)

-- An input is valid exactly when its name is not empty, its TTL is not negative, and its value is one
-- or more octets with dots between them for the type A, holds a colon for AAAA, and is not empty for
-- any other type.
pub validate_dns_record_iff :
    (input : DnsRecordInput)
    → (validate_dns_record input ≡ ok tt) ↔ (
        (input.name ≢ "")
        × ((n : ℕ) × (input.ttl ≡ pos n))
        × AcceptsValue input.record_type input.value)
unfolding validate_dns_record
validate_dns_record_iff input =
    guards_iff input.name input.ttl (validate_value input.record_type input.value)
      (AcceptsValue input.record_type input.value) (value_iff input.record_type input.value)
