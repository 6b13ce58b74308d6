-- ===== src/Dns/Records/Content.antt =====
-- indieweb2-bastion/graphql-dns-api/src/models.rs: the type codes of records and the text of which a
-- record's content hash is the digest.
use civic_connect.Prelude.{ℕ, zero, suc, String, ◌≡◌, refl, sym, ap, subst, ◌∙◌, ◌≢◌, ◌↔◌, false}
use native.Mathlib.Omega.{arith}
use Prim.Native.Char.{Char}
use Prim.Native.String as Str
use civic_connect.Prelude.Text.{append, has_char}
use civic_connect.Prelude.Decimal.{
  to_string, to_string_injective, to_string-IsDecimal, IsDecimal, IsDecimal-has_char,
}
use civic_connect.Prelude.Bytes.{as_bytes, Codecs}
use civic_connect.Dns.Records.{
  ℤ, pos, negsuc, DnsRecordType, a, aaaa, cname, mx, txt, srv, caa, tlsa, ns, soa, ptr, DnsRecord,
}

unfoldable pub to_type_code : DnsRecordType → ℕ
to_type_code a = 1
to_type_code ns = 2
to_type_code cname = 5
to_type_code soa = 6
to_type_code ptr = 12
to_type_code mx = 15
to_type_code txt = 16
to_type_code aaaa = 28
to_type_code srv = 33
to_type_code caa = 257
to_type_code tlsa = 52

-- `record_type as u16`: the place of the type in its declaration.
unfoldable pub discriminant : DnsRecordType → ℕ
discriminant a = 0
discriminant aaaa = 1
discriminant cname = 2
discriminant mx = 3
discriminant txt = 4
discriminant srv = 5
discriminant caa = 6
discriminant tlsa = 7
discriminant ns = 8
discriminant soa = 9
discriminant ptr = 10

-- `to_string` of a signed number
abbrev pub show_signed : ℤ → String
show_signed (pos n) = to_string n
show_signed (negsuc n) = Str.◌∷◌ "-" (to_string (suc n))

-- The text of which `content_hash` takes the digest.
unfoldable pub content : DnsRecord → String
unfolding discriminant
content r = append r.name (
    Str.◌∷◌ ":" (
      append (to_string (discriminant r.record_type))
        (Str.◌∷◌ ":" (append (show_signed r.ttl) (Str.◌∷◌ ":" r.value)))))

unfoldable pub content_hash : Codecs → DnsRecord → String
unfolding content
content_hash c r = c.hex_encode (c.blake3 (as_bytes (content r)))

-- Texts that agree up to the first separator and after it.
cut :
    (x : Char) (s t u v : String)
    → has_char x s ≡ false
    → has_char x t ≡ false
    → append s (Str.◌∷◌ x u) ≡ append t (Str.◌∷◌ x v)
    → (s ≡ t) × (u ≡ v)
unfolding has_char
cut x Str.[] Str.[] u v h k e = (refl, cc e)
cut x Str.[] (Str.◌∷◌ c t) u v h k e = absurd (ground (arith, k, e))
cut x (Str.◌∷◌ c s) Str.[] u v h k e = absurd (ground (arith, h, e))
cut x (Str.◌∷◌ c s) (Str.◌∷◌ d t) u v h k e =
    let (p, q) = cut x s t u v (ground (arith, h)) (ground (arith, k)) (cc e) in (cc (p, e), q)

to_string_plain : (n : ℕ) → has_char ":" (to_string n) ≡ false
to_string_plain n = IsDecimal-has_char ":" (to_string n) (to_string-IsDecimal n) (omega arith)

show_signed_plain : (n : ℤ) → has_char ":" (show_signed n) ≡ false
unfolding has_char
show_signed_plain (pos n) = to_string_plain n
show_signed_plain (negsuc n) = to_string_plain (suc n)

to_string_unsigned : (n : ℕ) (s : String) → to_string n ≢ Str.◌∷◌ "-" s
to_string_unsigned n s e =
    absurd (let h = subst IsDecimal e (to_string-IsDecimal n) in omega (arith, h.0))

show_signed_injective : (m n : ℤ) → show_signed m ≡ show_signed n → m ≡ n
show_signed_injective (pos m) (pos n) e = ap pos (to_string_injective m n e)
show_signed_injective (pos m) (negsuc n) e = absurd (to_string_unsigned m _ e)
show_signed_injective (negsuc m) (pos n) e = absurd (to_string_unsigned n _ (sym e))
show_signed_injective (negsuc m) (negsuc n) e =
    let h = to_string_injective (suc m) (suc n) (cc e) in ap negsuc (omega (arith, h))

from_discriminant : ℕ → DnsRecordType
from_discriminant zero = a
from_discriminant (suc zero) = aaaa
from_discriminant (suc (suc zero)) = cname
from_discriminant (suc (suc (suc zero))) = mx
from_discriminant (suc (suc (suc (suc zero)))) = txt
from_discriminant (suc (suc (suc (suc (suc zero))))) = srv
from_discriminant (suc (suc (suc (suc (suc (suc zero)))))) = caa
from_discriminant (suc (suc (suc (suc (suc (suc (suc zero))))))) = tlsa
from_discriminant (suc (suc (suc (suc (suc (suc (suc (suc zero)))))))) = ns
from_discriminant (suc (suc (suc (suc (suc (suc (suc (suc (suc zero))))))))) = soa
from_discriminant _ = ptr

from_discriminant-discriminant : (t : DnsRecordType) → from_discriminant (discriminant t) ≡ t
unfolding from_discriminant discriminant
from_discriminant-discriminant a = refl
from_discriminant-discriminant aaaa = refl
from_discriminant-discriminant cname = refl
from_discriminant-discriminant mx = refl
from_discriminant-discriminant txt = refl
from_discriminant-discriminant srv = refl
from_discriminant-discriminant caa = refl
from_discriminant-discriminant tlsa = refl
from_discriminant-discriminant ns = refl
from_discriminant-discriminant soa = refl
from_discriminant-discriminant ptr = refl

discriminant_injective : (s t : DnsRecordType) → discriminant s ≡ discriminant t → s ≡ t
discriminant_injective s t e =
    sym (from_discriminant-discriminant s)
    ∙ ap from_discriminant e
    ∙ from_discriminant-discriminant t

-- Two records whose names hold no colon have the same hashed text exactly when they have the same
-- name, type, TTL and value.
pub content_iff :
    (r s : DnsRecord)
    → has_char ":" r.name ≡ false
    → has_char ":" s.name ≡ false
    → (content r ≡ content s) ↔ (
        (r.name ≡ s.name) × (r.record_type ≡ s.record_type) × (r.ttl ≡ s.ttl) × (r.value ≡ s.value))
unfolding content
content_iff r s h k = (
  λ e.
      (let (same_name, e1) = cut ":" r.name s.name _ _ h k e in
        let (same_type, e2) =
          cut ":" (to_string (discriminant r.record_type)) (to_string (discriminant s.record_type))
            _ _ (to_string_plain _) (to_string_plain _) e1 in
        let (same_ttl, same_value) =
          cut ":" (show_signed r.ttl) (show_signed s.ttl) _ _ (show_signed_plain r.ttl)
            (show_signed_plain s.ttl) e2 in
        (
          same_name,
          discriminant_injective r.record_type s.record_type (to_string_injective _ _ same_type),
          show_signed_injective r.ttl s.ttl same_ttl,
          same_value,
        )),
  λ (p, q, t, v). (rw (p, q, t, v) refl),
)
