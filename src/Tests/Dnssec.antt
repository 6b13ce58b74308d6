-- ===== src/Tests/Dnssec.antt =====
-- Inputs for indieweb2-bastion/graphql-dns-api/src/dnssec.rs.
use civic_connect.Prelude.{◌≡◌, true, [], ◌∷◌, ok, is_ok, ◌>>=◌}
use civic_connect.Odns.Signatures as Odns
use civic_connect.Odns.Signatures.{Scheme}
use civic_connect.Dns.Dnssec.{
  generate, public_key_bytes, hybrid_verify, sign_record, verify_signature,
}
use civic_connect.Dns.Dnssec.Signing.{verify_signature-sign_record}
use civic_connect.Dns.Dnssec.Agreement.{accepted, hybrid_verify_agrees}
use civic_connect.Tests.Signatures.{echo, echo-IsScheme}
use civic_connect.Tests.Codecs.{hex_codecs, hex_codecs-IsCodec}

abbrev ed : Scheme
ed = echo 56 113

abbrev dil : Scheme
dil = echo 2591 4626

verify_signature-sign_record_example :
    verify_signature ed dil hex_codecs "example.com A 192.0.2.1"
      (sign_record ed dil hex_codecs "example.com A 192.0.2.1" (generate ed dil 3 4))
      (public_key_bytes ed dil (generate ed dil 3 4))
    ≡ ok true
verify_signature-sign_record_example =
    verify_signature-sign_record ed dil (echo-IsScheme 56 113) (echo-IsScheme 2591 4626) hex_codecs
      hex_codecs-IsCodec "example.com A 192.0.2.1" 3 4

hybrid_verify_agrees_example :
    accepted (hybrid_verify ed dil (1 ∷ []) (2 ∷ []) (3 ∷ []))
    ≡ is_ok (do
      key ← Odns.key_from_bytes ed dil (3 ∷ [])
      signature ← Odns.sig_from_bytes ed dil (2 ∷ [])
      Odns.hybrid_verify ed dil (1 ∷ []) signature key)
hybrid_verify_agrees_example = hybrid_verify_agrees ed dil (1 ∷ []) (2 ∷ []) (3 ∷ [])
