-- ===== src/Dns/Dnssec.antt =====
-- indieweb2-bastion/graphql-dns-api/src/dnssec.rs: hybrid keys of zones and their signatures.
-- The crates of the two schemes are those of Odns/Signatures; the fields of an error's text are those
-- of its constructor.
pub mod Agreement
pub mod Signing
use civic_connect.Prelude.{
  ℕ, ◌+◌, ◌*◌, String, Bool, true, false, List, [], ◌∷◌, ◌++◌, length, take, drop, eqb,
  if◌then◌else◌, Result, ok, err, ok_or, ◌>>=◌,
}
use civic_connect.Prelude.Text.{append}
use civic_connect.Prelude.Decimal.{to_string}
use civic_connect.Prelude.Bytes.{as_bytes, Codecs}
use civic_connect.Odns.Signatures.{Scheme}

abbrev pub algorithm_hybrid_ed448_dil5 : ℕ
algorithm_hybrid_ed448_dil5 = 253

abbrev pub ed448_pk_len : ℕ
ed448_pk_len = 57

abbrev pub dil5_pk_len : ℕ
dil5_pk_len = 2592

-- `invalid_key_length expected got`, `invalid_signature_length expected got`
pub data DnssecError : Type 0 where
  invalid_key_length invalid_signature_length : ℕ → ℕ → DnssecError
  invalid_ed448_key invalid_dilithium5_key : DnssecError
  invalid_ed448_signature invalid_dilithium5_signature invalid_base64 : DnssecError

-- `u16::from_be_bytes([bytes[0], bytes[1]])`; a digest has 32 bytes.
abbrev pub leading_u16 : List ℕ → ℕ
leading_u16 (high ∷ low ∷ rest) = high * 256 + low
leading_u16 _ = 0

module _ (ed dil : Scheme) where
  pub record HybridDnssecKey : Type 0 where
    pub ed448_sk : ed.SecretKey
    pub ed448_vk : ed.PublicKey
    pub dil5_pk : dil.PublicKey
    pub dil5_sk : dil.SecretKey

  unfoldable pub generate : ℕ → ℕ → HybridDnssecKey
  generate ed_seed dil_seed = record {
    ed448_sk = (ed.generate ed_seed).1;
    ed448_vk = (ed.generate ed_seed).0;
    dil5_pk = (dil.generate dil_seed).0;
    dil5_sk = (dil.generate dil_seed).1;
  }

  unfoldable pub public_key_bytes : HybridDnssecKey → List ℕ
  public_key_bytes k = ed.key_bytes k.ed448_vk ++ dil.key_bytes k.dil5_pk

  unfoldable pub sign : List ℕ → HybridDnssecKey → List ℕ
  sign message k =
      ed.sig_bytes (ed.sign message k.ed448_sk) ++ dil.sig_bytes (dil.sign message k.dil5_sk)

  -- The end of `hybrid_verify`: an error of either verification is `false`.
  unfoldable pub both_verify :
      List ℕ → ed.PublicKey → dil.PublicKey → ed.Signature → dil.Signature → Bool
  both_verify message ed448_vk dil5_pk ed448_sig dil5_sig =
      if ed.verify ed448_sig message ed448_vk then dil.verify dil5_sig message dil5_pk else false

  -- `hybrid_verify` of the parts of the key and of the signature
  unfoldable pub verify_parts : List ℕ → List ℕ → List ℕ → List ℕ → List ℕ → Result DnssecError Bool
  verify_parts message ed448_pk_bytes dil5_pk_bytes ed448_sig_bytes dil5_sig_bytes = do
    ed448_vk ← ok_or (ed.key_from_bytes ed448_pk_bytes) invalid_ed448_key
    dil5_pk ← ok_or (dil.key_from_bytes dil5_pk_bytes) invalid_dilithium5_key
    ed448_sig ← ok_or (ed.sig_from_bytes ed448_sig_bytes) invalid_ed448_signature
    dil5_sig ← ok_or (dil.sig_from_bytes dil5_sig_bytes) invalid_dilithium5_signature
    ok (both_verify message ed448_vk dil5_pk ed448_sig dil5_sig)

  unfoldable pub hybrid_verify : List ℕ → List ℕ → List ℕ → Result DnssecError Bool
  unfolding verify_parts
  hybrid_verify message signature public_key =
      if eqb (length public_key) (ed448_pk_len + dil5_pk_len)
      then (if eqb (length signature) (114 + 4627)
          then verify_parts message (take ed448_pk_len public_key) (drop ed448_pk_len public_key)
              (take 114 signature) (drop 114 signature)
          else err (invalid_signature_length (114 + 4627) (length signature)))
      else err (invalid_key_length (ed448_pk_len + dil5_pk_len) (length public_key))

  module _ (c : Codecs) where
    unfoldable pub calculate_key_tag : String → ℕ
    calculate_key_tag dnskey = leading_u16 (c.blake3 (as_bytes dnskey))

    -- The DNSKEY record of a key of which a DS record holds the digest.
    unfoldable pub dnskey_record : String → String → String
    dnskey_record zone ksk_public = append zone (
        append " IN DNSKEY 257 3 "
          (append (to_string algorithm_hybrid_ed448_dil5) (append " " ksk_public)))

    unfoldable pub generate_ds_record : String → String → String
    unfolding calculate_key_tag dnskey_record
    generate_ds_record zone ksk_public =
        let dnskey = dnskey_record zone ksk_public in
        append zone (
          append " IN DS " (
            append (to_string (calculate_key_tag dnskey)) (
              append " " (
                append (to_string algorithm_hybrid_ed448_dil5)
                  (append " 253 " (c.hex_encode (c.blake3 (as_bytes dnskey))))))))

    -- `seeds` is the randomness of the two keys, for each of the two schemes.
    unfoldable pub generate_keys : ℕ × ℕ → ℕ × ℕ → String → String × String × String
    unfolding generate_ds_record
    generate_keys (ksk_ed, ksk_dil) (zsk_ed, zsk_dil) zone =
        let ksk_public = c.base64_encode (public_key_bytes (generate ksk_ed ksk_dil)) in
        let zsk_public = c.base64_encode (public_key_bytes (generate zsk_ed zsk_dil)) in
        (ksk_public, zsk_public, generate_ds_record zone ksk_public)

    unfoldable pub sign_record : String → HybridDnssecKey → String
    sign_record record_data zsk_key = c.base64_encode (sign (as_bytes record_data) zsk_key)

    unfoldable pub verify_signature : String → String → List ℕ → Result DnssecError Bool
    verify_signature record_data rrsig_b64 public_key = do
      sig_bytes ← ok_or (c.base64_decode rrsig_b64) invalid_base64
      hybrid_verify (as_bytes record_data) sig_bytes public_key
