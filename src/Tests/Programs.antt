-- ===== src/Tests/Programs.antt =====
-- Inputs for the programs of indieweb2-bastion/odns-rs.
use civic_connect.Prelude.{
  ℕ, zero, suc, ◌+◌, ◌≡◌, refl, Bool, true, false, Option, none, some, List, [], ◌∷◌, ◌++◌, drop,
  replicate, ok,
}
use native.Mathlib.Omega.{arith}
use civic_connect.Prelude.Bytes.{IsBytes}
use civic_connect.Odns.Protocol.{read_framed}
use civic_connect.Odns.Crypto.{Crates, IsSound, derive_symmetric_key, encrypt_query}
use civic_connect.Odns.Resolver.{ipv4, is_served}
use civic_connect.Odns.Programs.{
  ProxyArgs, ResolverArgs, default_proxy_args, default_resolver_args, Machine, Formats, IsFormat,
  load_tls_config, keygen, Serving, serving, resolver_main, Proxy, proxy_main, proxy_turn,
}
use civic_connect.Odns.Programs.Deployed.{leads_to, keygen-lookup_answered}
use civic_connect.Tests.Odns.{
  open_crates, open_crates-IsSound, net, net-Answers, nonce, query, framed, framed-query,
}

abbrev digit : Bool → ℕ
digit true = 1
digit false = 0

abbrev read_digit : List ℕ → Option Bool
read_digit [] = none
read_digit (zero ∷ bs) = some false
read_digit (suc n ∷ bs) = some true

-- As `open_crates`, with two keys.
abbrev two_keys : Crates
two_keys = record {
  PublicKey = Bool;
  SecretKey = Bool;
  Ciphertext = ℕ;
  encapsulate = λ seed pk. ((seed + digit pk) ∷ [], seed);
  decapsulate = λ ct sk. (ct + digit sk) ∷ [];
  as_bytes = open_crates.as_bytes;
  from_bytes = open_crates.from_bytes;
  hkdf = open_crates.hkdf;
  encrypt = open_crates.encrypt;
  decrypt = open_crates.decrypt;
  public_key_from_bytes = read_digit;
  secret_key_from_bytes = read_digit;
}

two_keys-IsSound : IsSound two_keys
two_keys-IsSound = record {
  length-as_bytes = open_crates-IsSound.length-as_bytes;
  from_bytes-as_bytes = open_crates-IsSound.from_bytes-as_bytes;
  length-encrypt = open_crates-IsSound.length-encrypt;
  decrypt-encrypt = open_crates-IsSound.decrypt-encrypt;
}

abbrev digits : Formats two_keys
digits = record {
  public_key_bytes = λ pk. digit pk ∷ [];
  secret_key_bytes = λ sk. digit sk ∷ [];
  encode = λ bytes. 7 ∷ bytes;
  decode = λ text. some (drop 1 text);
}

read_digit-digit : (b : Bool) → read_digit (digit b ∷ []) ≡ some b
read_digit-digit true = refl
read_digit-digit false = refl

digit-IsBytes : (b : Bool) → IsBytes (digit b ∷ [])
digit-IsBytes true = (omega arith, tt)
digit-IsBytes false = (omega arith, tt)

digits-IsFormat : IsFormat two_keys digits
digits-IsFormat = record {
  public_key-bytes = read_digit-digit;
  secret_key-bytes = read_digit-digit;
  public_key_bytes-IsBytes = digit-IsBytes;
  secret_key_bytes-IsBytes = digit-IsBytes;
  decode-encode = λ bytes h. refl;
}

-- A machine with every file and address.
abbrev machine : Machine
machine = record {
  Chain = Unit;
  Der = Unit;
  TlsConfig = Unit;
  read = λ path. some [];
  read_pem = λ path. some [];
  bind = λ address. true;
  certs = λ pem. some tt;
  private_key = λ pem. some (some tt);
  tls_config = λ chain der. some tt;
}

abbrev rargs : ResolverArgs
rargs = record default_resolver_args { privkey = some (7 ∷ 1 ∷ []) }

abbrev pargs : ProxyArgs
pargs = record default_proxy_args { pubkey = some (7 ∷ 1 ∷ []) }

tls_loads : load_tls_config machine pargs.cert pargs.key ≡ ok tt
unfolding load_tls_config
tls_loads = refl

abbrev sealed : List ℕ
sealed = two_keys.as_bytes 9 ++ nonce ++ (query ++ replicate 16 0)

two_keys_seal : encrypt_query two_keys 9 nonce query true ≡ ok sealed
unfolding encrypt_query derive_symmetric_key
two_keys_seal = refl

served : is_served pargs.ipv6_only (ipv4 1) ≡ true
unfolding is_served
served = refl

secret_text : rargs.privkey ≡ some (keygen two_keys digits machine (true, true)).secret_key
unfolding keygen
secret_text = refl

public_text : pargs.pubkey ≡ some (keygen two_keys digits machine (true, true)).public_key
unfolding keygen
public_text = refl

keygen-lookup_answered_example :
    (s : Serving two_keys digits machine) × (p : Proxy two_keys digits machine) × (reply : List ℕ)
    × (resolver_main two_keys digits machine (false, false) rargs ≡ ok (serving s))
    × (proxy_main two_keys digits machine pargs ≡ ok p)
    × (proxy_turn two_keys digits machine p
          (leads_to two_keys digits machine (λ address. net) pargs.resolver s)
          9
          nonce
          (some (ipv4 1, some (framed ++ [])))
        ≡ some (ok reply))
    × (read_framed reply ≡ ok (3 ∷ [], []))
keygen-lookup_answered_example =
    keygen-lookup_answered two_keys digits digits-IsFormat machine (true, true) two_keys-IsSound
      (λ address. net) (false, false) rargs pargs tt (ipv4 1) 9 nonce query sealed (3 ∷ []) framed
      [] (λ seed. refl) refl secret_text refl public_text tls_loads refl served refl two_keys_seal
      net-Answers (omega arith) (omega arith) framed-query
