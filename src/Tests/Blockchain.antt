-- ===== src/Tests/Blockchain.antt =====
-- Inputs for indieweb2-bastion/graphql-dns-api/src/blockchain.rs: a chain that keeps the data that were
-- sent, of which the hash of a transaction is a text in unary.
use civic_connect.Prelude.{
  ℕ, zero, suc, ◌+◌, String, ◌≡◌, refl, ap, ◌∙◌, inl, inr, true, Option, none, some, List, [], ◌∷◌,
  ◌==◌, eqb, if◌then◌else◌, Bool-cases, length, ok,
}
use native.Mathlib.Omega.{arith}
use Prim.Native.Char.{code}
use Prim.Native.String as Str
use civic_connect.Prelude.Bytes.{as_bytes}
use civic_connect.Dns.Records.{pos}
use civic_connect.Dns.Blockchain.{
  Ethers, IsEthers, Transaction, BlockchainClient, anchored, new_client, anchored, anchor_hash,
  verify_hash,
}
use civic_connect.Dns.Blockchain.Anchoring.{verify_hash-anchor_hash}
use civic_connect.Tests.Codecs.{hex_codecs, hex_codecs-IsCodec, hex}

abbrev unary : ℕ → String → String
unary zero s = Str.◌∷◌ "0" s
unary (suc n) s = Str.◌∷◌ "1" (unary n s)

abbrev pub show : List ℕ → String
show [] = Str.[]
show (n ∷ ns) = unary n (show ns)

abbrev read : ℕ → String → List ℕ
read n Str.[] = []
read n (Str.◌∷◌ c s) =
    let next = read 0 s in let more = read (suc n) s in if eqb (code c) 48 then n ∷ next else more

read-unary : (n m : ℕ) (s : String) → read n (unary m s) ≡ (n + m) ∷ read 0 s
read-unary n zero s = ap (λ k. k ∷ read 0 s) (omega arith)
read-unary n (suc m) s = read-unary (suc n) m s ∙ ap (λ k. k ∷ read 0 s) (omega arith)

read-show : (ns : List ℕ) → read 0 (show ns) ≡ ns
read-show [] = refl
read-show (n ∷ ns) =
    read-unary 0 n (show ns)
    ∙ ap (λ k. k ∷ read 0 (show ns)) (omega arith)
    ∙ ap (◌∷◌ n) (read-show ns)

abbrev found : List ℕ → List (List ℕ) → Option Transaction
found h [] = none
found h (d ∷ ds) =
    let rest = found h ds in if show h == show d then some (record { input = h }) else rest

found_input :
    (h : List ℕ) (ds : List (List ℕ)) (t : Transaction) → found h ds ≡ some t → t.input ≡ h
found_input h [] t e = absurd (cc e)
found_input h (d ∷ ds) t e = elim (Bool-cases (show h == show d)) [
  | inl k ↦ (let f = rw (k) at e in cc f)
  | inr k ↦ found_input h ds t (let f = rw (k) at e in f)
]

abbrev pub ledger : Ethers
ledger = record {
  Provider = Unit {0};
  Wallet = String;
  TxHash = List ℕ;
  Chain = List (List ℕ);
  try_from = λ url. ok tt;
  parse_wallet = some;
  with_chain_id = λ n w. w;
  address = λ w. w;
  parse_hash = λ s. ok (read 0 s);
  show_hash = show;
  get_chainid = λ p chain. ok 1;
  get_gas_price = λ p chain. ok 2;
  get_block_number = λ p chain. ok (length chain);
  get_transaction = λ p h chain. ok (found h chain);
  get_transaction_receipt = λ p h chain. ok none;
  send_transaction = λ p w tx chain. (tx.data_field ∷ chain, ok tx.data_field);
  confirm = λ p h chain. (chain, ok (some (record { block_number = some (length chain) })));
}

pub ledger-IsEthers : IsEthers ledger
ledger-IsEthers = record {
  parse_hash-show_hash = λ h. ap ok (read-show h);
  get_transaction-send_transaction =
      λ p q w tx before later h t e f. found_input h later t (cc f) ∙ (cc e);
}

abbrev pub client : BlockchainClient ledger
client = record { network = "sepolia"; provider = tt; wallet = some "0xabc" }

client_made : new_client ledger (λ name. some "0xabc") "sepolia" ≡ ok client
unfolding new_client
client_made = refl

verify_hash-anchor_hash_example :
    verify_hash ledger hex_codecs client
      (show (68 ∷ 78 ∷ 83 ∷ 58 ∷ 171 ∷ []))
      (hex (171 ∷ []))
      ((68 ∷ 78 ∷ 83 ∷ 58 ∷ 171 ∷ []) ∷ [])
    ≡ ok true
unfolding anchor_hash as_bytes anchored
verify_hash-anchor_hash_example =
    verify_hash-anchor_hash ledger hex_codecs ledger-IsEthers hex_codecs-IsCodec client client
      (171 ∷ []) [] ((68 ∷ 78 ∷ 83 ∷ 58 ∷ 171 ∷ []) ∷ []) (show (68 ∷ 78 ∷ 83 ∷ 58 ∷ 171 ∷ []))
      (pos 1) (68 ∷ 78 ∷ 83 ∷ 58 ∷ 171 ∷ []) (record { input = 68 ∷ 78 ∷ 83 ∷ 58 ∷ 171 ∷ [] })
      (omega arith, tt) (omega arith) refl refl refl
