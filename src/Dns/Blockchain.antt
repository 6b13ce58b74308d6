-- ===== src/Dns/Blockchain.antt =====
-- indieweb2-bastion/graphql-dns-api/src/blockchain.rs: the client that anchors hashes in transactions.
-- The crate ethers, with the nodes behind it, is a parameter; the environment and the chain are
-- arguments.
pub mod Verifying
pub mod Anchoring
use civic_connect.Prelude.{
  ℕ, zero, suc, ◌+◌, ◌-◌, ◌*◌, ◌/◌, ◌%◌, ◌^◌, ◌≤◌, ◌<◌, String, ◌≡◌, refl, sym, ap, subst, ◌∙◌, ◌≢◌,
  ◌↔◌, ◌⊎◌, inl, inr, Bool, true, false, not, ◌&&◌, ◌||◌, Option, none, some, List, [], ◌∷◌, ◌++◌,
  map, ◌==◌, eq_iff, ltb, leb, eqb, if◌then◌else◌, Bool-cases, Option-cases, length, take, drop,
  replicate, length-append, take-append, drop-append, length-replicate, All, reverse, Result, ok,
  err, ok_or, map_err, is_ok, ◌>>=◌, ◌>>◌, bind-ok, bind-err, map_err-ok, map_err-err,
}
use native.Mathlib.Omega.{arith}
use civic_connect.Prelude.Text.{append, skip, text_length}
use civic_connect.Prelude.Bytes.{as_bytes, Codecs}
use civic_connect.Dns.Records.{ℤ, pos, negsuc}

pub record TransactionRequest : Type 0 where
  pub to : String
  pub value : ℕ
  pub data_field : List ℕ
  pub gas_price : ℕ

pub record Receipt : Type 0 where
  pub block_number : Option ℕ

pub record Transaction : Type 0 where
  pub input : List ℕ

-- What is used of the crate. A chain is what all nodes see of all networks; sending and waiting change
-- it, also where they fail.
pub record Ethers : Type 1 where
  pub Provider : Type 0
  pub Wallet : Type 0
  pub TxHash : Type 0
  pub Chain : Type 0
  pub try_from : String → Result String Provider
  pub parse_wallet : String → Option Wallet
  pub with_chain_id : ℕ → Wallet → Wallet
  pub address : Wallet → String
  pub parse_hash : String → Result String TxHash
  pub show_hash : TxHash → String
  pub get_chainid : Provider → Chain → Result String ℕ
  pub get_gas_price : Provider → Chain → Result String ℕ
  pub get_block_number : Provider → Chain → Result String ℕ
  pub get_transaction : Provider → TxHash → Chain → Result String (Option Transaction)
  pub get_transaction_receipt : Provider → TxHash → Chain → Result String (Option Receipt)
  pub send_transaction :
      Provider → Wallet → TransactionRequest → Chain → Chain × Result String TxHash
  pub confirm : Provider → TxHash → Chain → Chain × Result String (Option Receipt)

-- What the crate documents: a hash is read back from its text, and the transaction that is found by the
-- hash that sending gave has the data that was sent.
pub record IsEthers (x : Ethers) : Type 0 where
  pub parse_hash-show_hash : (h : x.TxHash) → x.parse_hash (x.show_hash h) ≡ ok h
  pub get_transaction-send_transaction :
      (p q : x.Provider) (w : x.Wallet) (tx : TransactionRequest) (before later : x.Chain)
      (h : x.TxHash) (t : Transaction)
      → (x.send_transaction p w tx before).1 ≡ ok h
      → x.get_transaction q h later ≡ ok (some t)
      → t.input ≡ tx.data_field

-- The texts of `AppError::Blockchain`
pub data BlockchainError : Type 0 where
  unsupported_network provider_error send_failed transaction_failed : String → BlockchainError
  invalid_transaction_hash : String → BlockchainError
  no_wallet invalid_hex_data no_receipt no_block_number : BlockchainError
  transaction_not_found receipt_not_found : BlockchainError

abbrev pub unwrap_or : Option String → String → String
unwrap_or (some a) b = a
unwrap_or none b = b

-- `u64 as i64`
abbrev pub as_i64 : ℕ → ℤ
as_i64 n = if ltb n (2 ^ 63) then pos n else negsuc (2 ^ 64 - 1 - n)

-- The URL of a network; `env` is `std::env::var`.
unfoldable pub rpc_url : (String → Option String) → String → Result BlockchainError String
rpc_url env network =
    if network == "ethereum"
    then ok (unwrap_or (env "ETHEREUM_RPC_URL") "https://eth.llamarpc.com")
    else if network == "sepolia"
    then ok (unwrap_or (env "SEPOLIA_RPC_URL") "https://rpc.sepolia.org")
    else if network == "polygon"
    then ok (unwrap_or (env "POLYGON_RPC_URL") "https://polygon-rpc.com")
    else if network == "polygon-amoy"
    then ok (unwrap_or (env "POLYGON_AMOY_RPC_URL") "https://rpc-amoy.polygon.technology")
    else err (unsupported_network network)

module _ (x : Ethers) where
  pub record BlockchainClient : Type 0 where
    pub network : String
    pub provider : x.Provider
    pub wallet : Option x.Wallet

  -- The wallet of the variable PRIVATE_KEY.
  abbrev pub parse_key : Option String → Option x.Wallet
  parse_key none = none
  parse_key (some key) = x.parse_wallet key

  -- `BlockchainClient::new`
  unfoldable pub new_client :
      (String → Option String) → String → Result BlockchainError BlockchainClient
  unfolding rpc_url
  new_client env network = do
    url ← rpc_url env network
    provider ← map_err provider_error (x.try_from url)
    ok (record { network = network; provider = provider; wallet = parse_key (env "PRIVATE_KEY") })

  -- The answer to a confirmed transaction.
  unfoldable pub anchored : x.TxHash → Option Receipt → Result BlockchainError (String × ℤ)
  anchored h answer = do
    receipt ← ok_or answer no_receipt
    number ← ok_or receipt.block_number no_block_number
    ok (x.show_hash h, as_i64 number)

  abbrev pub confirmed :
      x.TxHash
      → x.Chain × Result String (Option Receipt)
      → x.Chain × Result BlockchainError (String × ℤ)
  confirmed h (chain, answer) = (chain, map_err transaction_failed answer >>= anchored h)

  abbrev pub sent :
      x.Provider → x.Chain × Result String x.TxHash → x.Chain × Result BlockchainError (String × ℤ)
  sent p (chain, err e) = (chain, err (send_failed e))
  sent p (chain, ok h) = confirmed h (x.confirm p h chain)

  module _ (c : Codecs) where
    -- `0x`, the prefix in hexadecimal and the hash, of which the first two characters are dropped again
    unfoldable pub anchor_data : String → String
    anchor_data hash = skip 2 (append "0x" (append (c.hex_encode (as_bytes "DNS:")) hash))

    -- What `anchor_hash` signs and sends, and with which wallet.
    unfoldable pub prepare :
        x.Provider
        → x.Wallet
        → String
        → x.Chain
        → Result BlockchainError (x.Wallet × TransactionRequest)
    unfolding anchor_data
    prepare p wallet hash chain = do
      chain_id ← map_err provider_error (x.get_chainid p chain)
      gas_price ← map_err provider_error (x.get_gas_price p chain)
      data_bytes ← ok_or (c.hex_decode (anchor_data hash)) invalid_hex_data
      ok (
        x.with_chain_id chain_id wallet,
        record {
          to = x.address (x.with_chain_id chain_id wallet);
          value = 0;
          data_field = data_bytes;
          gas_price = gas_price;
        },
      )

    abbrev pub submit :
        x.Provider
        → x.Chain
        → Result BlockchainError (x.Wallet × TransactionRequest)
        → x.Chain × Result BlockchainError (String × ℤ)
    submit p chain (err e) = (chain, err e)
    submit p chain (ok (signer, tx)) = sent p (x.send_transaction p signer tx chain)

    unfoldable pub anchor_hash :
        BlockchainClient → String → x.Chain → x.Chain × Result BlockchainError (String × ℤ)
    unfolding prepare
    anchor_hash self hash chain = elim self.wallet [
      | none ↦ (chain, err no_wallet)
      | some wallet ↦ submit self.provider chain (prepare self.provider wallet hash chain)
    ]

    -- What `verify_hash` finds in the data of a transaction, as hexadecimal text.
    unfoldable pub holds_hash : String → String → Bool
    holds_hash data_str expected_hash =
        if leb (text_length data_str) 8 then false else skip 8 data_str == expected_hash

    unfoldable pub verify_hash :
        BlockchainClient → String → String → x.Chain → Result BlockchainError Bool
    unfolding holds_hash
    verify_hash self tx_hash expected_hash chain = do
      parsed ← map_err invalid_transaction_hash (x.parse_hash tx_hash)
      answer ← map_err provider_error (x.get_transaction self.provider parsed chain)
      tx ← ok_or answer transaction_not_found
      ok (holds_hash (c.hex_encode tx.input) expected_hash)

  unfoldable pub get_receipt : BlockchainClient → String → x.Chain → Result BlockchainError Receipt
  get_receipt self tx_hash chain = do
    parsed ← map_err invalid_transaction_hash (x.parse_hash tx_hash)
    answer ← map_err provider_error (x.get_transaction_receipt self.provider parsed chain)
    ok_or answer receipt_not_found

  unfoldable pub get_block_number : BlockchainClient → x.Chain → Result BlockchainError ℤ
  get_block_number self chain = do
    number ← map_err provider_error (x.get_block_number self.provider chain)
    ok (as_i64 number)
