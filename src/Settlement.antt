-- ===== src/Settlement.antt =====
-- internal/settlement: where batch commitments are published, and internal/rpc/server.go's choice of
-- a publisher. The Ethereum node and the ECDSA key parser are parameters.
pub mod Decode
pub mod Publish
mod Tests
use secureorder.Prelude.{
  ℕ, ◌+◌, List, [], ◌∷◌, ◌++◌, Bool, true, false, Option, none, some, if◌then◌else◌, ◌==◌, ◌||◌,
  ◌&&◌, length, is_empty, not,
}
use secureorder.Prelude.{Result, ok, err, ◌>>=◌}
use secureorder.Prelude.Int.{ℤ}
use secureorder.Text.{codes, trim_0x}
use secureorder.Error.{Bytes, GoError, message, wrap}
use secureorder.Encoding.Hex.{hex_decode}
use secureorder.Encoding.Decimal.{format_nat, parse_int}

-- `hex.DecodeString` with its error; the text of the error is abridged.
decode_string : Bytes → Result GoError Bytes
decode_string s = elim (hex_decode s) [
  | none ↦ err (message (codes "encoding/hex: invalid input"))
  | some b ↦ ok b
]

-- The error keeps its cause behind a prefix, as `fmt.Errorf("prefix: %w", err)` does.
prefixed : Bytes → Result GoError Bytes → Result GoError Bytes
prefixed p (ok b) = ok b
prefixed p (err e) = err (wrap p e)

-- A string of 64 hex digits, with or without `0x`, to its 32 bytes.
unfoldable pub parse_commitment32 : Bytes → Result GoError Bytes
unfolding decode_string prefixed
parse_commitment32 commitment_hex =
    let raw = trim_0x commitment_hex in
    if length raw == 64
    then prefixed (codes "decode commitment hex: ") (decode_string raw)
    else err
        (message (codes "commitment must be 32 bytes hex, got len=" ++ format_nat (length raw)))

-- What the program asks of go-ethereum: parse a key, dial a node and make a signer for a chain, send
-- `commitOrder(bytes32)`, and wait until a transaction is mined, for its receipt's status. A call may
-- change the state of the node and the chain.
pub record Ethereum : Type 1 where
  pub Chain : Type 0
  pub Key : Type 0
  pub Client : Type 0
  pub Tx : Type 0
  pub dial : Bytes → Result GoError Client
  pub hex_to_ecdsa : Bytes → Result GoError Key
  pub new_transactor : Key → ℤ → Result GoError (Unit {0})
  pub transact : Client → Bytes → Chain → Result GoError Tx × Chain
  pub wait_mined : Client → Tx → Chain → Result GoError ℕ × Chain
  pub tx_hex : Tx → Bytes

-- The environment variables ORDER_VERIFIER_RPC_URL, _CONTRACT, _PRIVATE_KEY and _CHAIN_ID; an unset
-- one is empty.
pub record Environment : Type 0 where
  pub rpc_url : Bytes
  pub contract : Bytes
  pub private_key : Bytes
  pub chain_id : Bytes

-- `CommitmentPublisher`: NoopPublisher, or EVMPublisher with its client.
pub data Publisher (C : Type 0) : Type 0 where
  noop : Publisher C
  evm : C → Publisher C

-- Which of evm_publisher.go and evm_publisher_stub.go is built.
pub data Build : Type 0 where
  evm_tag : Build
  no_evm_tag : Build

module _ (eth : Ethereum) where
  open eth use {
    Chain, Key, Client, Tx, dial, hex_to_ecdsa, new_transactor, transact, wait_mined, tx_hex,
  }

  unfoldable pub parse_private_key : Bytes → Result GoError Key
  unfolding decode_string
  parse_private_key private_key_hex =
      let key = trim_0x private_key_hex in
      elim (decode_string key) [
        | err e ↦ err (wrap (codes "invalid private key hex: ") e)
        | ok b ↦ elim (hex_to_ecdsa key) [
          | err e ↦ err (wrap (codes "parse private key: ") e)
          | ok pk ↦ ok pk
        ]
      ]

  -- After the dial the contract's ABI, a constant of the program, is parsed and bound: no case of
  -- its own.
  unfoldable pub new_evm_publisher : Build → Environment → ℤ → Result GoError (Publisher Client)
  unfolding parse_private_key
  new_evm_publisher no_evm_tag env chain_id =
      err (message (codes "evm publisher disabled: build with -tags evm"))
  new_evm_publisher evm_tag env chain_id =
      if is_empty env.rpc_url || is_empty env.contract || is_empty env.private_key
      then err (message (codes "rpcURL, contractAddress and privateKeyHex are required"))
      else elim (dial env.rpc_url) [
        | err e ↦ err (wrap (codes "dial rpc: ") e)
        | ok client ↦ elim (parse_private_key env.private_key) [
          | err e ↦ err e
          | ok pk ↦ elim (new_transactor pk chain_id) [
            | err e ↦ err (wrap (codes "create transactor: ") e)
            | ok auth ↦ ok (evm client)
          ]
        ]
      ]

  unfoldable pub new_publisher_from_env : Build → Environment → Result GoError (Publisher Client)
  unfolding new_evm_publisher
  new_publisher_from_env build env =
      if is_empty env.rpc_url
        || is_empty env.contract
        || is_empty env.private_key
        || is_empty env.chain_id
      then ok noop
      else elim (parse_int env.chain_id) [
        | none ↦
            err (
              wrap (codes "invalid ORDER_VERIFIER_CHAIN_ID: ") (message (codes "strconv.ParseInt")))
        | some id ↦ new_evm_publisher build env id
      ]

  -- NewServer of internal/rpc/server.go: an error leaves the no-op publisher.
  unfoldable pub server_publisher : Build → Environment → Publisher Client
  unfolding new_publisher_from_env
  server_publisher build env = elim (new_publisher_from_env build env) [ ok p ↦ p | err e ↦ noop ]

  mined_status : Tx → Result GoError ℕ × Chain → Option GoError × Chain
  mined_status tx (err e, chain) = (some (wrap (codes "wait mined: ") e), chain)
  mined_status tx (ok status, chain) =
      if status == 1
      then (none, chain)
      else (some (message (codes "commitOrder reverted, tx=" ++ tx_hex tx)), chain)

  sent : Client → Result GoError Tx × Chain → Option GoError × Chain
  unfolding mined_status
  sent client (err e, chain) = (some (wrap (codes "submit commitOrder tx: ") e), chain)
  sent client (ok tx, chain) = mined_status tx (wait_mined client tx chain)

  -- PublishCommitment; the mutex makes each call one step. The error, and the state of the chain.
  unfoldable pub publish_commitment : Publisher Client → Bytes → Chain → Option GoError × Chain
  unfolding sent
  publish_commitment noop commitment_hex chain = (none, chain)
  publish_commitment (evm client) commitment_hex chain = elim (parse_commitment32 commitment_hex) [
    | err e ↦ (some e, chain)
    | ok commitment ↦ sent client (transact client commitment chain)
  ]
