-- ===== src/Settlement/Tests.antt =====
-- Settlement on concrete inputs, with a chain that is the list of the commitments recorded on it.
use secureorder.Prelude.{
  ℕ, ◌%◌, ◌+◌, List, [], ◌∷◌, ◌++◌, none, ◌≡◌, refl, arith, length, All, replicate,
}
use secureorder.Prelude.{Result, ok, err}
use secureorder.Prelude.Int.{pos}
use secureorder.Text.{codes, trim_0x}
use secureorder.Error.{Bytes, GoError}
use secureorder.Encoding.Bytes.{IsByte}
use secureorder.Encoding.Hex.{hex_decode}
use secureorder.Sequencing.Transaction.{EncryptedTransaction}
use secureorder.Sequencing.Commitment.{write_batch, generate_batch_commitment}
use secureorder.Settlement.{parse_commitment32, Ethereum, Environment, evm, publish_commitment}
use secureorder.Settlement.Decode.{parse_commitment32-generate_batch_commitment}
use secureorder.Settlement.Publish.{publish_commitment-none}

abbrev total : Bytes → ℕ
total [] = 0
total (b ∷ bs) = b + total bs

-- A stand-in for SHA-256: 32 times the sum of the bytes.
abbrev digest : Bytes → Bytes
digest m = replicate 32 (total m % 256)

digest-lt : (m : Bytes) → (length (digest m) ≡ 32) × All IsByte (digest m)
digest-lt m = (refl, omega arith)

abbrev batch : List EncryptedTransaction
batch = record { seq = 1; ciphertext = codes "ct"; arrived_at = pos 3 } ∷ []

parse_commitment32-generate_batch_commitment_example :
    (parse_commitment32 (generate_batch_commitment digest batch)
      ≡ ok (digest (write_batch batch [])))
    × (parse_commitment32 (codes "0x" ++ generate_batch_commitment digest batch)
        ≡ ok (digest (write_batch batch [])))
parse_commitment32-generate_batch_commitment_example =
    parse_commitment32-generate_batch_commitment digest batch digest-lt

abbrev hex32 : Bytes
hex32 = codes "0x" ++ replicate 64 b'a'

abbrev bytes32 : Bytes
bytes32 = replicate 32 170

parsed_hex32 : parse_commitment32 hex32 ≡ ok bytes32
unfolding parse_commitment32 trim_0x hex_decode
parsed_hex32 = refl

abbrev test_chain : Ethereum
test_chain = record {
  Chain = List Bytes;
  Key = Unit {0};
  Client = Unit {0};
  Tx = ℕ;
  dial = λ url. ok tt;
  hex_to_ecdsa = λ key. ok tt;
  new_transactor = λ key id. ok tt;
  transact = λ client c chain. (ok (length chain), chain ++ c ∷ []);
  wait_mined = λ client tx chain. (ok 1, chain);
  tx_hex = λ tx. codes "0x0";
}

recorded : (publish_commitment test_chain (evm tt) hex32 []).0 ≡ none
unfolding publish_commitment parse_commitment32 trim_0x hex_decode
recorded = refl

publish_commitment-none_example :
    (commitment : Bytes) × (tx : ℕ) × (parse_commitment32 hex32 ≡ ok commitment)
    × (◌≡◌ {A = Result GoError ℕ} (ok 0) (ok tx))
    × (◌≡◌ {A = Result GoError ℕ} (ok 1) (ok 1))
publish_commitment-none_example = publish_commitment-none test_chain tt hex32 [] recorded

too_short : (e : GoError) × (parse_commitment32 (codes "5d") ≡ err e)
unfolding parse_commitment32 trim_0x
too_short = (_, refl)

abbrev full_environment : Environment
full_environment = record {
  rpc_url = codes "http://127.0.0.1:8545";
  contract = codes "0x01";
  private_key = codes "0xab";
  chain_id = codes "31337";
}
