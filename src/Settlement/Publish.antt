-- ===== src/Settlement/Publish.antt =====
-- What a publication that reports success has done, and which publisher the server ends up with.
use secureorder.Prelude.{ℕ, none, ◌≡◌, refl, arith, inl, inr}
use secureorder.Prelude.{Result, ok, err, Result-cases}
use secureorder.Error.{Bytes, GoError}
use secureorder.Settlement.{
  parse_commitment32, Ethereum, Environment, evm, no_evm_tag, server_publisher, publish_commitment,
  sent, mined_status,
}

module _ (eth : Ethereum) where
  open eth use {Chain, Key, Client, Tx, transact, wait_mined}

  mined-none :
      (tx : Tx) (r : Result GoError ℕ × Chain) → (mined_status eth tx r).0 ≡ none → (r.0 ≡ ok 1)
  unfolding publish_commitment
  mined-none tx (err e, chain) h = cc
  mined-none tx (ok status, chain) h = ground arith

  sent-none :
      (client : Client) (r : Result GoError Tx × Chain)
      → (sent eth client r).0 ≡ none
      → (tx : Tx) × (r.0 ≡ ok tx) × ((wait_mined client tx r.1).0 ≡ ok 1)
  unfolding publish_commitment
  sent-none client (err e, chain) h = cc
  sent-none client (ok tx, chain) h = (tx, refl, mined-none tx (wait_mined client tx chain) h)

  -- PublishCommitment of the Ethereum publisher reports success only if the string was a 32-byte
  -- commitment, a transaction with just these bytes was accepted by the node, and this transaction
  -- was mined with status 1.
  pub publish_commitment-none :
      (client : Client) (commitment_hex : Bytes) (chain : Chain)
      → (publish_commitment eth (evm client) commitment_hex chain).0 ≡ none
      → (commitment : Bytes) × (tx : Tx) × (parse_commitment32 commitment_hex ≡ ok commitment)
        × ((transact client commitment chain).0 ≡ ok tx)
        × ((wait_mined client tx (transact client commitment chain).1).0 ≡ ok 1)
  unfolding publish_commitment
  publish_commitment-none client c chain h = elim (Result-cases (parse_commitment32 c)) [
    | inl (commitment, p) ↦
        let (tx, t, w) =
          sent-none client (transact client commitment chain) (rw (p, publish_commitment) at h) in
        (commitment, tx, p, t, w)
    | inr (e, p) ↦ absurd (cc (rw (p, publish_commitment) at h))
  ]

  -- A server built without the `evm` tag publishes nowhere, even if all four variables are set: every
  -- publication is reported as a success and leaves the chain as it was.
  pub server_publisher_no_evm :
      (env : Environment) (commitment_hex : Bytes) (chain : Chain)
      → publish_commitment eth (server_publisher eth no_evm_tag env) commitment_hex chain
        ≡ (none, chain)
  unfolding publish_commitment server_publisher
  server_publisher_no_evm env c chain = ground arith
