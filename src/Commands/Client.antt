-- ===== src/Commands/Client.antt =====
-- cmd/client/main.go: one transaction is built, sealed and submitted. gRPC is a parameter, and a
-- float64 flag is given by what `%.6f` makes of it.
pub mod Submission
mod Tests
use secureorder.Prelude.{ℕ, List, [], ◌∷◌, ◌++◌, Bool, Option, none, some, if◌then◌else◌, is_empty}
use secureorder.Prelude.{Result, ok, err}
use secureorder.Prelude.Int.{ℤ, pos}
use secureorder.Text.{codes}
use secureorder.Error.{Bytes, GoError}
use secureorder.Encoding.Decimal.{format_int}
use secureorder.Privacy.Sodium.{Sodium}
use secureorder.Privacy.Keys.{Files, public_key_bytes, init, load_key_from_file}
use secureorder.Privacy.Decrypt.{seal}

pub record ClientFlags : Type 0 where
  pub addr : Bytes
  pub pub_key_path : Bytes
  pub payload : Bytes
  pub side : Bytes
  pub pair : Bytes
  pub amount : Bytes
  pub price : Bytes

-- What the client ends with: one of the calls of log.Fatalf, or the line that it prints, with
-- `Accepted` and the payload.
pub data Outcome : Type 0 where
  not_connected : GoError → Outcome
  init_failed : GoError → Outcome
  key_not_loaded : GoError → Outcome
  not_sealed : GoError → Outcome
  rpc_failed : GoError → Outcome
  submitted : Bool → Bytes → Outcome

-- A raw payload is taken as it is; without one the trade is spelled out, with the Unix time.
unfoldable pub tx_payload : ClientFlags → ℤ → Bytes
tx_payload f now =
    if is_empty f.payload
    then codes "TRADE|"
      ++ f.side
      ++ codes "|"
      ++ f.pair
      ++ codes "|"
      ++ f.amount
      ++ codes "|"
      ++ f.price
      ++ codes "|"
      ++ format_int now
    else f.payload

module _ (sodium : Sodium) {World : Type 0} (new_client : Bytes → Option GoError)
    (submit_tx : Bytes → World → Result GoError Bool × World) where
  open sodium use {Rng}

  -- From the call of SubmitTx on.
  pub answered : Bytes → Result GoError Bool × World → Outcome × World
  answered p (ok accepted, w) = (submitted accepted p, w)
  answered p (err e, w) = (rpc_failed e, w)

  pub sent : Bytes → Result GoError Bytes → World → Outcome × World
  unfolding answered
  sent p (err e) w = (not_sealed e, w)
  sent p (ok ciphertext) w = answered p (submit_tx ciphertext w)

  pub with_key : Bytes → Rng → Result GoError Bytes → World → Outcome × World
  unfolding sent
  with_key p g (err e) w = (key_not_loaded e, w)
  with_key p g (ok pk) w = sent p (seal sodium p pk g).0 w

  pub initialised : ClientFlags → Files → ℤ → Option GoError × Rng → World → Outcome × World
  unfolding with_key
  initialised f fs now (some e, g) w = (init_failed e, w)
  initialised f fs now (none, g) w =
      with_key (tx_payload f now) g (load_key_from_file f.pub_key_path (pos public_key_bytes) fs) w

  unfoldable pub client_main : ClientFlags → Files → ℤ → Rng → World → Outcome × World
  unfolding initialised
  client_main f fs now g w = elim (new_client f.addr) [
    | some e ↦ (not_connected e, w)
    | none ↦ initialised f fs now (init sodium g) w
  ]
