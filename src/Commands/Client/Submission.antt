-- ===== src/Commands/Client/Submission.antt =====
-- What the client has done when it prints its line.
use secureorder.Prelude.{
  ◌<◌, ◌^◌, length, Bool, Option, ◌≡◌, sym, Option-cases, Result-cases, inl, inr,
}
use secureorder.Prelude.{Result, ok, err}
use secureorder.Prelude.Int.{ℤ, pos}
use secureorder.Error.{Bytes, GoError}
use secureorder.Privacy.Sodium.{Sodium, IsSodium, IsKeypair}
use secureorder.Privacy.Memory.{CMemory}
use secureorder.Privacy.Keys.{Files, init, load_key_from_file}
use secureorder.Privacy.Decrypt.{seal, decrypt_single}
use secureorder.Privacy.RoundTrip.{decrypt_single-seal}
use secureorder.Commands.Client.{
  ClientFlags, submitted, tx_payload, answered, with_key, initialised, client_main,
}

module _ (sodium : Sodium) {World : Type 0} (new_client : Bytes → Option GoError)
    (submit_tx : Bytes → World → Result GoError Bool × World) (f : ClientFlags) (fs : Files)
    (now : ℤ) where
  open sodium use {Rng}

  -- One call of SubmitTx made the line: its ciphertext is sealed from the payload with the key in the
  -- file.
  record IsSubmitted (w w' : World) (accepted : Bool) (p : Bytes) : Type 0 where
    pk : Bytes
    rng : Rng
    ciphertext : Bytes
    loaded : load_key_from_file f.pub_key_path (pos 32) fs ≡ ok pk
    sealed : (seal sodium p pk rng).0 ≡ ok ciphertext
    called : submit_tx ciphertext w ≡ (ok accepted, w')
    chosen : p ≡ tx_payload f now

  of_answered :
      (p q : Bytes) (r : Result GoError Bool × World) (accepted : Bool) (w' : World)
      → answered sodium new_client submit_tx p r ≡ (submitted accepted q, w')
      → (r ≡ (ok accepted, w')) × (p ≡ q)
  unfolding client_main
  of_answered p q (ok a, w) accepted w' h = (cc, cc)
  of_answered p q (err e, w) accepted w' h = (cc, cc)

  of_client_main :
      (g : Rng) (w w' : World) (accepted : Bool) (p : Bytes)
      → client_main sodium new_client submit_tx f fs now g w ≡ (submitted accepted p, w')
      → IsSubmitted w w' accepted p
  unfolding client_main
  of_client_main g w w' accepted p h =
      let p' = tx_payload f now in
      let g' = (init sodium g).1 in
      elim (Option-cases (new_client f.addr)) [
        | inr (e, failed) ↦ cc (rw (failed, client_main) at h)
        | inl up ↦ elim (Option-cases (init sodium g).0) [
          | inr (e, failed) ↦ cc (rw (up, failed, client_main, initialised) at h)
          | inl ready ↦ elim (Result-cases (load_key_from_file f.pub_key_path (pos 32) fs)) [
            | inr (e, failed) ↦ cc (rw (up, ready, failed, client_main, initialised) at h)
            | inl (pk, loaded) ↦ elim (Result-cases (seal sodium p' pk g').0) [
              | inr (e, failed) ↦
                  cc (rw (up, ready, loaded, failed, client_main, initialised, with_key) at h)
              | inl (ct, sealed) ↦
                  let (called, same) =
                    of_answered p' p (submit_tx ct w) accepted w'
                      (rw (up, ready, loaded, sealed, client_main, initialised, with_key) at h) in
                  record {
                    pk = pk;
                    rng = g';
                    ciphertext = ct;
                    loaded = loaded;
                    sealed = rw same at sealed;
                    called = called;
                    chosen = sym same;
                  }
            ]
          ]
        ]
      ]

  -- When the client prints that it has submitted a payload of less than 2 GiB, it has called SubmitTx exactly once, the line shows
  -- the answer of that call and the chosen payload, and the ciphertext that was sent is one that
  -- DecryptSingle opens to this payload with the private key that goes with the key in the file.
  pub client_main-submitted :
      (documented : IsSodium sodium) (pk sk : Bytes) (g : Rng) (w w' : World) (accepted : Bool)
      (p : Bytes) (m : CMemory)
      → length p < 2 ^ 31
      → IsKeypair sodium pk sk
      → load_key_from_file f.pub_key_path (pos 32) fs ≡ ok pk
      → client_main sodium new_client submit_tx f fs now g w ≡ (submitted accepted p, w')
      → (p ≡ tx_payload f now)
        × (ct : Bytes) × (submit_tx ct w ≡ (ok accepted, w'))
        × ((decrypt_single sodium ct pk sk m).0 ≡ ok p)
  client_main-submitted documented pk sk g w w' accepted p m small keys here h =
      let i = of_client_main g w w' accepted p h in
      let same : i.pk ≡ pk = cc (i.loaded, here) in
      (
        i.chosen,
        i.ciphertext,
        i.called,
        (decrypt_single-seal sodium documented p pk sk i.ciphertext i.rng m small keys
            (rw same at i.sealed)).1,
      )
