-- ===== src/Privacy/RoundTrip.antt =====
-- What SealTransaction seals, DecryptSingle opens.
use secureorder.Prelude.{
  ℕ, zero, suc, ◌%◌, ◌^◌, ◌∙◌, ◌+◌, ◌-◌, ◌<◌, [], ◌∷◌, true, false, none, some, ◌≡◌, refl, sym, ap,
  arith, ◌==◌, ltb, leb, length, take, is_empty, Bool-cases, inl, inr,
}
use secureorder.Prelude.{ok}
use secureorder.Prelude.Int.{ℤ, pos, negsuc, is_zero, is_neg}
use secureorder.Error.{Bytes}
use secureorder.Privacy.Sodium.{Sodium, IsSodium, IsKeypair}
use secureorder.Privacy.Keys.{new_sequencer_keys}
use secureorder.Privacy.Native.{generate_sequencer_keys, seal_transaction, decrypt_single_tx}
use secureorder.Privacy.Memory.{CMemory, malloc}
use secureorder.Privacy.Decrypt.{seal, key_error, decrypt_single, decrypt_in_c, go_bytes}

pub take_whole : (n : ℕ) (m : Bytes) → length m ≡ n → take n m ≡ m
take_whole n [] h = let z : n ≡ 0 = sym h in rw z refl
take_whole zero (b ∷ m) h = absurd (omega arith)
take_whole (suc n) (b ∷ m) h = ap (λ l. b ∷ l) (take_whole n m (omega arith))

pub is_zero→eq : (i : ℤ) → is_zero i ≡ true → i ≡ pos 0
is_zero→eq (pos zero) h = refl
is_zero→eq (pos (suc n)) h = cc
is_zero→eq (negsuc n) h = cc

nonempty-pos : (s : Bytes) → is_empty s ≡ false → 0 < length s
nonempty-pos [] h = cc
nonempty-pos (b ∷ s) h = omega arith

leb-above : (n k : ℕ) → 0 < n → k ≡ n + 48 → leb k 48 ≡ false
leb-above n k h e = ground arith

-- Keys of the right length pass the tests.
pub key_error-none : (pk sk : Bytes) → length pk ≡ 32 → length sk ≡ 32 → key_error pk sk ≡ none
unfolding key_error
key_error-none pk sk hp hs = ground arith

-- A length below 2^31 is what C.int makes of it.
pub go_bytes-take : (p : Bytes) (n : ℕ) → n < 2 ^ 31 → go_bytes p n ≡ ok (take n p)
unfolding decrypt_single
go_bytes-take p n small =
    let same : n % 2 ^ 32 ≡ n = ground arith in
    let fits : ltb n (2 ^ 31) ≡ true = ground arith in rw (same, fits) refl

module _ (sodium : Sodium) (documented : IsSodium sodium) where
  open sodium use {Rng, sodium_init, crypto_box_keypair, crypto_box_seal, crypto_box_seal_open}

  -- SealTransaction gives a box of libsodium, of a plaintext that is not empty.
  seal-box :
      (pt pk ct : Bytes) (g : Rng)
      → (seal sodium pt pk g).0 ≡ ok ct
      → (is_empty pt ≡ false) × ((crypto_box_seal pt pk g).0 ≡ (pos 0, ct))
  unfolding seal seal_transaction
  seal-box [] pk ct g h = cc
  seal-box (b ∷ pt) pk ct g h =
      let r = crypto_box_seal (b ∷ pt) pk g in
      elim (Bool-cases (length pk == 32)) [
        | inr wrong ↦ cc (rw wrong at h)
        | inl right ↦ elim (Bool-cases (is_zero r.0.0)) [
          | inr failed ↦ cc (rw (right, failed) at h)
          | inl done ↦
              let same : r.0.1 ≡ ct = cc (rw (right, done) at h) in
              (refl, λ i. (is_zero→eq r.0.0 done i, same i))
        ]
      ]

  -- The box opens in C, and its length fits C.int.
  pub decrypt_in_c-open :
      (ct pk sk pt : Bytes) (m : CMemory)
      → crypto_box_seal_open ct pk sk ≡ some pt
      → length pt < 2 ^ 31
      → (decrypt_in_c sodium ct pk sk m).0 ≡ ok pt
  unfolding decrypt_single decrypt_single_tx malloc
  decrypt_in_c-open ct pk sk pt m opens small =
      let sized = documented.open_sized ct pk sk pt opens in
      let long : ltb (length ct) 48 ≡ false = ground arith in
      rw (long, opens)
        (go_bytes-take pt (length ct - 48) (omega arith)
          ∙ ap ok (take_whole (length ct - 48) pt (omega arith)))

  -- A plaintext of less than 2 GiB sealed by SealTransaction to a public key of libsodium comes back
  -- from DecryptSingle with the key pair, byte for byte; the sealed one is 48 bytes longer.
  pub decrypt_single-seal :
      (pt pk sk ct : Bytes) (g : Rng) (m : CMemory)
      → length pt < 2 ^ 31
      → IsKeypair sodium pk sk
      → (seal sodium pt pk g).0 ≡ ok ct
      → (length ct ≡ length pt + 48) × ((decrypt_single sodium ct pk sk m).0 ≡ ok pt)
  unfolding decrypt_single
  decrypt_single-seal pt pk sk ct g m small keys sealed =
      let (some_text, box) = seal-box pt pk ct g sealed in
      let sized = documented.seal_sized pt pk ct g box in
      let some_length = nonempty-pos pt some_text in
      let long : leb (length ct) 48 ≡ false = leb-above (length pt) (length ct) some_length sized in
      (
        sized,
        rw
            (
              long,
              decrypt_single,
              key_error-none pk sk (documented.pk_sized pk sk keys)
                  (documented.sk_sized pk sk keys),
            )
            (decrypt_in_c-open ct pk sk pt m (documented.open_sealed pt pk sk ct g keys box) small),
      )

  -- GenerateSequencerKeys gives a key pair of libsodium.
  pub new_sequencer_keys-IsKeypair :
      (g : Rng) (pk sk : Bytes)
      → (new_sequencer_keys sodium g).0 ≡ ok (pk, sk)
      → IsKeypair sodium pk sk
  unfolding new_sequencer_keys generate_sequencer_keys
  new_sequencer_keys-IsKeypair g pk sk h =
      let g' = (sodium_init g).1 in
      let r = crypto_box_keypair g' in
      elim (Bool-cases (is_neg (sodium_init g).0)) [
        | inl failed ↦ cc (rw failed at h)
        | inr ready ↦ elim (Bool-cases (is_zero r.0.0)) [
          | inr failed ↦ cc (rw (ready, failed) at h)
          | inl done ↦
              let same : r.0.1 ≡ pk = cc (rw (ready, done) at h) in
              let same_too : r.0.2 ≡ sk = cc (rw (ready, done) at h) in
              record { before = g'; made = λ i. (is_zero→eq r.0.0 done i, same i, same_too i) }
        ]
      ]
