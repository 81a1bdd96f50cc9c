-- ===== src/Privacy/Sodium.antt =====
-- What the privacy layer asks of libsodium, and what libsodium documents of it.
use secureorder.Prelude.{◌+◌, Option, some, ◌≡◌, length}
use secureorder.Prelude.Int.{ℤ, pos}
use secureorder.Error.{Bytes}

-- A call that draws random bytes changes the generator. The C functions' results come before what
-- they write: the two keys, the sealed box; `none` where crypto_box_seal_open returns -1.
pub record Sodium : Type 1 where
  pub Rng : Type 0
  pub sodium_init : Rng → ℤ × Rng
  pub crypto_box_keypair : Rng → (ℤ × Bytes × Bytes) × Rng
  pub crypto_box_seal : Bytes → Bytes → Rng → (ℤ × Bytes) × Rng
  pub crypto_box_seal_open : Bytes → Bytes → Bytes → Option Bytes

module _ (sodium : Sodium) where
  open sodium use {Rng, crypto_box_keypair, crypto_box_seal, crypto_box_seal_open}

  -- crypto_box_keypair has made these keys.
  pub record IsKeypair (pk sk : Bytes) : Type 0 where
    pub before : Rng
    pub made : (crypto_box_keypair before).0 ≡ (pos 0, pk, sk)

  -- Keys are of 32 bytes, a box is 48 bytes longer than what it holds, and the keys to which a
  -- message was sealed open the box to this message.
  pub record IsSodium : Type 0 where
    pub pk_sized : (pk sk : Bytes) → IsKeypair pk sk → length pk ≡ 32
    pub sk_sized : (pk sk : Bytes) → IsKeypair pk sk → length sk ≡ 32
    pub seal_sized :
        (m pk ct : Bytes) (g : Rng)
        → (crypto_box_seal m pk g).0 ≡ (pos 0, ct)
        → length ct ≡ length m + 48
    pub open_sized :
        (ct pk sk m : Bytes) → crypto_box_seal_open ct pk sk ≡ some m → length ct ≡ length m + 48
    pub open_sealed :
        (m pk sk ct : Bytes) (g : Rng)
        → IsKeypair pk sk
        → (crypto_box_seal m pk g).0 ≡ (pos 0, ct)
        → crypto_box_seal_open ct pk sk ≡ some m
