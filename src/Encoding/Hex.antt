-- ===== src/Encoding/Hex.antt =====
-- Package encoding/hex: EncodeToString writes lower-case digits, DecodeString reads both cases and
-- fails on a byte that is no digit and on an odd length.
use secureorder.Prelude.{
  of_some, of_none, ◌==◌, false, ℕ, ◌+◌, ◌-◌, ◌*◌, ◌/◌, ◌%◌, ◌<◌, List, [], ◌∷◌, ◌≡◌, refl, arith,
  length, All, Option, none, some, ltb, leb, if◌then◌else◌, ◌&&◌,
}
use secureorder.Encoding.Bytes.{IsByte}

pub hex_digit : ℕ → ℕ
hex_digit d = if ltb d 10 then b'0' + d else b'a' + (d - 10)

unfoldable pub hex_encode : List ℕ → List ℕ
unfolding hex_digit
hex_encode [] = []
hex_encode (b ∷ bs) = hex_digit (b / 16) ∷ hex_digit (b % 16) ∷ hex_encode bs

from_hex_char : ℕ → Option ℕ
from_hex_char c =
    if leb b'0' c && leb c b'9'
    then some (c - b'0')
    else if leb b'a' c && leb c b'f'
    then some (c - b'a' + 10)
    else if leb b'A' c && leb c b'F'
    then some (c - b'A' + 10)
    else none

join_nibbles : Option ℕ → Option ℕ → Option (List ℕ) → Option (List ℕ)
join_nibbles (some hi) (some lo) (some bs) = some ((hi * 16 + lo) ∷ bs)
join_nibbles _ _ _ = none

unfoldable pub hex_decode : List ℕ → Option (List ℕ)
unfolding from_hex_char join_nibbles
hex_decode [] = some []
hex_decode (c ∷ []) = none
hex_decode (c ∷ d ∷ cs) = join_nibbles (from_hex_char c) (from_hex_char d) (hex_decode cs)

from_hex_char-hex_digit : (d : ℕ) → d < 16 → from_hex_char (hex_digit d) ≡ some d
unfolding from_hex_char hex_digit
from_hex_char-hex_digit d h = ground arith

-- Every string of bytes is read back from its hex digits.
pub hex_decode-hex_encode : (bs : List ℕ) → All IsByte bs → hex_decode (hex_encode bs) ≡ some bs
unfolding hex_decode hex_encode
hex_decode-hex_encode [] h = refl
hex_decode-hex_encode (b ∷ bs) h =
    rw
      (
        from_hex_char-hex_digit (b / 16) (omega arith),
        from_hex_char-hex_digit (b % 16) (omega arith),
        hex_decode-hex_encode bs h.1,
      )
      (ground arith)

pub length-hex_encode : (bs : List ℕ) → length (hex_encode bs) ≡ 2 * length bs
unfolding hex_encode
length-hex_encode [] = refl
length-hex_encode (b ∷ bs) = omega (arith, length-hex_encode bs)

pub hex_digit-ne-x : (d : ℕ) → d < 16 → (hex_digit d == b'x') ≡ false
unfolding hex_digit
hex_digit-ne-x d h = ground arith

from_hex_char-lt : (c d : ℕ) → from_hex_char c ≡ some d → d < 16
unfolding from_hex_char
from_hex_char-lt c d e = ground arith

-- What a successful decoding gives: one byte for each two digits.
pub record IsDecoded (s bs : List ℕ) : Type 0 where
  pub halved : 2 * length bs ≡ length s
  pub bytes : All IsByte bs

join_nibbles-IsDecoded :
    (c d : ℕ) (s bs : List ℕ) (hi lo : Option ℕ) (rest : Option (List ℕ))
    → ((x : ℕ) → hi ≡ some x → x < 16)
    → ((x : ℕ) → lo ≡ some x → x < 16)
    → ((xs : List ℕ) → rest ≡ some xs → IsDecoded s xs)
    → join_nibbles hi lo rest ≡ some bs
    → IsDecoded (c ∷ d ∷ s) bs
unfolding join_nibbles
join_nibbles-IsDecoded c d s bs (some hi) (some lo) (some xs) h l r e =
    let p = h hi refl in
    let q = l lo refl in
    let t = r xs refl in
    of_some (IsDecoded (c ∷ d ∷ s)) e
      (record { halved = omega (arith, t.halved); bytes = (omega arith, t.bytes) })
join_nibbles-IsDecoded c d s bs (some hi) (some lo) none h l r e = of_none (IsDecoded (c ∷ d ∷ s)) e
join_nibbles-IsDecoded c d s bs (some hi) none rest h l r e = of_none (IsDecoded (c ∷ d ∷ s)) e
join_nibbles-IsDecoded c d s bs none lo rest h l r e = of_none (IsDecoded (c ∷ d ∷ s)) e

pub hex_decode-IsDecoded : (s bs : List ℕ) → hex_decode s ≡ some bs → IsDecoded s bs
unfolding hex_decode
hex_decode-IsDecoded [] bs e = of_some (IsDecoded []) e (record { halved = refl; bytes = tt })
hex_decode-IsDecoded (c ∷ []) bs e = of_none (IsDecoded (c ∷ [])) e
hex_decode-IsDecoded (c ∷ d ∷ s) bs e =
    join_nibbles-IsDecoded c d s bs (from_hex_char c) (from_hex_char d) (hex_decode s)
      (from_hex_char-lt c) (from_hex_char-lt d) (hex_decode-IsDecoded s) e
