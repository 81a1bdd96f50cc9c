-- ===== src/Encoding/Decimal.antt =====
-- Decimal numbers: the verb `%d`, and `strconv.ParseInt(s, 10, 64)`.
use secureorder.Prelude.{
  ℕ, zero, suc, ◌+◌, ◌-◌, ◌*◌, ◌/◌, ◌%◌, ◌^◌, ◌<◌, ◌≤◌, length, List, [], ◌∷◌, ◌≡◌, ◌∙◌, arith,
  Bool, true, false, Option, none, some, ltb, leb, ◌==◌, if◌then◌else◌, ◌&&◌, Bool-cases, inl, inr,
}
use secureorder.Prelude.Int.{ℤ, pos, negsuc, IsInt64}

-- The digits of a number before those already written; a round for each digit, and `n + 1` rounds
-- are enough.
digits : ℕ → ℕ → List ℕ → List ℕ
digits zero n out = out
digits (suc fuel) n out = elim (ltb n 10) [
  | true ↦ (b'0' + n) ∷ out
  | false ↦ digits fuel (n / 10) ((b'0' + n % 10) ∷ out)
]

unfoldable pub format_nat : ℕ → List ℕ
unfolding digits
format_nat n = digits (suc n) n []

unfoldable pub format_int : ℤ → List ℕ
format_int (pos n) = format_nat n
format_int (negsuc n) = b'-' ∷ format_nat (n + 1)

-- The number that digits spell behind `n`; `none` on a byte that is no digit.
scan : List ℕ → ℕ → Option ℕ
scan [] n = some n
scan (c ∷ s) n = if leb b'0' c && leb c b'9' then scan s (n * 10 + (c - b'0')) else none

in_range : Bool → Option ℕ → Option ℤ
in_range neg none = none
in_range false (some n) = if ltb n (2 ^ 63) then some (pos n) else none
in_range true (some zero) = some (pos 0)
in_range true (some (suc n)) = if ltb n (2 ^ 63) then some (negsuc n) else none

unsigned : Bool → List ℕ → Option ℤ
unfolding scan in_range
unsigned neg [] = none
unsigned neg (c ∷ s) = in_range neg (scan (c ∷ s) 0)

-- An optional sign, then one digit or more; out of the range of an int64 it fails.
unfoldable pub parse_int : List ℕ → Option ℤ
unfolding unsigned
parse_int [] = none
parse_int (c ∷ s) =
    if c == b'+'
    then unsigned false s
    else if c == b'-'
    then unsigned true s
    else unsigned false (c ∷ s)

scan-digits : (fuel n : ℕ) (out : List ℕ) → n < fuel → scan (digits fuel n out) 0 ≡ scan out n
unfolding scan digits
scan-digits zero n out h = absurd (omega arith)
scan-digits (suc fuel) n out h = elim (Bool-cases (ltb n 10)) [
  | inl small ↦ rw (small, digits) (ground arith)
  | inr big ↦
      rw (big, digits)
        (scan-digits fuel (n / 10) ((b'0' + n % 10) ∷ out) (ground arith) ∙ ground arith)
]

-- A number below 2^k has at most k + 1 digits.
length-digits :
    (k fuel n : ℕ) (out : List ℕ) → n < 2 ^ k → length (digits fuel n out) ≤ length out + (k + 1)
unfolding digits
length-digits k zero n out h = omega arith
length-digits zero (suc fuel) n out h =
    let one : ltb n 10 ≡ true = ground arith in rw (one, digits) (omega arith)
length-digits (suc k) (suc fuel) n out h = elim (Bool-cases (ltb n 10)) [
  | inl small ↦ rw (small, digits) (omega arith)
  | inr big ↦
      let double : 2 ^ suc k ≡ 2 * 2 ^ k = ground arith in
      rw (big, digits)
        (omega
          (arith, length-digits k fuel (n / 10) ((b'0' + n % 10) ∷ out) (omega (arith, double, h))))
]

pub length-format_nat : (n : ℕ) → n < 2 ^ 64 → length (format_nat n) ≤ 65
unfolding format_nat
length-format_nat n h = length-digits 64 (suc n) n [] h

-- An int64 takes at most 66 bytes.
pub length-format_int : (i : ℤ) → IsInt64 i → length (format_int i) ≤ 66
unfolding format_int
length-format_int (pos n) h = omega (arith, length-format_nat n (omega (arith, h)))
length-format_int (negsuc n) h = omega (arith, length-format_nat (n + 1) (omega (arith, h)))
