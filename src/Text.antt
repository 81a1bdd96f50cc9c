-- ===== src/Text.antt =====
-- Text as the bytes that Go's strings hold, and the functions of package strings that the program
-- calls, on ASCII text.
pub mod Trim
pub mod Cut
pub mod HostPort
use Prim.Native.Char.{code}
use Prim.Native.String.{String}
use secureorder.Prelude.{
  ℕ, List, [], ◌∷◌, ◌++◌, Bool, true, false, Option, none, some, ◌==◌, ◌||◌, leb, ◌&&◌,
  if◌then◌else◌, bytes_eq,
}

-- The bytes of an ASCII literal.
abbrev pub codes : String → List ℕ
codes String.[] = []
codes (String.◌∷◌ c s) = code c ∷ codes s

-- Tab, line feed, vertical tab, form feed, carriage return, space.
abbrev pub is_space : ℕ → Bool
is_space c = (leb 9 c && leb c 13) || c == 32

-- `strings.TrimLeft` of white space.
unfoldable pub trim_left : List ℕ → List ℕ
trim_left [] = []
trim_left (c ∷ s) = let rest = trim_left s in if is_space c then rest else c ∷ s

keep_right : ℕ → List ℕ → List ℕ
keep_right c [] = if is_space c then [] else c ∷ []
keep_right c (d ∷ s) = c ∷ d ∷ s

-- `strings.TrimRight` of white space.
unfoldable pub trim_right : List ℕ → List ℕ
unfolding keep_right
trim_right [] = []
trim_right (c ∷ s) = keep_right c (trim_right s)

-- `strings.TrimSpace`.
unfoldable pub trim_space : List ℕ → List ℕ
unfolding trim_left trim_right
trim_space s = trim_right (trim_left s)

-- `strings.TrimPrefix(s, "0x")`.
unfoldable pub trim_0x : List ℕ → List ℕ
trim_0x [] = []
trim_0x (c ∷ []) = c ∷ []
trim_0x (c ∷ d ∷ s) = if c == b'0' && d == b'x' then s else c ∷ d ∷ s

split_onto : ℕ → List ℕ → List ℕ → List (List ℕ)
split_onto sep cur [] = cur ∷ []
split_onto sep cur (c ∷ s) = elim (c == sep) [
  | true ↦ cur ∷ split_onto sep [] s
  | false ↦ split_onto sep (cur ++ c ∷ []) s
]

-- `strings.Split` at a one-byte separator.
unfoldable pub split : ℕ → List ℕ → List (List ℕ)
unfolding split_onto
split sep s = split_onto sep [] s

-- `strings.SplitN(s, sep, 2)`: the part before the first separator, and the rest if there is one.
unfoldable pub split_first : ℕ → List ℕ → List ℕ × Option (List ℕ)
split_first sep [] = ([], none)
split_first sep (c ∷ s) =
    let (before, rest) = split_first sep s in if c == sep then ([], some s) else (c ∷ before, rest)

-- `strings.IndexByte(s, c) >= 0`.
unfoldable pub contains_byte : ℕ → List ℕ → Bool
contains_byte c [] = false
contains_byte c (d ∷ s) = d == c || contains_byte c s
