-- ===== src/Commands/LoadTest/Left.antt =====
-- What the clients of the load test have left to count.
use secureorder.Prelude.{
  ℕ, zero, suc, ◌+◌, ◌-◌, ◌^◌, ◌<◌, List, [], ◌∷◌, false, some, ◌≡◌, refl, arith, ltb, leb,
  get_elem?, set, of_some, Bool-cases, inl, inr,
}
use secureorder.Commands.LoadTest.{
  add64, Client, dialing, requesting, waiting, finished, next_request, load_step,
}

-- How many of its requests a client has not counted yet.
abbrev pub left : ℕ → Client → ℕ
left requests dialing = requests
left requests (requesting j) = requests - j
left requests (waiting j ct) = requests - j
left requests finished = 0

abbrev pub all_left : ℕ → List Client → ℕ
all_left requests [] = 0
all_left requests (c ∷ cs) = left requests c + all_left requests cs

-- A request in hand is one of the loop's.
abbrev pub IsGoing : ℕ → Client → Type 0
IsGoing requests (requesting j) = j < requests
IsGoing requests (waiting j ct) = j < requests
IsGoing requests _ = Unit

abbrev pub AreGoing : ℕ → List Client → Type 0
AreGoing requests [] = Unit
AreGoing requests (c ∷ cs) = IsGoing requests c × AreGoing requests cs

pub all_left-set :
    (requests i : ℕ) (c c' : Client) (cs : List Client)
    → get_elem? cs i ≡ some c
    → all_left requests (set cs i c') + left requests c ≡ all_left requests cs + left requests c'
all_left-set requests i c c' [] g = cc
all_left-set requests zero c c' (d ∷ cs) g =
    of_some
      (λ x.
        left requests c' + all_left requests cs + left requests x
        ≡ left requests d + all_left requests cs + left requests c')
      g (omega arith)
all_left-set requests (suc i) c c' (d ∷ cs) g = omega (arith, all_left-set requests i c c' cs g)

pub AreGoing-get_elem? :
    (requests i : ℕ) (c : Client) (cs : List Client)
    → AreGoing requests cs
    → get_elem? cs i ≡ some c
    → IsGoing requests c
AreGoing-get_elem? requests i c [] h g = cc
AreGoing-get_elem? requests zero c (d ∷ cs) h g = of_some (IsGoing requests) g h.0
AreGoing-get_elem? requests (suc i) c (d ∷ cs) h g = AreGoing-get_elem? requests i c cs h.1 g

pub AreGoing-set :
    (requests i : ℕ) (c : Client) (cs : List Client)
    → AreGoing requests cs
    → IsGoing requests c
    → AreGoing requests (set cs i c)
AreGoing-set requests i c [] h g = tt
AreGoing-set requests zero c (d ∷ cs) h g = (g, h.1)
AreGoing-set requests (suc i) c (d ∷ cs) h g = (h.0, AreGoing-set requests i c cs h.1 g)

pub add64_small : (a b : ℕ) → a + b < 2 ^ 64 → add64 a b ≡ a + b
unfolding load_step
add64_small a b h = omega arith

-- The test of the loop sends the client on, or ends it with nothing left to count.
pub next_request-left :
    (requests j : ℕ) → requests < 2 ^ 63 → left requests (next_request requests j) ≡ requests - j
unfolding load_step
next_request-left requests j fits =
    let positive : leb (2 ^ 63) requests ≡ false = ground arith in
    elim (Bool-cases (ltb j requests)) [
      | inl more ↦ rw (positive, more) refl
      | inr done ↦ rw (positive, done) (ground arith)
    ]

pub next_request-IsGoing :
    (requests j : ℕ) → requests < 2 ^ 63 → IsGoing requests (next_request requests j)
unfolding load_step
next_request-IsGoing requests j fits =
    let positive : leb (2 ^ 63) requests ≡ false = ground arith in
    elim (Bool-cases (ltb j requests)) [
      | inl more ↦ rw (positive, more) (ground arith)
      | inr done ↦ rw (positive, done) tt
    ]
