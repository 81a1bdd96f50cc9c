-- ===== src/Text/Trim.antt =====
-- TrimSpace leaves a text alone that neither begins nor ends with white space.
use secureorder.Prelude.{ℕ, List, [], ◌∷◌, false, ◌≡◌, refl, All}
use secureorder.Text.{is_space, trim_left, trim_right, trim_space}

-- No byte is white space.
abbrev pub IsSolid : List ℕ → Type 0
IsSolid s = All (λ c. is_space c ≡ false) s

trim_right_solid : (s : List ℕ) → IsSolid s → trim_right s ≡ s
unfolding trim_right
trim_right_solid [] h = refl
trim_right_solid (c ∷ []) h = rw h.0
trim_right_solid (c ∷ d ∷ s) h = rw (trim_right_solid (d ∷ s) h.1)

trim_left_solid : (s : List ℕ) → IsSolid s → trim_left s ≡ s
unfolding trim_left
trim_left_solid [] h = refl
trim_left_solid (c ∷ s) h = rw h.0

pub trim_space_solid : (s : List ℕ) → IsSolid s → trim_space s ≡ s
unfolding trim_space
trim_space_solid s h = rw (trim_left_solid s h) (trim_right_solid s h)
