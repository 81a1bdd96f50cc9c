-- ===== src/Encoding/Bytes.antt =====
-- Strings of bytes: cutting two equal concatenations at the same place.
use secureorder.Prelude.{ℕ, ◌<◌, List, [], ◌∷◌, ◌++◌, ◌≡◌, refl, ap, ◌∙◌, arith, length, drop}

abbrev pub IsByte : ℕ → Type 0
IsByte b = b < 256

module _ {ℓ} {A : Type ℓ} where
  abbrev pub head_or : A → List A → A
  head_or d [] = d
  head_or d (x ∷ xs) = x

  pub head-eq : {x y : A} {xs ys : List A} → x ∷ xs ≡ y ∷ ys → x ≡ y
  head-eq {x} e = ap (head_or x) e

  pub tail-eq : {x y : A} {xs ys : List A} → x ∷ xs ≡ y ∷ ys → xs ≡ ys
  tail-eq e = ap (drop 1) e

module _ {ℓ} {A : Type ℓ} where
  pub append_injective :
      (xs ys as' bs : List A)
      → length xs ≡ length ys
      → xs ++ as' ≡ ys ++ bs
      → (xs ≡ ys) × (as' ≡ bs)
  append_injective [] [] as' bs l e = (refl, e)
  append_injective [] (y ∷ ys) as' bs l e = absurd (omega arith)
  append_injective (x ∷ xs) [] as' bs l e = absurd (omega arith)
  append_injective (x ∷ xs) (y ∷ ys) as' bs l e =
      let (p, q) = append_injective xs ys as' bs (omega arith) (tail-eq e) in
      (ap (λ z. z ∷ xs) (head-eq e) ∙ ap (λ zs. y ∷ zs) p, q)
