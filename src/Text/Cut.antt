-- ===== src/Text/Cut.antt =====
-- Split and SplitN on texts whose parts do not hold the separator.
use secureorder.Prelude.{
  ℕ, List, [], ◌∷◌, ◌++◌, false, some, ◌≡◌, refl, All, ◌==◌, append-nil, append_snoc, ==_refl,
}
use secureorder.Text.{split, split_onto, split_first, contains_byte}

-- The text does not hold the byte.
abbrev pub Lacks : ℕ → List ℕ → Type 0
Lacks sep s = All (λ c. (c == sep) ≡ false) s

pub split_first-append :
    (sep : ℕ) (s rest : List ℕ) → Lacks sep s → split_first sep (s ++ sep ∷ rest) ≡ (s, some rest)
unfolding split_first
split_first-append sep [] rest h = rw ==_refl
split_first-append sep (c ∷ s) rest h = rw (h.0, split_first-append sep s rest h.1)

split_onto-append :
    (sep : ℕ) (cur s rest : List ℕ)
    → Lacks sep s
    → split_onto sep cur (s ++ sep ∷ rest) ≡ (cur ++ s) ∷ split_onto sep [] rest
unfolding split_onto
split_onto-append sep cur [] rest h = rw (==_refl sep, split_onto, append-nil)
split_onto-append sep cur (c ∷ s) rest h =
    rw (h.0, split_onto, split_onto-append sep (cur ++ c ∷ []) s rest h.1, append_snoc)

split_onto_whole : (sep : ℕ) (cur s : List ℕ) → Lacks sep s → split_onto sep cur s ≡ (cur ++ s) ∷ []
unfolding split_onto
split_onto_whole sep cur [] h = rw append-nil
split_onto_whole sep cur (c ∷ s) h =
    rw (h.0, split_onto, split_onto_whole sep (cur ++ c ∷ []) s h.1, append_snoc)

pub split-append :
    (sep : ℕ) (s rest : List ℕ) → Lacks sep s → split sep (s ++ sep ∷ rest) ≡ s ∷ split sep rest
unfolding split
split-append sep s rest h = split_onto-append sep [] s rest h

pub split_whole : (sep : ℕ) (s : List ℕ) → Lacks sep s → split sep s ≡ s ∷ []
unfolding split
split_whole sep s h = split_onto_whole sep [] s h

pub contains_byte-Lacks : (c : ℕ) (s : List ℕ) → Lacks c s → contains_byte c s ≡ false
unfolding contains_byte
contains_byte-Lacks c [] h = refl
contains_byte-Lacks c (d ∷ s) h = rw (h.0, contains_byte-Lacks c s h.1)
