-- ===== src/Sequencing/Receptions.antt =====
-- pkg/sequencing/reception_store.go: the append-only log of reception proofs. Add, Count and Last
-- hold the lock throughout, so each is one step.
use secureorder.Prelude.{
  ℕ, ◌+◌, List, [], ◌∷◌, ◌++◌, Bool, true, false, ◌≡◌, refl, ap, arith, length, length-append,
}
use secureorder.Prelude.Int.{pos}
use secureorder.Sequencing.Commitment.{ReceptionProof}

pub record ReceptionStore : Type 0 where
  pub proofs : List ReceptionProof

unfoldable pub new_reception_store : ReceptionStore
new_reception_store = record { proofs = [] }

unfoldable pub add_proof : ReceptionProof → ReceptionStore → ReceptionStore
add_proof p s = record { proofs = s.proofs ++ p ∷ [] }

unfoldable pub count_proofs : ReceptionStore → ℕ
count_proofs s = length s.proofs

abbrev zero_proof : ReceptionProof
zero_proof = record { sequence_id = 0; arrived_unix = pos 0; commitment = [] }

-- `s.proofs[len(s.proofs)-1]`, for a list that is not empty.
last_of : ReceptionProof → List ReceptionProof → ReceptionProof
last_of p [] = p
last_of p (q ∷ qs) = last_of q qs

last_in : List ReceptionProof → ReceptionProof × Bool
unfolding last_of
last_in [] = (zero_proof, false)
last_in (p ∷ ps) = (last_of p ps, true)

unfoldable pub last_proof : ReceptionStore → ReceptionProof × Bool
unfolding last_in
last_proof s = last_in s.proofs

last_of_snoc : (p q : ReceptionProof) (ps : List ReceptionProof) → last_of p (ps ++ q ∷ []) ≡ q
unfolding last_of
last_of_snoc p q [] = refl
last_of_snoc p q (r ∷ ps) = last_of_snoc r q ps

last_in_snoc : (ps : List ReceptionProof) (p : ReceptionProof) → last_in (ps ++ p ∷ []) ≡ (p, true)
unfolding last_in
last_in_snoc [] p = refl
last_in_snoc (q ∷ ps) p = ap (λ r. (r, true)) (last_of_snoc q p ps)

-- After Add the proof added is the last one, there is one more, and the earlier ones stand as before.
pub last_proof-add_proof :
    (p : ReceptionProof) (s : ReceptionStore)
    → (last_proof (add_proof p s) ≡ (p, true))
      × (count_proofs (add_proof p s) ≡ count_proofs s + 1)
      × ((add_proof p s).proofs ≡ s.proofs ++ p ∷ [])
unfolding last_proof add_proof count_proofs
last_proof-add_proof p s =
    (last_in_snoc s.proofs p, omega (arith, length-append s.proofs (p ∷ [])), refl)
