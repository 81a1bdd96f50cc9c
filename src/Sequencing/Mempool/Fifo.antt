-- ===== src/Sequencing/Mempool/Fifo.antt =====
-- DrainUpTo and DrainAll of the mempool give out its oldest items and keep the others.
use secureorder.Prelude.{
  ℕ, zero, suc, List, [], ◌∷◌, ltb, length, take, drop, ◌≡◌, refl, ap, arith, take_all, drop_all,
  List-cases, ltb→lt, inl, inr, Bool-cases,
}
use secureorder.Prelude.Int.{ℤ, pos, negsuc, to_nat}
use secureorder.Sequencing.Transaction.{EncryptedTransaction}
use secureorder.Sequencing.Mempool.{EncryptedMempool, clamp, drain_up_to, drain_all}

pub take-clamp :
    (n : ℕ) (items : List EncryptedTransaction) → take (clamp n items) items ≡ take n items
unfolding clamp
take-clamp n items = elim (Bool-cases (ltb (length items) n)) [
  | inl t ↦ rw (
    t,
    take_all (length items) items (omega arith),
    take_all n items (omega (arith, ltb→lt _ _ t)),
  )
  | inr f ↦ rw f
]

pub drop-clamp :
    (n : ℕ) (items : List EncryptedTransaction) → drop (clamp n items) items ≡ drop n items
unfolding clamp
drop-clamp n items = elim (Bool-cases (ltb (length items) n)) [
  | inl t ↦ rw (
    t,
    drop_all (length items) items (omega arith),
    drop_all n items (omega (arith, ltb→lt _ _ t)),
  )
  | inr f ↦ rw f
]

drain_up_to_pos :
    (n : ℕ) (items : List EncryptedTransaction)
    → drain_up_to (pos n) (record { items = items })
      ≡ (take n items, record { items = drop n items })
unfolding drain_up_to
drain_up_to_pos zero items = refl
drain_up_to_pos (suc n) [] = refl
drain_up_to_pos (suc n) (x ∷ xs) = rw (take-clamp (suc n) (x ∷ xs), drop-clamp (suc n) (x ∷ xs))

-- DrainUpTo takes the oldest items, `n` of them or all there are, and keeps the rest in order; a
-- batch size that is not positive takes none.
pub drain_up_to-take-drop :
    (n : ℤ) (m : EncryptedMempool)
    → ((drain_up_to n m).0 ≡ take (to_nat n) m.items)
      × ((drain_up_to n m).1.items ≡ drop (to_nat n) m.items)
drain_up_to-take-drop (pos n) m =
    (ap (λ r. r.0) (drain_up_to_pos n m.items), ap (λ r. r.1.items) (drain_up_to_pos n m.items))
drain_up_to-take-drop (negsuc n) m = unfold drain_up_to in (refl, refl)

-- DrainAll takes everything.
pub drain_all_empties :
    (m : EncryptedMempool) → ((drain_all m).0 ≡ m.items) × ((drain_all m).1.items ≡ [])
unfolding drain_all
drain_all_empties m = elim (List-cases m.items) [
  | inl nil ↦ rw nil (refl, refl)
  | inr (x, xs, e) ↦ rw e (refl, refl)
]
