-- ===== src/Sequencing/Mempool/Runs.antt =====
-- Sequences of calls on the mempool, and the FIFO queue that they implement.
use secureorder.Prelude.{
  zero, suc, List, [], ◌∷◌, ◌++◌, true, Option, none, some, length, take, drop, ◌≡◌, refl, of_some,
  Option-cases, ◌⊎◌, inl, inr,
}
use secureorder.Prelude.Int.{ℤ, pos, negsuc, to_nat}
use secureorder.Sequencing.Transaction.{EncryptedTransaction}
use secureorder.Sequencing.Mempool.{
  EncryptedMempool, new_encrypted_mempool, add, drain_up_to, drain_all, Poll, drain_wait,
}
use secureorder.Sequencing.Mempool.Fifo.{drain_up_to-take-drop, drain_all_empties}
use secureorder.Sequencing.Mempool.Waits.{adds, gave_up, wait-batch}

-- A call on the mempool, with the batch size where it takes one, and what happens while DrainWait
-- waits.
pub data Op : Type 0 where
  put : EncryptedTransaction → Op
  get_up_to : ℤ → Op
  get_all : Op
  get_wait : ℤ → List Poll → Op

-- What a call gives out. `none`: DrainWait still waits when its schedule ends.
unfoldable pub perform :
    Op → EncryptedMempool → Option (List EncryptedTransaction × EncryptedMempool)
perform (put tx) m = some ([], add tx m)
perform (get_up_to n) m = some (drain_up_to n m)
perform get_all m = some (drain_all m)
perform (get_wait n ps) m = drain_wait n ps m

unfoldable pub perform_all :
    List Op → EncryptedMempool → Option (List (List EncryptedTransaction) × EncryptedMempool)
unfolding perform
perform_all [] m = some ([], m)
perform_all (op ∷ ops) m = elim (perform op m) [
  | none ↦ none
  | some (out, m') ↦ elim (perform_all ops m') [
    | none ↦ none
    | some (outs, m'') ↦ some (out ∷ outs, m'')
  ]
]

-- A call of a FIFO queue that holds `before`, gives `out` and holds `after`. DrainWait of a positive
-- `n` gives a batch of `n` off the front of what was held and what was added until then, or nothing
-- if its context was cancelled.
abbrev pub IsAnswer :
    Op → List EncryptedTransaction → List EncryptedTransaction → List EncryptedTransaction → Type 0
IsAnswer (put tx) before out after = (out ≡ []) × (after ≡ before ++ tx ∷ [])
IsAnswer (get_up_to n) before out after =
    (out ≡ take (to_nat n) before) × (after ≡ drop (to_nat n) before)
IsAnswer get_all before out after = (out ≡ before) × (after ≡ [])
IsAnswer (get_wait (pos (suc n)) ps) before out after =
    (((out ≡ []) × (gave_up ps ≡ true)) ⊎ (length out ≡ suc n))
    × (so_far : List EncryptedTransaction) × (unread : List EncryptedTransaction) × (adds ps
        ≡ so_far ++ unread)
    × (out ++ after ≡ before ++ so_far)
IsAnswer (get_wait _ ps) before out after = (out ≡ []) × (after ≡ before)

-- A run of the FIFO queue: the calls, what it holds first, what they give out, what it holds last.
pub data IsFifoRun
    : List Op
      → List EncryptedTransaction
      → List (List EncryptedTransaction)
      → List EncryptedTransaction
      → Type 0 where
  at_rest : (items : List EncryptedTransaction) → IsFifoRun [] items [] items
  call :
      (op : Op) (before out middle : List EncryptedTransaction) (ops : List Op)
      (outs : List (List EncryptedTransaction)) (after : List EncryptedTransaction)
      → IsAnswer op before out middle
      → IsFifoRun ops middle outs after
      → IsFifoRun (op ∷ ops) before (out ∷ outs) after

perform-IsAnswer :
    (op : Op) (m m' : EncryptedMempool) (out : List EncryptedTransaction)
    → perform op m ≡ some (out, m')
    → IsAnswer op m.items out m'.items
unfolding perform add drain_wait
perform-IsAnswer (put tx) m m' out e =
    of_some
      (λ (r : List EncryptedTransaction × EncryptedMempool).
        IsAnswer (put tx) m.items r.0 r.1.items)
      e (refl, refl)
perform-IsAnswer (get_up_to n) m m' out e =
    of_some
      (λ (r : List EncryptedTransaction × EncryptedMempool).
        IsAnswer (get_up_to n) m.items r.0 r.1.items)
      e (drain_up_to-take-drop n m)
perform-IsAnswer get_all m m' out e =
    of_some
      (λ (r : List EncryptedTransaction × EncryptedMempool). IsAnswer get_all m.items r.0 r.1.items)
      e (drain_all_empties m)
perform-IsAnswer (get_wait (pos (suc n)) ps) m m' out e = wait-batch n ps m m' out e
perform-IsAnswer (get_wait (pos zero) ps) m m' out e =
    of_some
      (λ (r : List EncryptedTransaction × EncryptedMempool).
        IsAnswer (get_wait (pos 0) ps) m.items r.0 r.1.items)
      e (refl, refl)
perform-IsAnswer (get_wait (negsuc n) ps) m m' out e =
    of_some
      (λ (r : List EncryptedTransaction × EncryptedMempool).
        IsAnswer (get_wait (negsuc n) ps) m.items r.0 r.1.items)
      e (refl, refl)

runs :
    (ops : List Op) (m m' : EncryptedMempool) (outs : List (List EncryptedTransaction))
    → perform_all ops m ≡ some (outs, m')
    → IsFifoRun ops m.items outs m'.items
unfolding perform_all
runs [] m m' outs e =
    of_some
      (λ (r : List (List EncryptedTransaction) × EncryptedMempool).
        IsFifoRun [] m.items r.0 r.1.items)
      e (at_rest m.items)
runs (op ∷ ops) m m' outs e = elim (Option-cases (perform op m)) [
  | inl waits ↦ cc (rw (waits, perform_all) at e)
  | inr ((out, m1), now) ↦ elim (Option-cases (perform_all ops m1)) [
    | inl waits ↦ cc (rw (now, waits, perform_all) at e)
    | inr ((rest, m2), later) ↦
        of_some
          (λ (r : List (List EncryptedTransaction) × EncryptedMempool).
            IsFifoRun (op ∷ ops) m.items r.0 r.1.items)
          (rw (now, later, perform_all) at e)
          (call op m.items out m1.items ops rest m2.items (perform-IsAnswer op m m1 out now)
            (runs ops m1 m2 rest later))
  ]
]

-- The mempool implements a FIFO queue over every sequence of calls of Add, DrainUpTo, DrainAll and
-- DrainWait on a new one, with whatever is added while DrainWait waits: DrainUpTo gives just its `n`
-- oldest items or all there are, DrainAll gives all, and DrainWait that returns gives a batch of
-- just `n`, or nothing if `n` is not positive or its context was cancelled; what is given out is
-- always the front of what was held and added, and the rest is kept in order.
pub perform_all-IsFifoRun :
    (capacity : ℤ) (ops : List Op) (outs : List (List EncryptedTransaction)) (m : EncryptedMempool)
    → perform_all ops (new_encrypted_mempool capacity) ≡ some (outs, m)
    → IsFifoRun ops [] outs m.items
unfolding new_encrypted_mempool
perform_all-IsFifoRun capacity ops outs m e = runs ops _ m outs e
