-- ===== src/Sequencing/Transaction.antt =====
-- `EncryptedTransaction` of pkg/sequencing/queue.go, and what it means that transactions come in
-- FIFO order: their sequence IDs grow strictly.
use secureorder.Prelude.{ℕ, ◌≤◌, ◌<◌, List, [], ◌∷◌, ◌++◌, arith}
use secureorder.Prelude.Int.{ℤ}
use secureorder.Error.{Bytes}

-- `ID` is a uint64; `ArrivedAt` is given by its Unix time in nanoseconds.
pub record EncryptedTransaction : Type 0 where
  pub seq : ℕ
  pub ciphertext : Bytes
  pub arrived_at : ℤ

-- The sequence IDs grow strictly, the first lies above `lo` and the last is at most `hi`.
abbrev pub Between : ℕ → ℕ → List EncryptedTransaction → Type 0
Between lo hi [] = lo ≤ hi
Between lo hi (t ∷ ts) = (lo < t.seq) × Between t.seq hi ts

pub Between-append :
    (lo mid hi : ℕ) (xs ys : List EncryptedTransaction)
    → Between lo mid xs
    → Between mid hi ys
    → Between lo hi (xs ++ ys)
Between-append lo mid hi [] [] hx hy = omega arith
Between-append lo mid hi [] (y ∷ ys) hx hy = (omega arith, hy.1)
Between-append lo mid hi (x ∷ xs) ys hx hy = (hx.0, Between-append x.seq mid hi xs ys hx.1 hy)

pub Between-weaken :
    (lo mid hi : ℕ) (xs : List EncryptedTransaction)
    → mid ≤ hi
    → Between lo mid xs
    → Between lo hi xs
Between-weaken lo mid hi [] le h = omega arith
Between-weaken lo mid hi (x ∷ xs) le h = (h.0, Between-weaken x.seq mid hi xs le h.1)

-- A new last transaction.
pub Between-snoc :
    (lo hi : ℕ) (xs : List EncryptedTransaction) (t : EncryptedTransaction)
    → Between lo hi xs
    → hi < t.seq
    → Between lo t.seq (xs ++ t ∷ [])
Between-snoc lo hi [] t h lt = (omega arith, omega arith)
Between-snoc lo hi (x ∷ xs) t h lt = (h.0, Between-snoc x.seq hi xs t h.1 lt)

pub Between-le : (lo hi : ℕ) (xs : List EncryptedTransaction) → Between lo hi xs → lo ≤ hi
Between-le lo hi [] h = h
Between-le lo hi (x ∷ xs) h = omega (arith, Between-le x.seq hi xs h.1)
