-- ===== src/Privacy/Native/Workers.antt =====
-- However many workers there are, the chunks of decrypt_batch_tx together are the whole batch.
use native.Mathlib.Nat.{
  zero-add, suc-add, add-zero, zero-mul, suc-mul, add-mul, mod-lt, div-add-mod,
}
use native.Mathlib.Decide.{dec_lt}
use secureorder.Prelude.{
  ℕ, zero, suc, ◌+◌, ◌-◌, ◌*◌, ◌/◌, ◌≤◌, ◌<◌, min, List, [], ◌∷◌, ◌++◌, false, ◌≡◌, refl, sym, ap,
  ◌∙◌, arith, ◌==◌, if◌then◌else◌, length, take, drop, length-take, length-drop,
}
use secureorder.Prelude.Int.{ℤ}
use secureorder.Error.{Bytes}
use secureorder.Privacy.Sodium.{Sodium}
use secureorder.Privacy.Native.{DecryptedTx, so_success, worker_task, run_workers, decrypt_batch_tx}

module _ {ℓ} {A : Type ℓ} where
  abbrev nothing : List A
  nothing = []

  take-nil : (n : ℕ) → take n nothing ≡ []
  take-nil zero = refl
  take-nil (suc n) = refl

  drop-nil : (n : ℕ) → drop n nothing ≡ []
  drop-nil zero = refl
  drop-nil (suc n) = refl

  take-add : (m n : ℕ) (xs : List A) → take (m + n) xs ≡ take m xs ++ take n (drop m xs)
  take-add zero n xs = rw zero-add refl
  take-add (suc m) n [] = rw suc-add (sym (take-nil n))
  take-add (suc m) n (x ∷ xs) = rw suc-add (ap (λ l. x ∷ l) (take-add m n xs))

  drop-drop : (m n : ℕ) (xs : List A) → drop n (drop m xs) ≡ drop (m + n) xs
  drop-drop zero n xs = rw zero-add refl
  drop-drop (suc m) n [] = rw suc-add (drop-nil n)
  drop-drop (suc m) n (x ∷ xs) = rw suc-add (drop-drop m n xs)

  take_all : (n : ℕ) (xs : List A) → length xs ≤ n → take n xs ≡ xs
  take_all zero [] h = refl
  take_all zero (x ∷ xs) h = absurd (omega arith)
  take_all (suc n) [] h = refl
  take_all (suc n) (x ∷ xs) h = ap (λ l. x ∷ l) (take_all n xs (omega arith))

  drop_all : (n : ℕ) (xs : List A) → length xs ≤ n → drop n xs ≡ []
  drop_all zero [] h = refl
  drop_all zero (x ∷ xs) h = absurd (omega arith)
  drop_all (suc n) [] h = refl
  drop_all (suc n) (x ∷ xs) h = drop_all n xs (omega arith)

module _ {ℓ} {A : Type ℓ} where
  -- The part of the input from `start` to the clamped end.
  slice_lem :
      (start c : ℕ) (xs : List A)
      → take (min (start + c) (length xs) - start) (drop start xs) ≡ take c (drop start xs)
  slice_lem start c xs = elim (dec_lt (length xs) (start + c)) [
    | no inside ↦ let width : min (start + c) (length xs) - start ≡ c = omega arith in rw width refl
    | yes outside ↦
        let rest = length-drop start xs in
        take_all (min (start + c) (length xs) - start) (drop start xs) (omega (arith, rest))
        ∙ sym (take_all c (drop start xs) (omega (arith, rest)))
  ]

-- The chunks of `k` workers hold `n` items.
chunks_cover : (n k : ℕ) → 0 < k → n ≤ k * ((n + k - 1) / k)
chunks_cover n k h = omega (arith, div-add-mod (n + k - 1) k, mod-lt (n + k - 1) h)

module _ (sodium : Sodium) (pk sk : Bytes) where
  worker_task-append :
      (i : ℕ) (xs ys : List Bytes) (failure : ℤ)
      → worker_task sodium i (xs ++ ys) pk sk failure ≡ (
          let (outs, failure') = worker_task sodium i xs pk sk failure in
          let (outs', failure'') = worker_task sodium (i + length xs) ys pk sk failure' in
          (outs ++ outs', failure''))
  unfolding decrypt_batch_tx
  worker_task-append i [] ys failure = rw add-zero refl
  worker_task-append i (x ∷ xs) ys failure =
      let next : i + suc (length xs) ≡ i + 1 + length xs = omega arith in
      rw (next, worker_task-append (i + 1) xs ys) refl

  -- The next chunk, at the index where the last one ended.
  worker_task_next :
      (start c m : ℕ) (inputs : List Bytes) (failure : ℤ)
      → worker_task sodium
          (start + length (take c (drop start inputs)))
          (take m (drop c (drop start inputs)))
          pk
          sk
          failure
        ≡ worker_task sodium (start + c) (take m (drop (start + c) inputs)) pk sk failure
  unfolding decrypt_batch_tx
  worker_task_next start c m inputs failure = elim (dec_lt (length (drop start inputs)) c) [
    | no inside ↦
        let full : length (take c (drop start inputs)) ≡ c =
          omega (arith, length-take c (drop start inputs)) in
        rw (full, drop-drop) refl
    | yes outside ↦
        let none_left = drop_all c (drop start inputs) (omega arith) in
        rw (← drop-drop, none_left, take-nil) refl
  ]

  -- Chunks from worker `t` on, one after the other, are the next items of the batch.
  run_workers-worker_task :
      (k t c : ℕ) (inputs : List Bytes) (failure : ℤ)
      → run_workers sodium k t c inputs pk sk failure
        ≡ worker_task sodium (t * c) (take (k * c) (drop (t * c) inputs)) pk sk failure
  unfolding decrypt_batch_tx
  run_workers-worker_task zero t c inputs failure = rw zero-mul refl
  run_workers-worker_task (suc k) t c inputs failure =
      let next : (t + 1) * c ≡ t * c + c = omega (arith, add-mul t 1 c) in
      let split : suc k * c ≡ c + k * c = omega (arith, suc-mul k c) in
      rw
        (
          slice_lem (t * c) c inputs,
          split,
          take-add c (k * c) (drop (t * c) inputs),
          worker_task-append (t * c) (take c (drop (t * c) inputs))
              (take (k * c) (drop c (drop (t * c) inputs))) failure,
          worker_task_next (t * c) c (k * c) inputs,
          run_workers-worker_task k (t + 1) c inputs,
          next,
        )
        refl

  all_workers :
      (k : ℕ) (inputs : List Bytes) (failure : ℤ)
      → 0 < k
      → run_workers sodium k 0 ((length inputs + k - 1) / k) inputs pk sk failure
        ≡ worker_task sodium 0 inputs pk sk failure
  all_workers k inputs failure h =
      let c = (length inputs + k - 1) / k in
      run_workers-worker_task k 0 c inputs failure
      ∙ rw (zero-mul c, take_all (k * c) inputs (chunks_cover (length inputs) k h)) refl

  -- However many threads the machine runs, decrypt_batch_tx leaves in its output just what one worker
  -- leaves that goes through the whole batch, and returns the failure flag of that worker.
  pub decrypt_batch_tx-worker_task :
      (hardware : ℕ) (inputs : List Bytes)
      → decrypt_batch_tx sodium hardware inputs pk sk
        ≡ (let (outs, failure) = worker_task sodium 0 inputs pk sk so_success in (failure, outs))
  unfolding decrypt_batch_tx
  decrypt_batch_tx-worker_task hardware [] = refl
  decrypt_batch_tx-worker_task hardware (x ∷ xs) =
      let some_items : (length (x ∷ xs) == 0) ≡ false = ground arith in
      let k = min (if hardware == 0 then 2 else hardware) (length (x ∷ xs)) in
      rw (some_items, decrypt_batch_tx)
        (ap (λ (r : List DecryptedTx × ℤ). (r.1, r.0))
          (all_workers k (x ∷ xs) so_success (ground arith)))
