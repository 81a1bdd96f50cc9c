-- ===== src/Privacy/Tests.antt =====
-- The privacy wrapper on concrete inputs.
use secureorder.Prelude.{ℕ, ◌+◌, List, [], ◌∷◌, ◌++◌, ◌≡◌, refl, arith, length, replicate}
use secureorder.Prelude.{ok, err}
use mathlib.Core.List.{Perm}
use Prim.{tt}
use secureorder.Privacy.Memory.{CMemory}
use secureorder.Privacy.Native.{seal_transaction}
use secureorder.Privacy.Decrypt.{seal, too_short, decrypt_single, decrypt_batch, key_error}
use secureorder.Privacy.RoundTrip.{decrypt_single-seal}
use secureorder.Privacy.Batches.{all_or_indexes, singles, decrypt_batch-decrypt_single}
use secureorder.Privacy.Buffers.{Traffic, IsBalanced}
use secureorder.Privacy.Leaks.{decrypt-IsBalanced, decrypt_batch_leaks}
use secureorder.Privacy.Toy.{zeros, toy, toy_documented, toy_keys}

abbrev no_memory : CMemory
no_memory = record { next = 0; mallocs = []; frees = [] }

decrypt_single-seal_example :
    (length (zeros ++ 5 ∷ []) ≡ 1 + 48)
    × ((decrypt_single toy (zeros ++ 5 ∷ []) (replicate 32 7) (replicate 32 8) no_memory).0
        ≡ ok (5 ∷ []))
unfolding seal seal_transaction
decrypt_single-seal_example =
    decrypt_single-seal toy toy_documented (5 ∷ []) (replicate 32 7) (replicate 32 8)
      (zeros ++ 5 ∷ []) 3 no_memory (omega arith) toy_keys refl

decrypt_batch-decrypt_single_example :
    (decrypt_batch toy 4
      ((zeros ++ 5 ∷ []) ∷ (zeros ++ 6 ∷ 7 ∷ []) ∷ [])
      (replicate 32 7)
      (replicate 32 8)
      no_memory).0
    ≡ all_or_indexes (
        singles toy
          (replicate 32 7)
          (replicate 32 8)
          no_memory
          refl
          refl
          ((zeros ++ 5 ∷ []) ∷ (zeros ++ 6 ∷ 7 ∷ []) ∷ []))
decrypt_batch-decrypt_single_example =
    decrypt_batch-decrypt_single toy (replicate 32 7) (replicate 32 8) no_memory refl refl 4
      ((zeros ++ 5 ∷ []) ∷ (zeros ++ 6 ∷ 7 ∷ []) ∷ []) no_memory (omega arith, (omega arith, tt))

decrypt-IsBalanced_example :
    IsBalanced no_memory
      (decrypt_single toy (zeros ++ 5 ∷ []) (replicate 32 7) (replicate 32 8) no_memory).1
    × IsBalanced no_memory
        (decrypt_batch toy 4
          (zeros ∷ (zeros ++ 5 ∷ []) ∷ [])
          (replicate 32 7)
          (replicate 32 8)
          no_memory).1
decrypt-IsBalanced_example =
    decrypt-IsBalanced toy (replicate 32 7) (replicate 32 8) 4 (zeros ++ 5 ∷ [])
      (zeros ∷ (zeros ++ 5 ∷ []) ∷ []) no_memory (omega arith, (omega arith, tt))

decrypt_batch_leaks_example :
    ((decrypt_batch toy 4 (zeros ∷ [] ∷ []) (replicate 32 7) (replicate 32 8) no_memory).0
      ≡ err (too_short 1))
    × (asked : List ℕ) × (returned : List ℕ) × (lost : List ℕ) × Traffic asked returned no_memory
        (decrypt_batch toy 4 (zeros ∷ [] ∷ []) (replicate 32 7) (replicate 32 8) no_memory).1
    × Perm (returned ++ lost) asked
    × (length lost ≡ 2)
unfolding key_error
decrypt_batch_leaks_example =
    decrypt_batch_leaks toy (replicate 32 7) (replicate 32 8) 4 (zeros ∷ []) [] [] no_memory refl
      (omega arith, tt) (omega arith)
