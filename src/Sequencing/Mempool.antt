-- ===== src/Sequencing/Mempool.antt =====
-- pkg/sequencing/encrypted_mempool.go: the encrypted mempool, a slice that is appended to at the back
-- and drained from the front. Each method holds the mutex from its first to its last access, so a
-- method is one step; DrainWait releases it between two polls.
pub mod Fifo
pub mod Waits
pub mod Runs
mod Tests
use secureorder.Prelude.{
  ℕ, zero, suc, List, [], ◌∷◌, ◌++◌, true, false, Option, none, some, leb, ltb, if◌then◌else◌,
  length, take, drop, is_empty,
}
use secureorder.Prelude.Int.{ℤ, pos, negsuc, is_neg, is_nonpos, to_nat}
use secureorder.Sequencing.Transaction.{EncryptedTransaction}

pub record EncryptedMempool : Type 0 where
  pub items : List EncryptedTransaction

-- The capacity is a hint for the allocation, a negative one is taken for 0: no state depends on it.
unfoldable pub new_encrypted_mempool : ℤ → EncryptedMempool
new_encrypted_mempool capacity = record { items = [] }

unfoldable pub add : EncryptedTransaction → EncryptedMempool → EncryptedMempool
add tx m = record { items = m.items ++ tx ∷ [] }

unfoldable pub size : EncryptedMempool → ℕ
size m = length m.items

-- `n > len(items)` clamped to the length.
pub clamp : ℕ → List EncryptedTransaction → ℕ
clamp n items = if ltb (length items) n then length items else n

-- `copy(out, items[:n])` and `append(items[:0], items[n:]...)`.
pub remove_front : ℕ → EncryptedMempool → List EncryptedTransaction × EncryptedMempool
remove_front n m = (take n m.items, record { items = drop n m.items })

-- A nil slice is the empty list.
unfoldable pub drain_up_to : ℤ → EncryptedMempool → List EncryptedTransaction × EncryptedMempool
unfolding clamp remove_front
drain_up_to n m =
    if is_nonpos n
    then ([], m)
    else if is_empty m.items
    then ([], m)
    else remove_front (clamp (to_nat n) m.items) m

unfoldable pub drain_all : EncryptedMempool → List EncryptedTransaction × EncryptedMempool
drain_all m = if is_empty m.items then ([], m) else (m.items, record { items = [] })

-- While DrainWait waits, other goroutines add transactions (the batch loop of cmd/sequencer is the
-- one consumer); then the ticker fires or the context is found done.
pub data Poll : Type 0 where
  added : EncryptedTransaction → Poll
  tick : Poll
  cancelled : Poll

-- One pass through the loop under the mutex: the batch, if there are enough items.
unfoldable pub try_drain :
    ℕ → EncryptedMempool → Option (List EncryptedTransaction × EncryptedMempool)
unfolding clamp remove_front
try_drain n m = if leb n (length m.items) then some (remove_front (clamp n m.items) m) else none

pub or_wait :
    Option (List EncryptedTransaction × EncryptedMempool)
    → Option (List EncryptedTransaction × EncryptedMempool)
    → Option (List EncryptedTransaction × EncryptedMempool)
or_wait none later = later
or_wait (some r) later = some r

-- At the `select` of DrainWait, after a pass that found too few items. `none`: still waiting when
-- the schedule ends.
pub wait_loop :
    ℕ → List Poll → EncryptedMempool → Option (List EncryptedTransaction × EncryptedMempool)
unfolding or_wait add
wait_loop n [] m = none
wait_loop n (added tx ∷ ps) m = wait_loop n ps (add tx m)
wait_loop n (tick ∷ ps) m = let later = wait_loop n ps m in or_wait (try_drain n m) later
wait_loop n (cancelled ∷ ps) m = some ([], m)

unfoldable pub drain_wait :
    ℤ → List Poll → EncryptedMempool → Option (List EncryptedTransaction × EncryptedMempool)
unfolding wait_loop try_drain or_wait
drain_wait n ps m =
    if is_nonpos n
    then some ([], m)
    else or_wait (try_drain (to_nat n) m) (wait_loop (to_nat n) ps m)
