-- ===== src/Sequencing/Mempool/Tests.antt =====
-- The mempool on concrete inputs.
use secureorder.Prelude.{ℕ, List, [], ◌∷◌, ◌++◌, some, ◌≡◌, refl}
use secureorder.Prelude.Int.{pos}
use secureorder.Text.{codes}
use secureorder.Sequencing.Transaction.{EncryptedTransaction}
use secureorder.Sequencing.Mempool.{
  EncryptedMempool, add, size, drain_up_to, drain_all, Poll, added, tick, drain_wait,
  new_encrypted_mempool,
}
use secureorder.Sequencing.Mempool.Runs.{
  Op, put, get_up_to, get_all, get_wait, perform_all, IsFifoRun, perform_all-IsFifoRun,
}

abbrev tx : ℕ → EncryptedTransaction
tx n = record { seq = n; ciphertext = codes "ct"; arrived_at = pos n }

abbrev one_item : EncryptedMempool
one_item = record { items = tx 1 ∷ [] }

abbrev polls : List Poll
polls = added (tx 2) ∷ added (tx 3) ∷ []

abbrev left_over : EncryptedMempool
left_over = record { items = tx 3 ∷ [] }

waits_for_two :
    drain_wait (pos 2) (polls ++ tick ∷ []) one_item ≡ some (tx 1 ∷ tx 2 ∷ [], left_over)
unfolding drain_wait add
waits_for_two = refl

abbrev ops : List Op
ops =
    put (tx 1)
    ∷ put (tx 2)
    ∷ put (tx 3)
    ∷ get_up_to (pos 2)
    ∷ put (tx 4)
    ∷ get_wait (pos 3) (added (tx 6) ∷ added (tx 7) ∷ tick ∷ [])
    ∷ get_all
    ∷ put (tx 5)
    ∷ []

abbrev outs : List (List EncryptedTransaction)
outs = [] ∷ [] ∷ [] ∷ (tx 1 ∷ tx 2 ∷ []) ∷ [] ∷ (tx 3 ∷ tx 4 ∷ tx 6 ∷ []) ∷ (tx 7 ∷ []) ∷ [] ∷ []

abbrev last_pool : EncryptedMempool
last_pool = record { items = tx 5 ∷ [] }

performed : perform_all ops (new_encrypted_mempool (pos 1024)) ≡ some (outs, last_pool)
unfolding perform_all new_encrypted_mempool drain_wait add drain_up_to drain_all
performed = refl

perform_all-IsFifoRun_example : IsFifoRun ops [] outs (tx 5 ∷ [])
perform_all-IsFifoRun_example = perform_all-IsFifoRun (pos 1024) ops outs last_pool performed

all_drained : (drain_all one_item).0 ≡ tx 1 ∷ []
unfolding drain_all
all_drained = refl

sized : size one_item ≡ 1
unfolding size
sized = refl
