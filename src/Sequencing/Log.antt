-- ===== src/Sequencing/Log.antt =====
-- pkg/sequencing/log.go: the interface OrderedLog for its consumer, and what its comments promise of
-- DrainWait and Close.
pub mod Queue
pub mod Raft
use secureorder.Prelude.{ℕ, suc, ◌<◌, List, ◌++◌, Option, none, some, ◌≡◌, ◌⊎◌, length}
use secureorder.Prelude.Int.{ℤ, pos}
use secureorder.Error.{GoError}
use secureorder.Sequencing.Transaction.{EncryptedTransaction}

-- One thing that the other goroutines do to the log between two calls is an `Action`, `none` where
-- it is not possible. All that happens during a DrainWait is a `Schedule`; `none`: the call has not
-- returned. `stream` is what was ever committed for the consumer, `ahead` the part that it has not
-- taken yet.
pub record OrderedLog : Type 1 where
  pub Log : Type 0
  pub Action : Type 0
  pub Schedule : Type 0
  pub stream : Log → List EncryptedTransaction
  pub ahead : Log → List EncryptedTransaction
  pub act : Action → Log → Option Log
  pub drain_wait : ℤ → Schedule → Log → Option ((List EncryptedTransaction × Option GoError) × Log)
  pub close : Log → Log

module _ (l : OrderedLog) where
  open l use {Log, Action, Schedule, stream, ahead, act, drain_wait, close}

  -- Committed transactions go to the end of both views; DrainWait takes from the front of `ahead`,
  -- and returns a whole batch or an error with fewer. Close loses nothing, and a second Close changes
  -- nothing.
  pub record IsOrderedLog : Type 0 where
    pub act_appends :
        (a : Action) (s s' : Log)
        → act a s ≡ some s'
        → (fresh : List EncryptedTransaction) × (stream s' ≡ stream s ++ fresh)
          × (ahead s' ≡ ahead s ++ fresh)
    pub drains_in_order :
        (n : ℕ) (ws : Schedule) (s s' : Log) (batch : List EncryptedTransaction)
        (e : Option GoError)
        → drain_wait (pos (suc n)) ws s ≡ some ((batch, e), s')
        → (fresh : List EncryptedTransaction) × (stream s' ≡ stream s ++ fresh)
          × (ahead s ++ fresh ≡ batch ++ ahead s')
    pub drains_whole :
        (n : ℕ) (ws : Schedule) (s s' : Log) (batch : List EncryptedTransaction)
        (e : Option GoError)
        → drain_wait (pos (suc n)) ws s ≡ some ((batch, e), s')
        → ((e ≡ none) × (length batch ≡ suc n))
          ⊎ ((g : GoError) × (e ≡ some g) × (length batch < suc n))
    pub closes_once : (s : Log) → close (close s) ≡ close s
    pub close_keeps : (s : Log) → (stream (close s) ≡ stream s) × (ahead (close s) ≡ ahead s)
