-- ===== src/Sequencing/Raft/Node.antt =====
-- The node of raft_log.go around the state machine: SubmitWithReceipt.
use secureorder.Prelude.{List, ◌∷◌, ◌++◌, Option, none, some, ◌≡◌, if◌then◌else◌}
use secureorder.Prelude.{Result, ok, err}
use secureorder.Prelude.Int.{ℤ, pos, is_nonpos}
use secureorder.Text.{codes}
use secureorder.Error.{Bytes, GoError, message, wrap}
use secureorder.Sequencing.Transaction.{EncryptedTransaction}
use secureorder.Sequencing.Raft.{RaftProposal, LogEntry, RaftFsm, SelectCase, apply}

-- `future.Response()`: what Apply of the state machine returned, a transaction or an error.
abbrev pub Response : Type 0
Response = Result GoError EncryptedTransaction

-- What a call of SubmitWithReceipt meets: the context's error at the first test, the clock, the time
-- left until the context's deadline if it has one, and the context's error if none is left.
pub record Moment : Type 0 where
  pub expired : Option GoError
  pub now : ℤ
  pub time_left : Option ℤ
  pub late_error : GoError

-- 10 seconds, in nanoseconds.
abbrev pub default_raft_apply_timeout : ℤ
default_raft_apply_timeout = pos 10_000_000_000

module _ (marshal : RaftProposal → Result GoError Bytes)
    (raft_apply : Bytes → ℤ → Result GoError Response) where
  response_tx : Result GoError Response → Result GoError EncryptedTransaction
  response_tx (err e) = err (wrap (codes "raft apply failed: ") e)
  response_tx (ok (err e)) = err (message (codes "raft apply returned unexpected response type"))
  response_tx (ok (ok tx)) = ok tx

  propose : Option ℤ → GoError → Bytes → Result GoError EncryptedTransaction
  unfolding response_tx
  propose none late bytes = response_tx (raft_apply bytes default_raft_apply_timeout)
  propose (some left) late bytes =
      if is_nonpos left then err late else response_tx (raft_apply bytes left)

  marshalled : Moment → Result GoError Bytes → Result GoError EncryptedTransaction
  unfolding propose
  marshalled m (err e) = err (wrap (codes "marshal raft proposal: ") e)
  marshalled m (ok bytes) = propose m.time_left m.late_error bytes

  unfoldable pub submit_with_receipt : Moment → Bytes → Result GoError EncryptedTransaction
  unfolding marshalled
  submit_with_receipt m ciphertext = elim m.expired [
    | some e ↦ err e
    | none ↦
        marshalled m (marshal (record { submitted_at_unix_nano = m.now; ciphertext = ciphertext }))
  ]

-- An entry of the log that Raft committed.
abbrev pub IsCommitted : List LogEntry → LogEntry → Type 0
IsCommitted entries l =
    (before : List LogEntry) × (after : List LogEntry) × (entries ≡ before ++ l ∷ after)

-- The Raft library returns for a proposal what Apply returned for an entry with these bytes, one of
-- those it has committed.
abbrev pub FromLog :
    List LogEntry
    → (Bytes → Result GoError RaftProposal)
    → (Bytes → ℤ → Result GoError Response)
    → Type 0
FromLog entries unmarshal raft_apply =
    (bytes : Bytes) (timeout : ℤ) (r : Response)
    → raft_apply bytes timeout ≡ ok r
    → (l : LogEntry) × (c : SelectCase) × (f : RaftFsm) × (f' : RaftFsm) × IsCommitted entries l
      × (l.content ≡ bytes)
      × (apply unmarshal l c f ≡ some (r, f'))

-- json.Unmarshal reads back what json.Marshal wrote.
abbrev pub ReadsBack :
    (RaftProposal → Result GoError Bytes) → (Bytes → Result GoError RaftProposal) → Type 0
ReadsBack marshal unmarshal = (p : RaftProposal) (b : Bytes) → marshal p ≡ ok b → unmarshal b ≡ ok p
