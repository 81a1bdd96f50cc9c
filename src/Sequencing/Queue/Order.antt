-- ===== src/Sequencing/Queue/Order.antt =====
-- The order in which `TxQueue` commits transactions, over every schedule of its goroutines.
use secureorder.Prelude.{
  ℕ, ◌+◌, ◌-◌, ◌^◌, ◌<◌, List, [], ◌∷◌, ◌++◌, some, ◌≡◌, arith, append_assoc, append-nil, of_some,
  of_guard, of_guard_not, of_none, append_snoc,
}
use secureorder.Sequencing.Transaction.{EncryptedTransaction, Between, Between-snoc, Between-weaken}
use secureorder.Sequencing.Queue.Steps.{of_receive, of_reject, of_take, of_parked, nil_of_is_empty}
use secureorder.Sequencing.Queue.{
  TxQueue, Loop, waiting, checking, sending, rejecting, LoopEvent, see_done, receive, check_expired,
  check_done, check_passed, commit, hand_over, send_expired, send_done, reject_next, reject_end,
  Event, admission, submit, submit_direct, take_one, close, loop_step, step, history,
}

-- The IDs already committed are at most this; the stamped transaction in hand is not committed yet.
abbrev pub bound : Loop → ℕ → ℕ
bound (sending req tx) n = n - 1
bound _ n = n

abbrev pub IsStamped : Loop → ℕ → Type 0
IsStamped (sending req tx) n = (tx.seq ≡ n) × (0 < n)
IsStamped _ n = Unit

history_hand :
    (hi : ℕ) (taken ch : List EncryptedTransaction) (tx : EncryptedTransaction)
    → ch ≡ []
    → Between 0 hi (taken ++ ch)
    → hi < tx.seq
    → Between 0 tx.seq ((taken ++ tx ∷ []) ++ ch)
history_hand hi taken ch tx e h lt =
    rw (e, append-nil) (Between-snoc 0 hi taken tx (rw (e, append-nil) at h) lt)

pub record IsOrdered (q : TxQueue) : Type 0 where
  pub ordered : Between 0 (bound q.loop q.next_id) (history q)
  pub stamped : IsStamped q.loop q.next_id

history_commit :
    (hi : ℕ) (taken ch : List EncryptedTransaction) (tx : EncryptedTransaction)
    → Between 0 hi (taken ++ ch)
    → hi < tx.seq
    → Between 0 tx.seq (taken ++ (ch ++ tx ∷ []))
history_commit hi taken ch tx h lt =
    rw (← append_assoc taken ch (tx ∷ [])) (Between-snoc 0 hi (taken ++ ch) tx h lt)

module _ (q q' : TxQueue) (fits : q.next_id + 1 < 2 ^ 64) where
  loop_step-IsOrdered :
      (l : Loop) (e : LoopEvent)
      → loop_step l e q ≡ some q'
      → Between 0 (bound l q.next_id) (history q)
      → IsStamped l q.next_id
      → IsOrdered q'
  unfolding step
  loop_step-IsOrdered waiting see_done s o m =
      of_guard IsOrdered s λ d. record { ordered = o; stamped = tt }
  loop_step-IsOrdered waiting receive s o m =
      of_receive IsOrdered q q.submit_ch s λ req rest e. record { ordered = o; stamped = tt }
  loop_step-IsOrdered (checking req) (check_expired e) s o m =
      of_some IsOrdered s (record { ordered = o; stamped = tt })
  loop_step-IsOrdered (checking req) check_done s o m =
      of_guard IsOrdered s λ d. record { ordered = o; stamped = tt }
  loop_step-IsOrdered (checking req) (check_passed now) s o m = of_guard_not IsOrdered s λ d.
      record { ordered = Between-weaken 0 _ _ (history q) (omega arith) o; stamped = omega arith }
  loop_step-IsOrdered (sending req tx) commit s o m = of_guard IsOrdered s λ d. record {
    ordered = rw (← m.0) (history_commit _ q.taken q.ch tx o (omega arith));
    stamped = tt;
  }
  loop_step-IsOrdered (sending req tx) hand_over s o m = of_guard IsOrdered s λ d. record {
    ordered = rw (← m.0) (history_hand _ q.taken q.ch tx (nil_of_is_empty q.ch d) o (omega arith));
    stamped = tt;
  }
  loop_step-IsOrdered (sending req tx) (send_expired e) s o m =
      of_some IsOrdered s
        (record { ordered = Between-weaken 0 _ _ (history q) (omega arith) o; stamped = tt })
  loop_step-IsOrdered (sending req tx) send_done s o m =
      of_guard IsOrdered s
        λ d. record { ordered = Between-weaken 0 _ _ (history q) (omega arith) o; stamped = tt }
  loop_step-IsOrdered rejecting reject_next s o m =
      of_reject IsOrdered q q.submit_ch s λ req rest e. record { ordered = o; stamped = tt }
  loop_step-IsOrdered rejecting reject_end s o m =
      of_guard IsOrdered s λ d. record { ordered = o; stamped = tt }
  loop_step-IsOrdered _ _ s o m = of_none IsOrdered s

pub step-IsOrdered :
    (q q' : TxQueue) (e : Event)
    → q.next_id + 1 < 2 ^ 64
    → step q e ≡ some q'
    → IsOrdered q
    → IsOrdered q'
unfolding step
step-IsOrdered q q' (admission e) fits s h =
    loop_step-IsOrdered q q' fits q.loop e s h.ordered h.stamped
step-IsOrdered q q' (submit ct) fits s h =
    of_guard IsOrdered s λ d. record { ordered = h.ordered; stamped = h.stamped }
step-IsOrdered q q' (submit_direct ct) fits s h =
    of_parked IsOrdered q q.loop ct s
      (λ e none_wait. record { ordered = rw e at h.ordered; stamped = tt })
      (λ e none_wait. record { ordered = rw e at h.ordered; stamped = tt })
step-IsOrdered q q' take_one fits s h =
    of_take IsOrdered q q.ch s
      λ tx rest e. record { ordered = rw append_snoc (rw e at h.ordered); stamped = h.stamped }
step-IsOrdered q q' close fits s h =
    of_some IsOrdered s (record { ordered = h.ordered; stamped = h.stamped })
