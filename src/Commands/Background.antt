-- ===== src/Commands/Background.antt =====
-- What cmd/demo/main.go and cmd/live-demo/main.go share: callers of Submit whose context is
-- context.Background(), which never expires, and the verb `%02d`.
use secureorder.Prelude.{ℕ, ◌∷◌, Option, none, some, ◌≡◌, ltb, if◌then◌else◌}
use secureorder.Error.{Bytes}
use secureorder.Encoding.Decimal.{format_nat}
use secureorder.Sequencing.Queue.{
  TxQueue, LoopEvent, check_expired, send_expired, hand_over, admission, step,
}
use secureorder.Sequencing.Queue.Calls.{Call, CallEvent, saw_expired, call_step}
use secureorder.Sequencing.Queue.Waits.{IsOthers}

unfoldable pub two_digits : ℕ → Bytes
two_digits n = if ltb n 10 then b'0' ∷ format_nat n else format_nat n

-- The admission goroutine while nobody is parked in a receive from the queue.
unfoldable pub admits_alone : LoopEvent → TxQueue → Option TxQueue
admits_alone (check_expired e) q = none
admits_alone (send_expired e) q = none
admits_alone hand_over q = none
admits_alone e q = step q (admission e)

unfoldable pub calls_alone : Call → CallEvent → TxQueue → Option (Call × TxQueue)
calls_alone c (saw_expired e) q = none
calls_alone c e q = call_step c e q

pub of_admits_alone :
    (e : LoopEvent) (q q' : TxQueue)
    → admits_alone e q ≡ some q'
    → (step q (admission e) ≡ some q') × IsOthers (admission e)
unfolding admits_alone
of_admits_alone (check_expired e) q q' s = cc
of_admits_alone (send_expired e) q q' s = cc
of_admits_alone hand_over q q' s = cc
of_admits_alone e q q' s = (s, tt)

pub of_calls_alone :
    (c : Call) (e : CallEvent) (q : TxQueue) (r : Call × TxQueue)
    → calls_alone c e q ≡ some r
    → call_step c e q ≡ some r
unfolding calls_alone
of_calls_alone c (saw_expired e) q r s = cc
of_calls_alone c e q r s = s
