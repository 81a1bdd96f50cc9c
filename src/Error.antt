-- ===== src/Error.antt =====
-- Go's `error` values as the program builds them: the sentinels it compares or returns
-- (`context.Canceled`, `context.DeadlineExceeded`, `ErrQueueClosed` of pkg/sequencing/queue.go),
-- `errors.New(text)`, and `fmt.Errorf("prefix: %w", err)`.
use secureorder.Prelude.{ℕ, List}

abbrev pub Bytes : Type 0
Bytes = List ℕ

pub data GoError : Type 0 where
  canceled : GoError
  deadline_exceeded : GoError
  queue_closed : GoError
  message : Bytes → GoError
  wrap : Bytes → GoError → GoError
