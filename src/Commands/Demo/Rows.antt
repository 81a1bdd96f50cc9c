-- ===== src/Commands/Demo/Rows.antt =====
-- What the table of the demo shows.
use secureorder.Prelude.{
  length, length-append, ltb, ◌++◌, arith, Bool-cases, inl, inr, true, ◌+◌, ◌<◌, ◌^◌, ℕ, ◌≤◌, List,
  [], ◌∷◌, some, ◌≡◌, refl, All, All-append-left,
}
use secureorder.Prelude.Int.{ℤ, IsInt64}
use secureorder.Encoding.Decimal.{format_nat, format_int, length-format_nat, length-format_int}
use secureorder.Text.{codes}
use secureorder.Commands.Background.{two_digits}
use secureorder.Error.{Bytes}
use secureorder.Privacy.Sodium.{Sodium, IsSodium, IsKeypair}
use secureorder.Privacy.Memory.{CMemory}
use secureorder.Privacy.Decrypt.{decrypt_single}
use secureorder.Privacy.RoundTrip.{decrypt_single-seal, new_sequencer_keys-IsKeypair}
use secureorder.Sequencing.Transaction.{EncryptedTransaction}
use secureorder.Sequencing.Queue.{new_tx_queue}
use secureorder.Sequencing.Queue.Drain.{Wake}
use secureorder.Sequencing.Queue.Runs.{run-IsAccounted, new-IsAccounted}
use secureorder.Sequencing.Queue.Sent.{run-IsMade}
use secureorder.Sequencing.Queue.Payloads.{history-All}
use secureorder.Commands.Demo.Order.{of_demo_main, IsReported-IsDrained, demo_main-fifo}
use secureorder.Commands.Demo.Runs.{IsSealed, HasTime}
use secureorder.Commands.Demo.{
  payload, six_decimals, DemoEvent, DemoReport, Row, shown, rows_of, reported, demo_main,
}

-- The row shows the payload of one of the ten clients, at some time.
abbrev pub IsClientRow : Row → Type 0
IsClientRow row = (id : ℕ) × (1 ≤ id) × (id ≤ 10) × (now : ℤ) × (row.plaintext ≡ payload id now)

-- A payload is short.
length-two_digits : (n : ℕ) → n < 2 ^ 64 → length (two_digits n) ≤ 66
unfolding two_digits
length-two_digits n h = elim (Bool-cases (ltb n 10)) [
  | inl small ↦ rw small (omega (arith, length-format_nat n h))
  | inr big ↦ rw big (omega (arith, length-format_nat n h))
]

length-six_decimals : (n : ℕ) → n < 2 ^ 64 → length (six_decimals n) ≤ 72
unfolding payload
length-six_decimals n h =
    omega (arith, length-append (format_nat n) (codes ".000000"), length-format_nat n h)

length-fields :
    (a b c d : Bytes)
    → length
        (codes "TRADE|" ++ a ++ codes "|BUY|ETH/USDC|" ++ b ++ codes "|" ++ c ++ codes "|" ++ d)
      ≡ 22 + (length a + (length b + (length c + length d)))
length-fields a b c d =
    let named = codes "TRADE|" ++ a in
    let priced = named ++ codes "|BUY|ETH/USDC|" ++ b in
    let timed = priced ++ codes "|" ++ c in
    omega (
      arith,
      length-append (codes "TRADE|") a,
      length-append named (codes "|BUY|ETH/USDC|"),
      length-append (named ++ codes "|BUY|ETH/USDC|") b,
      length-append priced (codes "|"),
      length-append (priced ++ codes "|") c,
      length-append timed (codes "|"),
      length-append (timed ++ codes "|") d,
    )

length-payload : (id : ℕ) (now : ℤ) → id ≤ 10 → IsInt64 now → length (payload id now) < 2 ^ 31
unfolding payload
length-payload id now h t = omega (
  arith,
  length-fields (two_digits id) (six_decimals id) (six_decimals (3000 + id)) (format_int now),
  length-two_digits id (omega (arith, h)),
  length-six_decimals id (omega (arith, h)),
  length-six_decimals (3000 + id) (omega (arith, h)),
  length-format_int now t,
)

module _ (sodium : Sodium) (documented : IsSodium sodium) where
  open sodium use {Rng}

  rows_of-IsClientRow :
      (pk sk : Bytes) (batch : List EncryptedTransaction) (m : CMemory)
      → IsKeypair sodium pk sk
      → All (λ tx. IsSealed sodium pk tx.ciphertext) batch
      → All IsClientRow (rows_of sodium pk sk batch m).0
  unfolding demo_main rows_of
  rows_of-IsClientRow pk sk [] m keys h = tt
  rows_of-IsClientRow pk sk (tx ∷ batch) m keys h =
      let s = h.0 in
      let opened =
        decrypt_single-seal sodium documented (payload s.id s.now) pk sk tx.ciphertext s.rng m
          (length-payload s.id s.now s.last s.at_time) keys s.made in
      (
        (s.id, s.first, s.last, s.now, rw (opened.1, shown) refl),
        rows_of-IsClientRow pk sk batch (decrypt_single sodium tx.ciphertext pk sk m).1 keys h.1,
      )

  rows-IsClientRow :
      (es : List DemoEvent) (ws : List Wake) (g : Rng) (m : CMemory) (r : DemoReport)
      → All HasTime es
      → demo_main sodium es ws g m ≡ some (reported r)
      → All IsClientRow r.rows
  unfolding new_tx_queue
  rows-IsClientRow es ws g m r times h =
      let i = of_demo_main sodium es ws g m r h in
      let d = IsReported-IsDrained sodium es ws m r i times in
      let P = IsSealed sodium i.pk in
      let accounted =
        run-IsAccounted (new_tx_queue 64) d.final d.reached.events d.reached.possible
          (new-IsAccounted 64) in
      let made =
        run-IsMade P (new_tx_queue 64) d.final d.reached.events d.reached.possible d.reached.made
          tt in
      let all = history-All P d.final accounted made in
      rw i.row_list (
        rows_of-IsClientRow i.pk i.sk i.drained.batch m
          (new_sequencer_keys-IsKeypair sodium documented i.keys_before i.pk i.sk i.keys)
          (rw d.whole at (All-append-left (λ tx. P tx.ciphertext) d.final.taken d.final.ch all)))

  -- Whenever the demo reports, over every schedule of its goroutines and of the time that main
  -- waits, of fewer than 2^64 steps together, with int64 times, it prints that the FIFO order is preserved, and no
  -- row of its table shows a decryption error: each shows, byte for byte, the payload that one of
  -- the ten clients built.
  pub demo_main-reported :
      (es : List DemoEvent) (ws : List Wake) (g : Rng) (m : CMemory) (r : DemoReport)
      → length es + length ws < 2 ^ 64
      → All HasTime es
      → demo_main sodium es ws g m ≡ some (reported r)
      → (r.fifo ≡ true) × All IsClientRow r.rows
  demo_main-reported es ws g m r fits times h =
      (demo_main-fifo sodium es ws g m r fits times h, rows-IsClientRow es ws g m r times h)
