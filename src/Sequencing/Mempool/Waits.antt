-- ===== src/Sequencing/Mempool/Waits.antt =====
-- DrainWait of the mempool, over every schedule of its polls and of the Adds between them.
use secureorder.Prelude.{
  ℕ, suc, ◌+◌, ◌≤◌, List, [], ◌∷◌, ◌++◌, Option, none, some, Bool, true, false, length, ◌≡◌, refl,
  sym, ap, ◌∙◌, arith, append-nil, append_snoc, of_some, of_guard, of_none, length-append,
  length-take, take-append-drop, ◌⊎◌, inl, inr, leb→le,
}
use secureorder.Prelude.Int.{pos}
use secureorder.Sequencing.Transaction.{EncryptedTransaction}
use secureorder.Sequencing.Mempool.Fifo.{take-clamp, drop-clamp}
use secureorder.Sequencing.Mempool.{
  EncryptedMempool, add, clamp, remove_front, Poll, added, tick, cancelled, try_drain, wait_loop,
  or_wait, drain_wait,
}

-- The transactions that other goroutines add during a schedule.
abbrev pub adds : List Poll → List EncryptedTransaction
adds [] = []
adds (added tx ∷ ps) = tx ∷ adds ps
adds (tick ∷ ps) = adds ps
adds (cancelled ∷ ps) = adds ps

-- Its context is found done in a schedule.
abbrev pub gave_up : List Poll → Bool
gave_up [] = false
gave_up (added tx ∷ ps) = gave_up ps
gave_up (tick ∷ ps) = gave_up ps
gave_up (cancelled ∷ ps) = true

-- What DrainWait gives out and keeps: the items and those added so far, in order; and the batch is
-- full, or empty if the context was done.
record IsBatch (n : ℕ) (items : List EncryptedTransaction) (ps : List Poll)
    (r : List EncryptedTransaction × EncryptedMempool) : Type 0 where
  so_far : List EncryptedTransaction
  unread : List EncryptedTransaction
  split : adds ps ≡ so_far ++ unread
  conserved : r.0 ++ r.1.items ≡ items ++ so_far
  sized : ((r.0 ≡ []) × (gave_up ps ≡ true)) ⊎ (length r.0 ≡ n)

-- A pass that finds enough items takes a whole batch off the front.
pub try_drain_splits :
    (n : ℕ) (m : EncryptedMempool) (r : List EncryptedTransaction × EncryptedMempool)
    → try_drain n m ≡ some r
    → (m.items ≡ r.0 ++ r.1.items) × (length r.0 ≡ n)
unfolding try_drain
try_drain_splits n m r e =
    of_guard
      (λ (p : List EncryptedTransaction × EncryptedMempool).
        (m.items ≡ p.0 ++ p.1.items) × (length p.0 ≡ n))
      e
      λ le.
        rw (take-clamp n m.items, drop-clamp n m.items)
          (sym (take-append-drop n m.items), omega (arith, length-take n m.items, leb→le _ _ le))

try_drain-IsBatch :
    (n : ℕ) (m : EncryptedMempool) (ps : List Poll)
    (r : List EncryptedTransaction × EncryptedMempool)
    → try_drain n m ≡ some r
    → IsBatch n m.items ps r
unfolding try_drain
try_drain-IsBatch n m ps r e = of_guard (IsBatch n m.items ps) e λ le. record {
  so_far = [];
  unread = adds ps;
  split = refl;
  conserved =
      rw (take-clamp n m.items, drop-clamp n m.items, append-nil) (take-append-drop n m.items);
  sized = inr (rw (take-clamp n m.items) (omega (arith, length-take n m.items, leb→le _ _ le)));
}

of_or_wait {κ} :
    (P : List EncryptedTransaction × EncryptedMempool → Type κ)
    (now later : Option (List EncryptedTransaction × EncryptedMempool))
    {r : List EncryptedTransaction × EncryptedMempool}
    → or_wait now later ≡ some r
    → (now ≡ some r → P r)
    → (later ≡ some r → P r)
    → P r
unfolding or_wait
of_or_wait P none later e k l = l e
of_or_wait P (some x) later e k l = k e

wait_loop-IsBatch :
    (n : ℕ) (ps : List Poll) (m : EncryptedMempool)
    (r : List EncryptedTransaction × EncryptedMempool)
    → wait_loop n ps m ≡ some r
    → IsBatch n m.items ps r
unfolding wait_loop
wait_loop-IsBatch n [] m r e = of_none (IsBatch n m.items []) e
wait_loop-IsBatch n (added tx ∷ ps) m r e =
    let h = wait_loop-IsBatch n ps (add tx m) r e in
    record {
      so_far = tx ∷ h.so_far;
      unread = h.unread;
      split = ap (λ l. tx ∷ l) h.split;
      conserved = h.conserved ∙ (unfold add in append_snoc m.items tx h.so_far);
      sized = h.sized;
    }
wait_loop-IsBatch n (tick ∷ ps) m r e =
    of_or_wait (IsBatch n m.items (tick ∷ ps)) (try_drain n m) (wait_loop n ps m) e
      (try_drain-IsBatch n m (tick ∷ ps) r)
      λ later.
        let h = wait_loop-IsBatch n ps m r later in
        record {
          so_far = h.so_far;
          unread = h.unread;
          split = h.split;
          conserved = h.conserved;
          sized = h.sized;
        }
wait_loop-IsBatch n (cancelled ∷ ps) m r e =
    of_some (IsBatch n m.items (cancelled ∷ ps)) e (record {
      so_far = [];
      unread = adds ps;
      split = refl;
      conserved = sym (append-nil m.items);
      sized = inl (refl, refl);
    })

-- DrainWait of a positive `n` that returns gave out a full batch of `n` or, if its context was
-- cancelled, nothing; its batch followed by what the mempool keeps is what the mempool held followed
-- by what was added meanwhile, in order.
pub wait-batch :
    (n : ℕ) (ps : List Poll) (m m' : EncryptedMempool) (out : List EncryptedTransaction)
    → drain_wait (pos (suc n)) ps m ≡ some (out, m')
    → (((out ≡ []) × (gave_up ps ≡ true)) ⊎ (length out ≡ suc n))
      × (so_far : List EncryptedTransaction) × (unread : List EncryptedTransaction) × (adds ps
          ≡ so_far ++ unread)
      × (out ++ m'.items ≡ m.items ++ so_far)
unfolding drain_wait
wait-batch n ps m m' out e =
    let h : IsBatch (suc n) m.items ps (out, m') =
      of_or_wait (IsBatch (suc n) m.items ps) (try_drain (suc n) m) (wait_loop (suc n) ps m) e
        (try_drain-IsBatch (suc n) m ps (out, m')) (wait_loop-IsBatch (suc n) ps m (out, m')) in
    (h.sized, h.so_far, h.unread, h.split, h.conserved)

or_wait-some :
    (now later : Option (List EncryptedTransaction × EncryptedMempool))
    → (r : List EncryptedTransaction × EncryptedMempool) × (later ≡ some r)
    → (r : List EncryptedTransaction × EncryptedMempool) × (or_wait now later ≡ some r)
unfolding or_wait
or_wait-some none later h = h
or_wait-some (some r) later h = (r, refl)

wait_loop_returns :
    (n : ℕ) (ps : List Poll) (m : EncryptedMempool)
    → n ≤ length m.items + length (adds ps)
    → (r : List EncryptedTransaction × EncryptedMempool) × (wait_loop n (ps ++ tick ∷ []) m
        ≡ some r)
unfolding wait_loop
wait_loop_returns n [] m h =
    (remove_front (clamp n m.items) m, unfold try_drain or_wait in ground arith)
wait_loop_returns n (added tx ∷ ps) m h =
    wait_loop_returns n ps (add tx m) (unfold add in omega (arith, length-append m.items (tx ∷ [])))
wait_loop_returns n (tick ∷ ps) m h = or_wait-some (try_drain n m) _ (wait_loop_returns n ps m h)
wait_loop_returns n (cancelled ∷ ps) m h = (([], m), refl)

-- DrainWait of a positive `n` does return: at the latest at the first tick after which `n`
-- transactions have come together.
pub wait_returns :
    (n : ℕ) (ps : List Poll) (m : EncryptedMempool)
    → suc n ≤ length m.items + length (adds ps)
    → (r : List EncryptedTransaction × EncryptedMempool) × (drain_wait
          (pos (suc n))
          (ps ++ tick ∷ [])
          m
        ≡ some r)
unfolding drain_wait
wait_returns n ps m h = or_wait-some (try_drain (suc n) m) _ (wait_loop_returns (suc n) ps m h)
