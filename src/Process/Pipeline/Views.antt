-- ===== src/Process/Pipeline/Views.antt =====
-- What was revealed, and what the two loops have in hand.
use secureorder.Prelude.{
  List, [], ◌∷◌, ◌++◌, Bool, true, false, ◌≡◌, refl, sym, if◌then◌else◌, length, append_assoc,
  append-nil, not, ◌||◌, ◌∙◌, Bool-cases, inl, inr,
}
use secureorder.Error.{Bytes}
use secureorder.Sequencing.Transaction.{EncryptedTransaction}
use secureorder.Sequencing.Commitment.{generate_batch_commitment}
use secureorder.Process.Pipeline.{Ingress, adding, Reveal, holding, batch_size}

-- The transactions of some revealed batches.
unfoldable pub batches_of : List (Bool × List EncryptedTransaction) → List EncryptedTransaction
batches_of [] = []
batches_of (r ∷ rs) = r.1 ++ batches_of rs

pub batches_of-snoc :
    (rs : List (Bool × List EncryptedTransaction)) (r : Bool × List EncryptedTransaction)
    → batches_of (rs ++ r ∷ []) ≡ batches_of rs ++ r.1
unfolding batches_of
batches_of-snoc [] r = append-nil r.1
batches_of-snoc (q ∷ rs) r = rw (batches_of-snoc rs r) (sym (append_assoc q.1 (batches_of rs) r.1))

-- Who publishes: without Raft every node, with Raft the one that is the leader.
abbrev pub may_publish : Bool → Bool → Bool
may_publish false led = true
may_publish true led = led

-- The commitments of those batches that this node may publish.
unfoldable pub commitments :
    Bool → (Bytes → Bytes) → List (Bool × List EncryptedTransaction) → List Bytes
commitments is_raft sha256 [] = []
commitments is_raft sha256 (r ∷ rs) =
    let rest = commitments is_raft sha256 rs in
    if may_publish is_raft r.0 then generate_batch_commitment sha256 r.1 ∷ rest else rest

commitments-append :
    (is_raft : Bool) (sha256 : Bytes → Bytes) (rs ss : List (Bool × List EncryptedTransaction))
    → commitments is_raft sha256 (rs ++ ss)
      ≡ commitments is_raft sha256 rs ++ commitments is_raft sha256 ss
unfolding commitments
commitments-append is_raft sha256 [] ss = refl
commitments-append is_raft sha256 (r ∷ rs) ss = elim (Bool-cases (may_publish is_raft r.0)) [
  | inl may ↦ rw (may, commitments-append is_raft sha256 rs ss)
  | inr must_not ↦ rw (must_not, commitments-append is_raft sha256 rs ss)
]

append-if :
    (b : Bool) (c : Bytes) (cs : List Bytes)
    → cs ++ (if b then c ∷ [] else []) ≡ (if b then cs ++ c ∷ [] else cs)
append-if true c cs = refl
append-if false c cs = append-nil cs

publishes≡may_publish : (is_raft led : Bool) → (not is_raft || led) ≡ may_publish is_raft led
publishes≡may_publish false led = refl
publishes≡may_publish true led = refl

pub commitments-snoc :
    (is_raft : Bool) (sha256 : Bytes → Bytes) (rs : List (Bool × List EncryptedTransaction))
    (led : Bool) (batch : List EncryptedTransaction)
    → commitments is_raft sha256 (rs ++ (led, batch) ∷ []) ≡ (
        if not is_raft || led
        then commitments is_raft sha256 rs ++ generate_batch_commitment sha256 batch ∷ []
        else commitments is_raft sha256 rs)
unfolding commitments
commitments-snoc is_raft sha256 rs led batch = rw (publishes≡may_publish is_raft led) (
    commitments-append is_raft sha256 rs ((led, batch) ∷ [])
    ∙ append-if (may_publish is_raft led) (generate_batch_commitment sha256 batch)
        (commitments is_raft sha256 rs))

-- What the two goroutines have in hand.
unfoldable pub carried : Ingress → List EncryptedTransaction
carried (adding txs) = txs
carried _ = []

unfoldable pub held : Reveal → List EncryptedTransaction
held (holding batch) = batch
held _ = []

-- A batch in hand is a whole one.
abbrev pub IsWhole : Reveal → Type 0
IsWhole (holding batch) = length batch ≡ batch_size
IsWhole _ = Unit

abbrev pub IsFull : Bool × List EncryptedTransaction → Type 0
IsFull r = length r.1 ≡ batch_size
