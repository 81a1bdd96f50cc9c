-- ===== src/Process/Pipeline/Agreement.antt =====
-- The batches of two nodes whose logs agree.
use secureorder.Prelude.{
  ℕ, List, [], ◌∷◌, ◌++◌, Bool, some, ◌≡◌, ◌⊎◌, refl, sym, ap, ◌∙◌, length, All, map, inl, inr,
  append_assoc, take, drop,
}
use secureorder.Error.{Bytes}
use secureorder.Sequencing.Transaction.{EncryptedTransaction}
use secureorder.Sequencing.Log.{OrderedLog, IsOrderedLog}
use secureorder.Privacy.Sodium.{Sodium}
use secureorder.Privacy.Memory.{CMemory}
use secureorder.Process.Pipeline.{Pipeline, PipelineEvent, run_pipeline, new_pipeline}
use secureorder.Process.Pipeline.Views.{batches_of, IsFull}
use secureorder.Process.Pipeline.Order.{run_pipeline-IsInOrder}

-- The lists of batches, without their marks.
abbrev pub revealed_batches :
    List (Bool × List EncryptedTransaction) → List (List EncryptedTransaction)
revealed_batches rs = map (λ r. r.1) rs

take-length : (xs ys : List EncryptedTransaction) → take (length xs) (xs ++ ys) ≡ xs
take-length [] ys = refl
take-length (x ∷ xs) ys = ap (λ l. x ∷ l) (take-length xs ys)

drop-length : (xs ys : List EncryptedTransaction) → drop (length xs) (xs ++ ys) ≡ ys
drop-length [] ys = refl
drop-length (x ∷ xs) ys = drop-length xs ys

same_front :
    (xs ys us vs : List EncryptedTransaction) (n : ℕ)
    → length xs ≡ n
    → length ys ≡ n
    → xs ++ us ≡ ys ++ vs
    → (xs ≡ ys) × (us ≡ vs)
same_front xs ys us vs n hx hy e = (
  sym (take-length xs us) ∙ ap (take (length xs)) e ∙ rw (hx ∙ sym hy) (take-length ys vs),
  sym (drop-length xs us) ∙ ap (drop (length xs)) e ∙ rw (hx ∙ sym hy) (drop-length ys vs),
)

-- One of two lists of whole batches that fill the same stream from the start is a part of the other.
same_batches :
    (rs qs : List (Bool × List EncryptedTransaction)) (us vs : List EncryptedTransaction)
    → All IsFull rs
    → All IsFull qs
    → batches_of rs ++ us ≡ batches_of qs ++ vs
    → ((more : List (List EncryptedTransaction)) × (revealed_batches qs
          ≡ revealed_batches rs ++ more))
      ⊎ ((more : List (List EncryptedTransaction)) × (revealed_batches rs
            ≡ revealed_batches qs ++ more))
unfolding batches_of
same_batches [] qs us vs hr hq e = inl (revealed_batches qs, refl)
same_batches (r ∷ rs) [] us vs hr hq e = inr (revealed_batches (r ∷ rs), refl)
same_batches (r ∷ rs) (q ∷ qs) us vs hr hq e =
    let (same, rest) =
      same_front r.1 q.1 (batches_of rs ++ us) (batches_of qs ++ vs) 1000 hr.0 hq.0
        (sym (append_assoc r.1 (batches_of rs) us) ∙ e ∙ append_assoc q.1 (batches_of qs) vs) in
    elim (same_batches rs qs us vs hr.1 hq.1 rest) [
      | inl (more, ahead) ↦ inl (more, λ i. sym same i ∷ ahead i)
      | inr (more, ahead) ↦ inr (more, λ i. same i ∷ ahead i)
    ]

-- Two nodes, of whatever kinds of log, keys and schedules, of which the second has committed all
-- that the first has, and maybe more: one of them has revealed the same batches as the other, in the
-- same order with the same boundaries, and then perhaps more. So for every batch both would publish
-- the same commitment.
pub batches_agree :
    (l l' : OrderedLog) (promised : IsOrderedLog l) (promised' : IsOrderedLog l')
    (sha256 : Bytes → Bytes) (is_raft is_raft' : Bool) (sodium sodium' : Sodium)
    (pk sk pk' sk' : Bytes) (evs : List (PipelineEvent l is_raft sha256 sodium pk sk))
    (evs' : List (PipelineEvent l' is_raft' sha256 sodium' pk' sk')) (log : l.Log) (log' : l'.Log)
    (m m' : CMemory) (p : Pipeline l is_raft sha256 sodium pk sk)
    (p' : Pipeline l' is_raft' sha256 sodium' pk' sk') (more : List EncryptedTransaction)
    → l.stream log ≡ l.ahead log
    → l'.stream log' ≡ l'.ahead log'
    → run_pipeline l is_raft sha256 sodium pk sk evs
        (new_pipeline l is_raft sha256 sodium pk sk log m)
      ≡ some p
    → run_pipeline l' is_raft' sha256 sodium' pk' sk' evs'
        (new_pipeline l' is_raft' sha256 sodium' pk' sk' log' m')
      ≡ some p'
    → l'.stream p'.log ≡ l.stream p.log ++ more
    → ((later : List (List EncryptedTransaction)) × (revealed_batches p'.revealed
          ≡ revealed_batches p.revealed ++ later))
      ⊎ ((later : List (List EncryptedTransaction)) × (revealed_batches p.revealed
            ≡ revealed_batches p'.revealed ++ later))
batches_agree l l' promised promised' sha256 is_raft is_raft' sodium sodium' pk sk pk' sk' evs evs'
      log log' m m' p p' more start start' run run' same =
    let (accounted, full, _, _) =
      run_pipeline-IsInOrder l promised is_raft sha256 sodium pk sk evs log m p start run in
    let (accounted', full', _, _) =
      run_pipeline-IsInOrder l' promised' is_raft' sha256 sodium' pk' sk' evs' log' m' p' start'
        run' in
    same_batches p.revealed p'.revealed _ _ full full' (
      sym (append_assoc (batches_of p.revealed) _ more)
      ∙ ap (λ s. s ++ more) (sym accounted)
      ∙ sym same
      ∙ accounted')
