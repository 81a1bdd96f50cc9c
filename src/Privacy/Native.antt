-- ===== src/Privacy/Native.antt =====
-- cpp/src/privacy/encryption.cpp and keygen.cpp: the functions with C linkage. Buffers are given by
-- the bytes written into them. The workers of decrypt_batch_tx write disjoint parts of the output
-- and only ever set the failure flag; they run one after the other here.
pub mod Workers
use secureorder.Prelude.{
  ℕ, zero, suc, ◌+◌, ◌-◌, ◌*◌, ◌/◌, ◌%◌, ◌^◌, min, List, [], ◌∷◌, ◌++◌, Bool, true, false, Option,
  none, some, ◌==◌, ltb, not, if◌then◌else◌, length, take, drop,
}
use secureorder.Prelude.Int.{ℤ, pos, negsuc, is_neg, is_zero}
use secureorder.Error.{Bytes}
use secureorder.Privacy.Sodium.{Sodium}

-- SO_SUCCESS and the error codes.
abbrev pub so_success : ℤ
so_success = pos 0

abbrev pub so_err_bad_cipher : ℤ
so_err_bad_cipher = negsuc 0

abbrev pub so_err_key_mismatch : ℤ
so_err_key_mismatch = negsuc 1

abbrev pub so_err_init_failed : ℤ
so_err_init_failed = negsuc 3

-- crypto_box_SEALBYTES
abbrev pub seal_bytes : ℕ
seal_bytes = 48

pub record DecryptedTx : Type 0 where
  pub plaintext : Bytes
  pub length_out : ℕ
  pub original_index : ℕ
  pub status : ℤ

module _ (sodium : Sodium) where
  open sodium use {Rng, sodium_init, crypto_box_keypair, crypto_box_seal, crypto_box_seal_open}

  unfoldable pub init_privacy_layer : Rng → ℤ × Rng
  init_privacy_layer g =
      let (ret, g') = sodium_init g in (if is_neg ret then so_err_init_failed else so_success, g')

  made_keys : (ℤ × Bytes × Bytes) × Rng → (ℤ × Bytes × Bytes) × Rng
  made_keys ((ret, pk, sk), g) =
      if not (is_zero ret) then ((so_err_key_mismatch, pk, sk), g) else ((so_success, pk, sk), g)

  -- The return code and the two key buffers.
  unfoldable pub generate_sequencer_keys : Rng → (ℤ × Bytes × Bytes) × Rng
  unfolding made_keys
  generate_sequencer_keys g =
      let (ret, g') = sodium_init g in
      if is_neg ret then ((so_err_init_failed, [], []), g') else made_keys (crypto_box_keypair g')

  unfoldable pub seal_transaction : Bytes → Bytes → Rng → (ℤ × Bytes) × Rng
  seal_transaction plaintext pk g =
      let ((ret, ct), g') = crypto_box_seal plaintext pk g in
      if not (is_zero ret) then ((so_err_bad_cipher, ct), g') else ((so_success, ct), g')

  -- The return code, and `output` afterwards.
  unfoldable pub decrypt_single_tx : Bytes → Bytes → Bytes → DecryptedTx → ℤ × DecryptedTx
  decrypt_single_tx ct pk sk output =
      if ltb (length ct) seal_bytes
      then (so_err_bad_cipher, record output { status = so_err_bad_cipher; length_out = 0 })
      else elim (crypto_box_seal_open ct pk sk) [
        | none ↦
            (so_err_key_mismatch, record output { status = so_err_key_mismatch; length_out = 0 })
        | some m ↦ (
          so_success,
          record output { plaintext = m; length_out = length ct - seal_bytes; status = so_success },
        )
      ]

  -- The loop body of worker_task, with the failure flag.
  pub decrypt_item : ℕ → Bytes → Bytes → Bytes → DecryptedTx → ℤ → DecryptedTx × ℤ
  decrypt_item i ct pk sk output any_failure =
      if ltb (length ct) seal_bytes
      then (record output { status = so_err_bad_cipher; length_out = 0 }, so_err_bad_cipher)
      else elim (crypto_box_seal_open ct pk sk) [
        | none ↦ (record output { status = so_err_bad_cipher; length_out = 0 }, so_err_bad_cipher)
        | some m ↦ (
          record {
            plaintext = m;
            length_out = length ct - seal_bytes;
            original_index = i % 2 ^ 32;
            status = so_success;
          },
          any_failure,
        )
      ]

  -- worker_task from index `i` on, over its part of the input, with the entries of the output that
  -- Go has cleared.
  unfoldable pub worker_task : ℕ → List Bytes → Bytes → Bytes → ℤ → List DecryptedTx × ℤ
  unfolding decrypt_item
  worker_task i [] pk sk any_failure = ([], any_failure)
  worker_task i (ct ∷ cts) pk sk any_failure =
      let cleared : DecryptedTx = record {
        plaintext = [];
        length_out = 0;
        original_index = 0;
        status = pos 0;
      } in
      let (out, failure) = decrypt_item i ct pk sk cleared any_failure in
      let (outs, failure') = worker_task (i + 1) cts pk sk failure in (out ∷ outs, failure')

  -- The loop that starts the workers `t`, `t + 1` and so on.
  run_workers : ℕ → ℕ → ℕ → List Bytes → Bytes → Bytes → ℤ → List DecryptedTx × ℤ
  unfolding worker_task
  run_workers zero t chunk_size inputs pk sk any_failure = ([], any_failure)
  run_workers (suc k) t chunk_size inputs pk sk any_failure =
      let start = t * chunk_size in
      let end' = min (start + chunk_size) (length inputs) in
      let (outs, failure) =
        worker_task start (take (end' - start) (drop start inputs)) pk sk any_failure in
      let (outs', failure') = run_workers k (t + 1) chunk_size inputs pk sk failure in
      (outs ++ outs', failure')

  -- `hardware` is what std::thread::hardware_concurrency returns, 0 if it does not know.
  unfoldable pub decrypt_batch_tx : ℕ → List Bytes → Bytes → Bytes → ℤ × List DecryptedTx
  unfolding run_workers
  decrypt_batch_tx hardware inputs pk sk =
      let batch_size = length inputs in
      if batch_size == 0
      then (so_success, [])
      else let num_threads = min (if hardware == 0 then 2 else hardware) batch_size in
        let chunk_size = (batch_size + num_threads - 1) / num_threads in
        let (outs, failure) = run_workers num_threads 0 chunk_size inputs pk sk so_success in
        (failure, outs)
