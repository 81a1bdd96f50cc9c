-- ===== src/Process/KeySetup.antt =====
-- loadOrCreateSequencerKeys of cmd/sequencer/main.go.
pub mod Restarts
use secureorder.Prelude.{
  ℕ, List, [], ◌∷◌, ◌++◌, Bool, true, false, Option, none, some, ◌≡◌, refl, sym, ap, ◌∙◌, arith,
  ◌==◌, not, if◌then◌else◌, length, take, is_empty, bytes_eq, bytes_eq_refl, Bool-cases,
  Option-cases, inl, inr,
}
use secureorder.Prelude.{Result, ok, err, Result-cases}
use secureorder.Prelude.Int.{ℤ, pos, is_zero, is_neg}
use secureorder.Text.{codes}
use secureorder.Error.{Bytes, GoError, message, wrap}
use secureorder.Privacy.Sodium.{Sodium, IsSodium, IsKeypair}
use secureorder.Privacy.Native.{generate_sequencer_keys}
use secureorder.Privacy.RoundTrip.{take_whole, is_zero→eq}
use secureorder.Privacy.Keys.{
  read_exactly, Files, WriteFate, written, not_opened, cut_off, public_key_bytes, secret_key_bytes,
  new_sequencer_keys, save_key, load_key, read_file, save_key_to_file, load_key_from_file,
}

abbrev pub pub_path : Bytes
pub_path = codes "keys/sequencer_public.key"

abbrev pub sec_path : Bytes
sec_path = codes "keys/sequencer_private.key"

module _ (sodium : Sodium) where
  open sodium use {Rng}

  pub save_secret :
      WriteFate
      → Bytes
      → Bytes
      → Rng
      → Option GoError × Files
      → Result GoError (Bytes × Bytes) × Rng × Files
  save_secret fate pk sk g (some e, fs) = (err e, g, fs)
  save_secret fate pk sk g (none, fs) =
      let (failed, fs') = save_key_to_file fate sec_path sk fs in
      (elim failed [ some e ↦ err e | none ↦ ok (pk, sk) ], g, fs')

  pub save_pair :
      WriteFate
      → WriteFate
      → Files
      → Result GoError (Bytes × Bytes) × Rng
      → Result GoError (Bytes × Bytes) × Rng × Files
  unfolding save_secret
  save_pair pub_fate sec_fate fs (err e, g) =
      (err (wrap (codes "failed to generate sequencer keypair: ") e), g, fs)
  save_pair pub_fate sec_fate fs (ok (pk, sk), g) =
      save_secret sec_fate pk sk g (save_key_to_file pub_fate pub_path pk fs)

  pub reuse_or_create :
      WriteFate
      → WriteFate
      → Rng
      → Files
      → Result GoError Bytes
      → Result GoError Bytes
      → Result GoError (Bytes × Bytes) × Rng × Files
  unfolding save_pair
  reuse_or_create pub_fate sec_fate g fs (ok pk) (ok sk) = (ok (pk, sk), g, fs)
  reuse_or_create pub_fate sec_fate g fs (err e) sec =
      save_pair pub_fate sec_fate fs (new_sequencer_keys sodium g)
  reuse_or_create pub_fate sec_fate g fs (ok pk) (err e) =
      save_pair pub_fate sec_fate fs (new_sequencer_keys sodium g)

  -- The error of os.MkdirAll, and what becomes of the two writes, come from outside.
  unfoldable pub load_or_create_sequencer_keys :
      Option GoError
      → WriteFate
      → WriteFate
      → Rng
      → Files
      → Result GoError (Bytes × Bytes) × Rng × Files
  unfolding reuse_or_create
  load_or_create_sequencer_keys mkdir pub_fate sec_fate g fs = elim mkdir [
    | some e ↦ (err (wrap (codes "failed to create key directory: ") e), g, fs)
    | none ↦
        reuse_or_create pub_fate sec_fate g fs
          (load_key_from_file pub_path (pos public_key_bytes) fs)
          (load_key_from_file sec_path (pos secret_key_bytes) fs)
  ]
