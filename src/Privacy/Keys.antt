-- ===== src/Privacy/Keys.antt =====
-- pkg/privacy/privacy_cgo.go: Init, the generation of keys and their files. A file is read and
-- written as save_key_to_file and load_key_from_file of keygen.cpp do.
use secureorder.Prelude.{
  ℕ, List, [], ◌∷◌, ◌++◌, Option, none, some, ◌==◌, not, if◌then◌else◌, length, take, is_empty,
  bytes_eq,
}
use secureorder.Prelude.{Result, ok, err}
use secureorder.Prelude.Int.{ℤ, is_zero, is_nonpos, to_nat}
use secureorder.Text.{codes}
use secureorder.Error.{Bytes, GoError, message}
use secureorder.Encoding.Decimal.{format_int}
use secureorder.Privacy.Sodium.{Sodium}
use secureorder.Privacy.Native.{init_privacy_layer, generate_sequencer_keys}

abbrev pub public_key_bytes : ℕ
public_key_bytes = 32

abbrev pub secret_key_bytes : ℕ
secret_key_bytes = 32

module _ (sodium : Sodium) where
  open sodium use {Rng}

  unfoldable pub init : Rng → Option GoError × Rng
  init g =
      let (ret, g') = init_privacy_layer sodium g in
      (
        if not (is_zero ret)
            then some (message (codes "privacy init failed (libsodium)"))
            else none,
        g',
      )

  -- GenerateSequencerKeys
  unfoldable pub new_sequencer_keys : Rng → Result GoError (Bytes × Bytes) × Rng
  new_sequencer_keys g =
      let ((ret, pk, sk), g') = generate_sequencer_keys sodium g in
      (
        if not (is_zero ret)
            then err (message (codes "generate_sequencer_keys failed: code=" ++ format_int ret))
            else ok (pk, sk),
        g',
      )

-- What becomes of the reads of one file: it can be read, it cannot be opened, or they break off after
-- some bytes.
pub data ReadFate : Type 0 where
  readable : ReadFate
  not_readable : ReadFate
  breaks_off : ℕ → ReadFate

-- The files, by their paths. A write that fails leaves the file cut off at some place: how many
-- bytes of it reach the disk is up to the outside.
pub record Files : Type 0 where
  pub content : List (Bytes × Bytes)
  pub reads : Bytes → ReadFate

-- What becomes of one write: it succeeds, the file cannot be opened, only some bytes are written, or
-- the stream buffers the bytes and `close`, whose failure is not looked at, loses all but some.
pub data WriteFate : Type 0 where
  written : WriteFate
  not_opened : WriteFate
  cut_off : ℕ → WriteFate
  lost_at_close : ℕ → WriteFate

unfoldable pub read_file : Bytes → List (Bytes × Bytes) → Option Bytes
read_file path [] = none
read_file path ((p, content) ∷ fs) =
    let rest = read_file path fs in if bytes_eq p path then some content else rest

-- save_key_to_file: 1 or 0, and the files.
unfoldable pub save_key : WriteFate → Bytes → Bytes → Files → ℕ × Files
save_key written path key fs = (1, record fs { content = (path, key) ∷ fs.content })
save_key not_opened path key fs = (0, fs)
save_key (cut_off n) path key fs = (0, record fs { content = (path, take n key) ∷ fs.content })
save_key (lost_at_close n) path key fs =
    (1, record fs { content = (path, take n key) ∷ fs.content })

pub read_exactly : ℕ → Option Bytes → ℕ × Bytes
read_exactly n none = (0, [])
read_exactly n (some content) =
    if length (take n content) == n then (1, take n content) else (0, take n content)

pub read_by : ReadFate → ℕ → Option Bytes → ℕ × Bytes
unfolding read_exactly
read_by readable n found = read_exactly n found
read_by not_readable n found = (0, [])
read_by (breaks_off k) n none = (0, [])
read_by (breaks_off k) n (some content) = read_exactly n (some (take k content))

-- load_key_from_file: 1 or 0, and what it read.
unfoldable pub load_key : ℕ → Bytes → Files → ℕ × Bytes
unfolding read_by
load_key n path fs = read_by (fs.reads path) n (read_file path fs.content)

-- SaveKeyToFile
unfoldable pub save_key_to_file : WriteFate → Bytes → Bytes → Files → Option GoError × Files
save_key_to_file fate path key fs =
    if is_empty key
    then (some (message (codes "key cannot be empty")), fs)
    else let (done, fs') = save_key fate path key fs in
      (if done == 1 then none else some (message (codes "failed to save key: " ++ path)), fs')

-- LoadKeyFromFile
unfoldable pub load_key_from_file : Bytes → ℤ → Files → Result GoError Bytes
load_key_from_file path expected_len fs =
    if is_nonpos expected_len
    then err (message (codes "expected key length must be > 0"))
    else let (done, buffer) = load_key (to_nat expected_len) path fs in
      if done == 1 then ok buffer else err (message (codes "failed to load key: " ++ path))
