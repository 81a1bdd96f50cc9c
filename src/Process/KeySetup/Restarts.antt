-- ===== src/Process/KeySetup/Restarts.antt =====
-- The keys that later starts of the process find.
use secureorder.Prelude.{
  ℕ, ◌≢◌, List, [], ◌∷◌, ◌++◌, Option, none, some, ◌≡◌, refl, ap, ◌∙◌, arith, length, Bool-cases,
  Option-cases, inl, inr,
}
use secureorder.Prelude.{Result, ok, err}
use secureorder.Prelude.Int.{pos, is_zero, is_neg}
use secureorder.Text.{codes}
use secureorder.Error.{Bytes, GoError, message}
use secureorder.Privacy.Sodium.{Sodium, IsSodium, IsKeypair}
use secureorder.Privacy.Native.{generate_sequencer_keys}
use secureorder.Privacy.RoundTrip.{take_whole, is_zero→eq}
use secureorder.Privacy.Keys.{
  read_exactly, Files, WriteFate, written, not_opened, cut_off, lost_at_close, readable, read_by,
  new_sequencer_keys, save_key, load_key, read_file, save_key_to_file, load_key_from_file,
}
use secureorder.Process.KeySetup.{
  pub_path, sec_path, save_secret, save_pair, reuse_or_create, load_or_create_sequencer_keys,
}

-- The write does not lose at `close` what it has reported as written.
abbrev pub IsFlushed : WriteFate → Type 0
IsFlushed fate = (n : ℕ) → fate ≢ lost_at_close n

-- The two key files can be read.
abbrev pub IsReadable : Files → Type 0
IsReadable fs = (fs.reads pub_path ≡ readable) × (fs.reads sec_path ≡ readable)

-- A save that loses nothing and reports no error has written the whole key.
saved :
    (fate : WriteFate) (path key : Bytes) (fs : Files)
    → IsFlushed fate
    → (save_key_to_file fate path key fs).0 ≡ none
    → (save_key_to_file fate path key fs).1 ≡ record fs { content = (path, key) ∷ fs.content }
unfolding save_key_to_file save_key
saved fate path [] fs flushed h = cc
saved written path (b ∷ key) fs flushed h = refl
saved not_opened path (b ∷ key) fs flushed h = cc
saved (cut_off n) path (b ∷ key) fs flushed h = cc
saved (lost_at_close n) path (b ∷ key) fs flushed h = absurd (flushed n refl)

load_sized :
    (path key : Bytes) (fs : Files)
    → fs.reads path ≡ readable
    → read_file path fs.content ≡ some key
    → length key ≡ 32
    → load_key_from_file path (pos 32) fs ≡ ok key
unfolding load_key_from_file load_key
load_sized path key fs reads there sized =
    let whole : load_key 32 path fs ≡ (1, key) =
      ap (read_by (fs.reads path) 32) there
      ∙ rw (reads, read_by, read_exactly, take_whole 32 key sized, sized) refl in
    rw whole refl

save_key_to_file-written :
    (path key : Bytes) (fs : Files)
    → length key ≡ 32
    → save_key_to_file written path key fs
      ≡ (none, record fs { content = (path, key) ∷ fs.content })
unfolding save_key_to_file save_key
save_key_to_file-written path [] fs sized = ground arith
save_key_to_file-written path (b ∷ key) fs sized = refl

save_key_to_file-not_opened :
    (path key : Bytes) (fs : Files)
    → length key ≡ 32
    → save_key_to_file not_opened path key fs
      ≡ (some (message (codes "failed to save key: " ++ path)), fs)
unfolding save_key_to_file save_key
save_key_to_file-not_opened path [] fs sized = ground arith
save_key_to_file-not_opened path (b ∷ key) fs sized = refl

-- A save of the public key does not change what is read as the private key.
sec_kept :
    (pk : Bytes) (fs : Files)
    → load_key_from_file sec_path (pos 32) (record fs { content = (pub_path, pk) ∷ fs.content })
      ≡ load_key_from_file sec_path (pos 32) fs
unfolding load_key_from_file load_key read_file
sec_kept pk fs = refl

pub_first :
    (pk : Bytes) (content : List (Bytes × Bytes))
    → read_file pub_path ((pub_path, pk) ∷ content) ≡ some pk
unfolding read_file
pub_first pk content = refl

module _ (sodium : Sodium) (documented : IsSodium sodium) where
  open sodium use {Rng, crypto_box_keypair, sodium_init}

  new_sequencer_keys-IsKeypair :
      (g : Rng) (pk sk : Bytes)
      → (new_sequencer_keys sodium g).0 ≡ ok (pk, sk)
      → IsKeypair sodium pk sk
  unfolding new_sequencer_keys generate_sequencer_keys
  new_sequencer_keys-IsKeypair g pk sk h =
      let (ret, g') = sodium_init g in
      let r = crypto_box_keypair g' in
      elim (Bool-cases (is_neg ret)) [
        | inl failed ↦ cc (rw failed at h)
        | inr started ↦ elim (Bool-cases (is_zero r.0.0)) [
          | inr failed ↦ cc (rw (started, failed) at h)
          | inl made ↦
              let same : ◌≡◌ {A = Result GoError (Bytes × Bytes)} (ok (r.0.1, r.0.2))
                  (ok (pk, sk)) =
                rw (started, made) at h in
              let same_pk : r.0.1 ≡ pk = cc in
              let same_sk : r.0.2 ≡ sk = cc in
              record { before = g'; made = λ i. (is_zero→eq r.0.0 made i, same_pk i, same_sk i) }
        ]
      ]

  -- What a start without an error leaves on disk.
  abbrev pub Persists : Bytes → Bytes → Files → Type 0
  Persists pk sk fs =
      (load_key_from_file pub_path (pos 32) fs ≡ ok pk)
      × (load_key_from_file sec_path (pos 32) fs ≡ ok sk)

  save_secret-Persists :
      (fate : WriteFate) (fs : Files) (q : Option GoError × Files) (pk' sk' pk sk : Bytes) (g : Rng)
      → IsFlushed fate
      → IsReadable fs
      → (q.0 ≡ none → q.1 ≡ record fs { content = (pub_path, pk') ∷ fs.content })
      → IsKeypair sodium pk' sk'
      → (save_secret sodium fate pk' sk' g q).0 ≡ ok (pk, sk)
      → Persists pk sk (save_secret sodium fate pk' sk' g q).2
  unfolding load_or_create_sequencer_keys read_file
  save_secret-Persists fate fs (some e, fs1) pk' sk' pk sk g flushed reads w keys h = cc
  save_secret-Persists fate fs (none, fs1) pk' sk' pk sk g flushed reads w keys h =
      let second = save_key_to_file fate sec_path sk' fs1 in
      elim (Option-cases second.0) [
        | inr (e, failed) ↦ cc (rw (failed, save_secret) at h)
        | inl done ↦
            let on_disk = saved fate sec_path sk' fs1 flushed done in
            let same : ◌≡◌ {A = Result GoError (Bytes × Bytes)} (ok (pk', sk')) (ok (pk, sk)) =
              rw (done, save_secret) at h in
            let same_pk : pk' ≡ pk = cc in
            let same_sk : sk' ≡ sk = cc in
            rw (save_secret, on_disk, w refl, ← same_pk, ← same_sk)
              (
                load_sized pub_path pk' _ reads.0 refl (documented.pk_sized pk' sk' keys),
                load_sized sec_path sk' _ reads.1 refl (documented.sk_sized pk' sk' keys),
              )
      ]

  save_pair-Persists :
      (pub_fate sec_fate : WriteFate) (fs : Files) (r : Result GoError (Bytes × Bytes) × Rng)
      (pk sk : Bytes)
      → IsFlushed pub_fate
      → IsFlushed sec_fate
      → IsReadable fs
      → ((pk' sk' : Bytes) → r.0 ≡ ok (pk', sk') → IsKeypair sodium pk' sk')
      → (save_pair sodium pub_fate sec_fate fs r).0 ≡ ok (pk, sk)
      → Persists pk sk (save_pair sodium pub_fate sec_fate fs r).2
  unfolding load_or_create_sequencer_keys
  save_pair-Persists pub_fate sec_fate fs (err e, g) pk sk pub_done sec_done reads made h = cc
  save_pair-Persists pub_fate sec_fate fs (ok (pk', sk'), g) pk sk pub_done sec_done reads made h =
      save_secret-Persists sec_fate fs (save_key_to_file pub_fate pub_path pk' fs) pk' sk' pk sk g
        sec_done reads (saved pub_fate pub_path pk' fs pub_done) (made pk' sk' refl) h

  reuse_or_create-Persists :
      (pub_fate sec_fate : WriteFate) (g : Rng) (fs : Files) (pk sk : Bytes)
      (pub_load sec_load : Result GoError Bytes)
      → IsFlushed pub_fate
      → IsFlushed sec_fate
      → IsReadable fs
      → load_key_from_file pub_path (pos 32) fs ≡ pub_load
      → load_key_from_file sec_path (pos 32) fs ≡ sec_load
      → (reuse_or_create sodium pub_fate sec_fate g fs pub_load sec_load).0 ≡ ok (pk, sk)
      → Persists pk sk (reuse_or_create sodium pub_fate sec_fate g fs pub_load sec_load).2
  unfolding load_or_create_sequencer_keys
  reuse_or_create-Persists pf sf g fs pk sk (ok pk') (ok sk') pd sd reads loaded_pk loaded_sk h =
      let same_pk : pk' ≡ pk = cc in
      let same_sk : sk' ≡ sk = cc in (loaded_pk ∙ ap ok same_pk, loaded_sk ∙ ap ok same_sk)
  reuse_or_create-Persists pf sf g fs pk sk (ok pk') (err e) pd sd reads _ _ h =
      save_pair-Persists pf sf fs (new_sequencer_keys sodium g) pk sk pd sd reads
        (new_sequencer_keys-IsKeypair g) h
  reuse_or_create-Persists pf sf g fs pk sk (err e) sec_load pd sd reads _ _ h =
      save_pair-Persists pf sf fs (new_sequencer_keys sodium g) pk sk pd sd reads
        (new_sequencer_keys-IsKeypair g) h

  -- If a start has got a key pair, and its writes have not lost at `close` what they reported as
  -- written, every start on the files it leaves gets the same pair, whatever the generator and the
  -- fates of its own writes, draws no random bytes and leaves the files as they are; supposing that
  -- the two files, where they are there, can be read.
  pub load_or_create_sequencer_keys_again :
      (pub_fate sec_fate pub_fate' sec_fate' : WriteFate) (g g' : Rng) (fs : Files) (pk sk : Bytes)
      → IsFlushed pub_fate
      → IsFlushed sec_fate
      → IsReadable fs
      → (load_or_create_sequencer_keys sodium none pub_fate sec_fate g fs).0 ≡ ok (pk, sk)
      → let after = (load_or_create_sequencer_keys sodium none pub_fate sec_fate g fs).2 in
        load_or_create_sequencer_keys sodium none pub_fate' sec_fate' g' after
        ≡ (ok (pk, sk), g', after)
  unfolding load_or_create_sequencer_keys
  load_or_create_sequencer_keys_again pf sf pf' sf' g g' fs pk sk pd sd reads h =
      let (there_pk, there_sk) =
        reuse_or_create-Persists pf sf g fs pk sk (load_key_from_file pub_path (pos 32) fs)
          (load_key_from_file sec_path (pos 32) fs) pd sd reads refl refl h in
      rw (there_pk, there_sk) refl

  -- Without its public key file the process makes a new pair. If it can write the public key but
  -- cannot open the private key's file, the start ends in an error, and the next one gets the new
  -- public key with the old private key; supposing that the public key's file can be read then.
  pub load_or_create_sequencer_keys_mixed :
      (pub_fate sec_fate : WriteFate) (g g' g'' : Rng) (fs : Files) (pk sk old : Bytes)
      (e : GoError)
      → fs.reads pub_path ≡ readable
      → load_key_from_file pub_path (pos 32) fs ≡ err e
      → load_key_from_file sec_path (pos 32) fs ≡ ok old
      → new_sequencer_keys sodium g ≡ (ok (pk, sk), g')
      → let first = load_or_create_sequencer_keys sodium none written not_opened g fs in
        (first.0 ≡ err (message (codes "failed to save key: " ++ sec_path)))
        × (load_or_create_sequencer_keys sodium none pub_fate sec_fate g'' first.2
            ≡ (ok (pk, old), g'', first.2))
  unfolding load_or_create_sequencer_keys
  load_or_create_sequencer_keys_mixed pf sf g g' g'' fs pk sk old e reads no_pk there made =
      let keys = new_sequencer_keys-IsKeypair g pk sk (ap (λ r. r.0) made) in
      let pk_sized = documented.pk_sized pk sk keys in
      let first_save = save_key_to_file-written pub_path pk fs pk_sized in
      let second_save =
        save_key_to_file-not_opened sec_path sk
          (record fs { content = (pub_path, pk) ∷ fs.content }) (documented.sk_sized pk sk keys) in
      let reloaded =
        load_sized pub_path pk (record fs { content = (pub_path, pk) ∷ fs.content }) reads
          (pub_first pk fs.content) pk_sized in
      let kept = sec_kept pk fs ∙ there in
      let first : load_or_create_sequencer_keys sodium none written not_opened g fs ≡ (
        err (message (codes "failed to save key: " ++ sec_path)),
        g',
        record fs { content = (pub_path, pk) ∷ fs.content },
      ) =
        rw (no_pk, made, first_save, save_secret, second_save) refl in
      rw (first, reloaded, kept) (refl, refl)
