-- ===== src/Privacy/Leaks.antt =====
-- Which of the C blocks that a call asks for it gives back.
use mathlib.Core.List.{Perm, perm_append_comm, reverse_perm, reverse, reverse-cons}
use mathlib.Core.List.Perm
use mathlib.Core.Path.{subst}
use native.Mathlib.Nat.{zero-add}
use secureorder.Prelude.{
  ℕ, suc, ◌*◌, ◌<◌, All, List, [], ◌∷◌, ◌++◌, true, false, none, ◌≡◌, refl, sym, ap, ◌∙◌, arith,
  ltb, leb, length, is_empty, Bool-cases, Option-cases, inl, inr, append_assoc, append-nil,
  append_snoc,
}
use secureorder.Prelude.{Result, ok, err}
use secureorder.Error.{Bytes, GoError}
use secureorder.Privacy.Sodium.{Sodium}
use secureorder.Privacy.Memory.{CMemory, malloc, free, free_all}
use secureorder.Privacy.Decrypt.{
  key_error, prepare, too_short, decrypt_single, decrypt_batch, decrypt_prepared,
}
use secureorder.Privacy.Buffers.{
  Traffic, IsBalanced, nothing_asked, IsSealed, Buffers, prepare-Buffers,
}

module _ (sodium : Sodium) (pk sk : Bytes) where
  decrypt_single-IsBalanced :
      (ct : Bytes) (m : CMemory) → IsBalanced m (decrypt_single sodium ct pk sk m).1
  unfolding decrypt_single malloc free
  decrypt_single-IsBalanced ct m = elim (Bool-cases (leb (length ct) 48)) [
    | inl short ↦ rw short (nothing_asked m)
    | inr long ↦ elim (Option-cases (key_error pk sk)) [
      | inr (e, wrong) ↦ rw (long, wrong) (nothing_asked m)
      | inl right ↦
          rw (long, right)
            (record {
              asked = suc (suc (suc m.next)) ∷ suc (suc m.next) ∷ suc m.next ∷ m.next ∷ [];
              returned = m.next ∷ suc m.next ∷ suc (suc m.next) ∷ suc (suc (suc m.next)) ∷ [];
              traffic = record { asked_for = refl; given_back = refl };
              all_returned =
                  reverse_perm
                    (suc (suc (suc m.next)) ∷ suc (suc m.next) ∷ suc m.next ∷ m.next ∷ []);
            })
    ]
  ]

free_all-frees : (ps : List ℕ) (m : CMemory) → (free_all ps m).frees ≡ reverse ps ++ m.frees
unfolding free_all
free_all-frees [] m = refl
free_all-frees (p ∷ ps) m =
    free_all-frees ps (free p m) ∙ rw reverse-cons (sym (append_snoc (reverse ps) p m.frees))

free_all-mallocs : (ps : List ℕ) (m : CMemory) → (free_all ps m).mallocs ≡ m.mallocs
unfolding free_all
free_all-mallocs [] m = refl
free_all-mallocs (p ∷ ps) m = free_all-mallocs ps (free p m)

-- The blocks of DecryptBatch: the two arrays `e` and `d`, the buffers, the two keys `k` and `s`.
all_blocks :
    (e d k s : ℕ) (cs ps buffers : List ℕ)
    → Perm (cs ++ ps) buffers
    → Perm (e ∷ d ∷ (reverse ps ++ reverse cs) ++ k ∷ s ∷ []) (s ∷ k ∷ buffers ++ d ∷ e ∷ [])
all_blocks e d k s cs ps buffers h =
    let x = reverse ps ++ reverse cs in
    let same : Perm x buffers =
      Perm.trans (Perm.append (reverse_perm ps) (reverse_perm cs))
        (Perm.trans (perm_append_comm ps cs) h) in
    Perm.trans (perm_append_comm (e ∷ d ∷ x) (k ∷ s ∷ [])) (
      Perm.trans (Perm.swap s k (e ∷ d ∷ x)) (
        Perm.cons s (
          Perm.cons k (
            Perm.trans (Perm.swap d e x) (
              Perm.trans (perm_append_comm (d ∷ e ∷ []) x)
                (Perm.append_right (d ∷ e ∷ []) same))))))

-- The loop over items that all hold a seal ends with a buffer of each kind for each of them.
prepare_sealed :
    (cts : List Bytes) (m : CMemory)
    → All IsSealed cts
    → (new_c : List ℕ) × (new_p : List ℕ) × (m' : CMemory) × (prepare 0 cts [] [] m
        ≡ (ok (new_c, new_p), m'))
      × Buffers (length cts) new_c new_p m m'
unfolding decrypt_batch
prepare_sealed cts m h =
    let (new_c, new_p, m', same, b) = prepare-Buffers cts [] 0 [] [] m h in
    (new_c, new_p, m', rw append-nil at same, b)

module _ (sodium : Sodium) (pk sk : Bytes) (hardware : ℕ) where
  prepared-IsBalanced :
      (cts : List Bytes) (n : ℕ) (cs ps : List ℕ) (m m' : CMemory)
      → Buffers n cs ps (malloc (malloc m).1).1 m'
      → IsBalanced m (
          free m.next
            (free (suc m.next) (decrypt_prepared sodium hardware cts pk sk (ok (cs, ps), m')).1))
  unfolding decrypt_batch malloc free
  prepared-IsBalanced cts n cs ps m m' b =
      let e = m.next in
      let d = suc m.next in
      let k = m'.next in
      let s = suc m'.next in
      let keyed : CMemory = free k (free s (malloc (malloc m').1).1) in
      record {
        asked = s ∷ k ∷ b.buffers ++ d ∷ e ∷ [];
        returned = e ∷ d ∷ (reverse ps ++ reverse cs) ++ k ∷ s ∷ [];
        traffic = record {
          asked_for =
              free_all-mallocs ps (free_all cs keyed)
              ∙ free_all-mallocs cs keyed
              ∙ rw (b.traffic.asked_for, append_assoc) refl;
          given_back =
              ap (λ l. e ∷ d ∷ l)
                (free_all-frees ps (free_all cs keyed)
                  ∙ rw (free_all-frees cs keyed, b.traffic.given_back, append_assoc)
                      (sym (append_assoc (reverse ps) (reverse cs) _)));
        };
        all_returned = all_blocks e d k s cs ps b.buffers b.both;
      }

  decrypt_batch-IsBalanced :
      (cts : List Bytes) (m : CMemory)
      → All IsSealed cts
      → IsBalanced m (decrypt_batch sodium hardware cts pk sk m).1
  unfolding decrypt_batch malloc free
  decrypt_batch-IsBalanced cts m h = elim (Option-cases (key_error pk sk)) [
    | inr (e, wrong) ↦ rw (wrong, decrypt_batch) (nothing_asked m)
    | inl right ↦ elim (Bool-cases (is_empty cts)) [
      | inl nothing ↦ rw (right, decrypt_batch, nothing) (nothing_asked m)
      | inr items ↦
          let (cs, ps, m', same, b) = prepare_sealed cts (malloc (malloc m).1).1 h in
          rw (right, decrypt_batch, items)
            (subst
              (λ r.
                IsBalanced m (
                  free m.next (free (suc m.next) (decrypt_prepared sodium hardware cts pk sk r).1)))
              (sym same) (prepared-IsBalanced cts (length cts) cs ps m m' b))
    ]
  ]

  -- Neither DecryptSingle nor, if every item holds a seal, DecryptBatch keeps C memory: whatever the
  -- keys and the outcome, just the blocks that it was handed out are given back, each once.
  pub decrypt-IsBalanced :
      (ct : Bytes) (cts : List Bytes) (m : CMemory)
      → All IsSealed cts
      → IsBalanced m (decrypt_single sodium ct pk sk m).1
        × IsBalanced m (decrypt_batch sodium hardware cts pk sk m).1
  decrypt-IsBalanced ct cts m h =
      (decrypt_single-IsBalanced sodium pk sk ct m, decrypt_batch-IsBalanced cts m h)

-- What DecryptBatch does behind a loop that ended with `r`, after `n` items: an error, and two blocks
-- lost for each item.
abbrev IsLeaky :
    (sodium : Sodium)
    → Bytes
    → Bytes
    → ℕ
    → List Bytes
    → ℕ
    → CMemory
    → Result GoError (List ℕ × List ℕ) × CMemory
    → Type 0
IsLeaky sodium pk sk hardware cts n m r =
    ((decrypt_prepared sodium hardware cts pk sk r).0 ≡ err (too_short n))
    × (asked : List ℕ) × (returned : List ℕ) × (lost : List ℕ) × Traffic asked returned m
        (free m.next (free (suc m.next) (decrypt_prepared sodium hardware cts pk sk r).1))
    × Perm (returned ++ lost) asked
    × (length lost ≡ 2 * n)

ltb_short : (ct : Bytes) → length ct < 48 → ltb (length ct) 48 ≡ true
ltb_short ct h = ground arith

nonempty :
    (good : List Bytes) (bad : Bytes) (more : List Bytes) → is_empty (good ++ bad ∷ more) ≡ false
nonempty [] bad more = refl
nonempty (ct ∷ good) bad more = refl

module _ (sodium : Sodium) (pk sk : Bytes) (hardware : ℕ) where
  -- At the first item that is too short to hold a seal, DecryptBatch returns an error with its index
  -- and loses the buffers of the items before it: two blocks for each are never given back, and all
  -- others are.
  pub decrypt_batch_leaks :
      (good more : List Bytes) (bad : Bytes) (m : CMemory)
      → key_error pk sk ≡ none
      → All IsSealed good
      → length bad < 48
      → ((decrypt_batch sodium hardware (good ++ bad ∷ more) pk sk m).0
          ≡ err (too_short (length good)))
        × (asked : List ℕ) × (returned : List ℕ) × (lost : List ℕ) × Traffic asked returned m
            (decrypt_batch sodium hardware (good ++ bad ∷ more) pk sk m).1
        × Perm (returned ++ lost) asked
        × (length lost ≡ 2 * length good)
  unfolding decrypt_batch malloc free
  decrypt_batch_leaks good more bad m right h short =
      let (cs, ps, m', same, b) =
        prepare-Buffers good (bad ∷ more) 0 [] [] (malloc (malloc m).1).1 h in
      let stops : prepare 0 (good ++ bad ∷ more) [] [] (malloc (malloc m).1).1
          ≡ (err (too_short (length good)), m') =
        same ∙ rw (ltb_short bad short, prepare, zero-add) refl in
      rw (right, decrypt_batch, nonempty good bad more)
        (subst (λ r. IsLeaky sodium pk sk hardware (good ++ bad ∷ more) (length good) m r)
          (sym stops)
          (
            refl,
            b.buffers ++ suc m.next ∷ m.next ∷ [],
            m.next ∷ suc m.next ∷ [],
            b.buffers,
            record {
              asked_for = b.traffic.asked_for ∙ sym (append_assoc b.buffers _ _);
              given_back = ap (λ l. m.next ∷ suc m.next ∷ l) b.traffic.given_back;
            },
            Perm.trans (Perm.swap (suc m.next) m.next b.buffers)
                (perm_append_comm (suc m.next ∷ m.next ∷ []) b.buffers),
            b.counted,
          ))
