-- ===== src/Privacy/Buffers.antt =====
-- The C blocks that the loop of DecryptBatch asks for.
use mathlib.Core.List.{Perm, perm_middle, perm_append_comm}
use mathlib.Core.List.Perm
use native.Mathlib.Nat.{add-zero}
use secureorder.Prelude.{
  ℕ, suc, ◌+◌, ◌*◌, ◌≤◌, All, List, [], ◌∷◌, ◌++◌, false, ◌≡◌, refl, sym, ◌∙◌, arith, ltb, length,
  append_assoc, append-nil, append_snoc, length-append,
}
use secureorder.Error.{Bytes}
use secureorder.Privacy.Memory.{CMemory, malloc}
use secureorder.Privacy.Decrypt.{prepare, decrypt_batch}

-- From `m` to `m'` these blocks were handed out, and these given back.
pub record Traffic (asked returned : List ℕ) (m m' : CMemory) : Type 0 where
  pub asked_for : m'.mallocs ≡ asked ++ m.mallocs
  pub given_back : m'.frees ≡ returned ++ m.frees

-- Each block that was handed out was given back, once.
pub record IsBalanced (m m' : CMemory) : Type 0 where
  pub asked : List ℕ
  pub returned : List ℕ
  pub traffic : Traffic asked returned m m'
  pub all_returned : Perm returned asked

pub nothing_asked : (m : CMemory) → IsBalanced m m
nothing_asked m = record {
  asked = [];
  returned = [];
  traffic = record { asked_for = refl; given_back = refl };
  all_returned = Perm.refl [];
}

-- A ciphertext that holds a seal.
abbrev pub IsSealed : Bytes → Type 0
IsSealed ct = 48 ≤ length ct

pub ltb_sealed : (ct : Bytes) → IsSealed ct → ltb (length ct) 48 ≡ false
ltb_sealed ct h = ground arith

-- The buffers of some items, in the order of the two slices and in that of the allocations.
pub record Buffers (n : ℕ) (new_c new_p : List ℕ) (m m' : CMemory) : Type 0 where
  pub buffers : List ℕ
  pub traffic : Traffic buffers [] m m'
  pub both : Perm (new_c ++ new_p) buffers
  pub counted : length buffers ≡ 2 * n

pair_up :
    (c p : ℕ) (new_c new_p buffers : List ℕ)
    → Perm (new_c ++ new_p) buffers
    → Perm (c ∷ new_c ++ p ∷ new_p) (buffers ++ p ∷ c ∷ [])
pair_up c p new_c new_p buffers h = Perm.trans (Perm.cons c (perm_middle new_c new_p)) (
    Perm.trans (Perm.swap p c (new_c ++ new_p))
      (Perm.trans (Perm.append_left (p ∷ c ∷ []) h) (perm_append_comm (p ∷ c ∷ []) buffers)))

pub prepare-Buffers :
    (good rest : List Bytes) (i : ℕ) (cs ps : List ℕ) (m : CMemory)
    → All IsSealed good
    → (new_c : List ℕ) × (new_p : List ℕ) × (m' : CMemory) × (prepare i (good ++ rest) cs ps m
        ≡ prepare (i + length good) rest (cs ++ new_c) (ps ++ new_p) m')
      × Buffers (length good) new_c new_p m m'
unfolding decrypt_batch malloc
prepare-Buffers [] rest i cs ps m h = (
  [],
  [],
  m,
  rw (add-zero, append-nil cs, append-nil ps) refl,
  record {
    buffers = [];
    traffic = record { asked_for = refl; given_back = refl };
    both = Perm.refl [];
    counted = refl;
  },
)
prepare-Buffers (ct ∷ good) rest i cs ps m h =
    let next : i + 1 + length good ≡ i + suc (length good) = omega arith in
    let c = m.next in
    let p = suc m.next in
    let after = (malloc (malloc m).1).1 in
    let (new_c, new_p, m', same, b) =
      prepare-Buffers good rest (i + 1) (cs ++ c ∷ []) (ps ++ p ∷ []) after h.1 in
    (
      c ∷ new_c,
      p ∷ new_p,
      m',
      rw (ltb_sealed ct h.0, prepare)
          (same ∙ rw (append_snoc cs c new_c, append_snoc ps p new_p, next) refl),
      record {
        buffers = b.buffers ++ p ∷ c ∷ [];
        traffic = record {
          asked_for = b.traffic.asked_for ∙ sym (append_assoc b.buffers _ _);
          given_back = b.traffic.given_back;
        };
        both = pair_up c p new_c new_p b.buffers b.both;
        counted = omega (arith, b.counted, length-append b.buffers (p ∷ c ∷ []));
      },
    )
