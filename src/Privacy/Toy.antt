-- ===== src/Privacy/Toy.antt =====
-- A libsodium for the tests: a box is 48 zero bytes before the message, and a key is 32 times the
-- same byte.
use secureorder.Prelude.{
  ℕ, ◌+◌, ◌++◌, false, none, some, ◌≡◌, refl, sym, ap, ◌∙◌, arith, ltb, if◌then◌else◌, length, drop,
  Bool-cases, inl, inr, length-drop, replicate,
}
use secureorder.Prelude.Int.{ℤ, pos}
use secureorder.Error.{Bytes}
use secureorder.Privacy.Sodium.{Sodium, IsSodium, IsKeypair}

abbrev pub zeros : Bytes
zeros = replicate 48 0

abbrev pub toy : Sodium
toy = record {
  Rng = ℕ;
  sodium_init = λ g. (pos 0, g);
  crypto_box_keypair = λ g. ((pos 0, replicate 32 g, replicate 32 (g + 1)), g + 1);
  crypto_box_seal = λ m pk g. ((pos 0, zeros ++ m), g + 1);
  crypto_box_seal_open = λ ct pk sk. if ltb (length ct) 48 then none else some (drop 48 ct);
}

toy_open :
    (ct m : Bytes)
    → (if ltb (length ct) 48 then none else some (drop 48 ct)) ≡ some m
    → length ct ≡ length m + 48
toy_open ct m h = elim (Bool-cases (ltb (length ct) 48)) [
  | inl short ↦ cc (rw short at h)
  | inr long ↦
      let same : drop 48 ct ≡ m = cc (rw long at h) in
      let dropped = length-drop 48 ct in
      let sized : length (drop 48 ct) ≡ length m = ap (λ (l : Bytes). length l) same in ground arith
]

toy_opens :
    (m : Bytes)
    → (if ltb (length (zeros ++ m)) 48 then none else some (drop 48 (zeros ++ m))) ≡ some m
toy_opens m = let long : ltb (length (zeros ++ m)) 48 ≡ false = ground (arith) in rw long refl

pub toy_documented : IsSodium toy
toy_documented = record {
  pk_sized = λ pk sk keys. ap (λ r. length r.1) (sym keys.made);
  sk_sized = λ pk sk keys. ap (λ r. length r.2) (sym keys.made);
  seal_sized = λ m pk ct g h. ap (λ r. length r.1) (sym h) ∙ omega arith;
  open_sized = λ ct pk sk m h. toy_open ct m h;
  open_sealed = λ m pk sk ct g keys h.
      ap (λ (r : ℤ × Bytes). if ltb (length r.1) 48 then none else some (drop 48 r.1)) (sym h)
      ∙ toy_opens m;
}

pub toy_keys : IsKeypair toy (replicate 32 7) (replicate 32 8)
toy_keys = record { before = 7; made = refl }
