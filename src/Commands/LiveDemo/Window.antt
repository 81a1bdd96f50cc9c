-- ===== src/Commands/LiveDemo/Window.antt =====
-- The list of recent submissions.
use secureorder.Prelude.{
  ℕ, zero, suc, ◌-◌, ◌≤◌, List, [], ◌∷◌, ◌++◌, ◌≡◌, refl, sym, ap, arith, length, drop,
  length-append, length-drop, ltb, append-nil, append_snoc, Bool-cases, inl, inr,
}
use secureorder.Error.{Bytes}
use secureorder.Commands.LiveDemo.Trades.{push_recent}

-- The list after the given submissions in turn.
abbrev pub push_all : List Bytes → List Bytes → List Bytes
push_all recent [] = recent
push_all recent (info ∷ infos) = push_all (push_recent recent info) infos

drop-append : (n : ℕ) (xs ys : List Bytes) → n ≤ length xs → drop n (xs ++ ys) ≡ drop n xs ++ ys
drop-append zero xs ys h = refl
drop-append (suc n) [] ys h = absurd (omega arith)
drop-append (suc n) (x ∷ xs) ys h = drop-append n xs ys (omega arith)

drop-drop : (n : ℕ) (xs : List Bytes) → drop 1 (drop n xs) ≡ drop (suc n) xs
drop-drop zero [] = refl
drop-drop zero (x ∷ xs) = refl
drop-drop (suc n) [] = refl
drop-drop (suc n) (x ∷ xs) = drop-drop n xs

-- The last fifteen.
abbrev pub latest : List Bytes → List Bytes
latest infos = drop (length infos - 15) infos

push_recent-latest :
    (infos : List Bytes) (info : Bytes)
    → push_recent (latest infos) info ≡ latest (infos ++ info ∷ [])
unfolding push_recent
push_recent-latest infos info =
    let k = length infos - 15 in
    let longer : latest infos ++ info ∷ [] ≡ drop k (infos ++ info ∷ []) =
      sym (drop-append k infos (info ∷ []) (omega arith)) in
    let all = length-append infos (info ∷ []) in
    let some_left = length-drop k (infos ++ info ∷ []) in
    rw longer (elim (Bool-cases (ltb 15 (length (drop k (infos ++ info ∷ []))))) [
      | inl full ↦
          let later : length (infos ++ info ∷ []) - 15 ≡ suc k =
            ground (arith, full, some_left, all) in
          rw (full, later) (drop-drop k (infos ++ info ∷ []))
      | inr short ↦
          let same : length (infos ++ info ∷ []) - 15 ≡ k = ground (arith, short, some_left, all) in
          rw (short, same) refl
    ])

push_all-append : (infos more : List Bytes) → push_all (latest infos) more ≡ latest (infos ++ more)
push_all-append infos [] = ap latest (sym (append-nil infos))
push_all-append infos (info ∷ more) =
    rw (push_recent-latest infos info, ← append_snoc infos info more)
      (push_all-append (infos ++ info ∷ []) more)

-- Appending the submissions one by one, each time dropping the oldest of more than fifteen, keeps
-- exactly the last fifteen of them in order, or all of them while there are no more.
pub push_all-latest : (infos : List Bytes) → push_all [] infos ≡ latest infos
push_all-latest infos = push_all-append [] infos
