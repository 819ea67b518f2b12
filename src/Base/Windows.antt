-- ===== src/Base/Windows.antt =====
-- A buffer that keeps its newest elements: `push_back`, then the oldest goes when there are too many.
use Prim.Native.Nat.{ℕ, zero, suc, ◌+◌, ◌-◌, ◌≤◌}
use mathlib.Core.Path.{◌≡◌, refl, sym, ap, ◌∙◌}
use mathlib.Core.List.{List, [], ◌∷◌, ◌++◌, append_assoc, append-nil}
use mathlib.Core.Logic.{inl, inr}
use native.Mathlib.Omega.{arith}
use sys_scope.Base.Tests.{ltb, ltb→lt, if◌then◌else◌, Bool-cases}
use sys_scope.Base.Lists.{length, drop, length-append, length-drop}

module _ {ℓ} {A : Type ℓ} where
  -- `buffer.push_back(x); if (buffer.size() > cap) buffer.pop_front();`
  unfoldable pub push_capped : ℕ → A → List A → List A
  push_capped cap x xs = let ys = xs ++ (x ∷ []) in if ltb cap (length ys) then drop 1 ys else ys

  -- The last `n` elements.
  abbrev pub last_of : ℕ → List A → List A
  last_of n xs = drop (length xs - n) xs

  -- Every element of the list is pushed in order.
  unfoldable pub push_all : ℕ → List A → List A → List A
  push_all cap [] xs = xs
  push_all cap (y ∷ ys) xs = push_all cap ys (push_capped cap y xs)

  drop-append : (n : ℕ) (xs ys : List A) → n ≤ length xs → drop n (xs ++ ys) ≡ drop n xs ++ ys
  drop-append zero xs ys h = refl
  drop-append (suc n) [] ys h = absurd (omega arith)
  drop-append (suc n) (x ∷ xs) ys h = drop-append n xs ys (omega arith)

  drop-nil : (n : ℕ) → drop {A = A} n [] ≡ []
  drop-nil zero = refl
  drop-nil (suc n) = refl

  drop-drop : (m n : ℕ) (xs : List A) → drop m (drop n xs) ≡ drop (n + m) xs
  drop-drop m zero xs = ap (λ (k : ℕ). drop k xs) (omega arith)
  drop-drop m (suc n) [] = rw (drop-nil m, drop-nil (suc n + m)) refl
  drop-drop m (suc n) (x ∷ xs) =
      let e : suc n + m ≡ suc (n + m) = omega arith in rw e (drop-drop m n xs)

  pub last_of-short : (n : ℕ) (xs : List A) → length xs ≤ n → last_of n xs ≡ xs
  last_of-short n xs h = let e : length xs - n ≡ 0 = omega arith in rw e refl

  pub length-last_of : (n : ℕ) (xs : List A) → length (last_of n xs) ≤ n
  length-last_of n xs = omega (arith, length-drop (length xs - n) xs)

  -- What was dropped before makes no difference to what is kept.
  pub last_of-append :
      (n : ℕ) (xs ys : List A) → last_of n (last_of n xs ++ ys) ≡ last_of n (xs ++ ys)
  last_of-append n xs ys =
      let k = length xs - n in
      let a = length (drop k xs ++ ys) - n in
      let kept : k + a ≡ length (xs ++ ys) - n =
        omega (arith, length-append xs ys, length-append (drop k xs) ys, length-drop k xs) in
      ap (drop a) (sym (drop-append k xs ys (omega arith)))
      ∙ drop-drop a k (xs ++ ys)
      ∙ ap (λ (c : ℕ). drop c (xs ++ ys)) kept

  pub push_capped_lem :
      (cap : ℕ) (x : A) (xs : List A)
      → length xs ≤ cap
      → push_capped cap x xs ≡ last_of cap (xs ++ (x ∷ []))
  unfolding push_capped
  push_capped_lem cap x xs h =
      let size : length (xs ++ (x ∷ [])) ≡ length xs + 1 = length-append xs (x ∷ []) in
      elim (Bool-cases (ltb cap (length (xs ++ (x ∷ []))))) [
        | inl e ↦
            let one : 1 ≡ length (xs ++ (x ∷ [])) - cap = omega (arith, size, ltb→lt cap _ e) in
            rw e (ap (λ (c : ℕ). drop c (xs ++ (x ∷ []))) one)
        | inr e ↦ rw e (sym (last_of-short cap (xs ++ (x ∷ [])) (ground arith)))
      ]

  pub push_all_lem :
      (cap : ℕ) (ys xs : List A) → length xs ≤ cap → push_all cap ys xs ≡ last_of cap (xs ++ ys)
  unfolding push_all
  push_all_lem cap [] xs h = sym (last_of-short cap xs h) ∙ ap (last_of cap) (sym (append-nil xs))
  push_all_lem cap (y ∷ ys) xs h =
      let zs = xs ++ (y ∷ []) in
      let one : push_capped cap y xs ≡ last_of cap zs = push_capped_lem cap y xs h in
      ap (push_all cap ys) one
      ∙ push_all_lem cap ys (last_of cap zs) (length-last_of cap zs)
      ∙ last_of-append cap zs ys
      ∙ ap (last_of cap) (append_assoc xs (y ∷ []) ys)
