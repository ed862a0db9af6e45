-- ===== src/Prelude/Lists.antt =====
-- Lists measured by native numbers, and predicates on all members.
use Prim.Native.Nat.{ℕ, zero, suc, ◌+◌}
use mathlib.Core.Path.{◌≡◌, sym, subst}
use mathlib.Core.Logic.{inl, inr}
use mathlib.Core.Option.{Option, none, some}
use tf_man.Prelude.Tests.{Option-cases}
use mathlib.Core.Bool.{Bool, false, ◌||◌}
use mathlib.Core.List.{List, [], ◌∷◌, ◌++◌, Memᴰ}
use native.Mathlib.Omega.{arith}

module _ {ℓ} {A : Type ℓ} where
  abbrev pub length : List A → ℕ
  length [] = 0
  length (x ∷ xs) = suc (length xs)

  abbrev pub take : ℕ → List A → List A
  take zero xs = []
  take (suc n) [] = []
  take (suc n) (x ∷ xs) = x ∷ take n xs

  abbrev pub any : (A → Bool) → List A → Bool
  any p [] = false
  any p (x ∷ xs) = p x || any p xs

  -- The i-th of a list, and the others.
  unfoldable pub pick : ℕ → List A → Option (A × List A)
  pick i [] = none
  pick zero (x ∷ xs) = some (x, xs)
  pick (suc i) (x ∷ xs) = elim (pick i xs) [ none ↦ none | some (y, rest) ↦ some (y, x ∷ rest) ]

  abbrev pub sum : (A → ℕ) → List A → ℕ
  sum w [] = 0
  sum w (x ∷ xs) = w x + sum w xs

  pub sum-pick :
      (w : A → ℕ) (i : ℕ) (xs : List A) (x : A) (rest : List A)
      → pick i xs ≡ some (x, rest)
      → sum w xs ≡ w x + sum w rest
  unfolding pick
  sum-pick w i [] x rest e = cc
  sum-pick w zero (y ∷ xs) x rest e = ground arith
  sum-pick w (suc i) (y ∷ xs) x rest e = elim (Option-cases (pick i xs)) [
    | inl f ↦ cc
    | inr ((z, zs), f) ↦ let ih = sum-pick w i xs z zs f in ground arith
  ]

  pub length-append : (xs ys : List A) → length (xs ++ ys) ≡ length xs + length ys
  length-append [] ys = omega arith
  length-append (x ∷ xs) ys = omega (arith, length-append xs ys)

  pub any-append_last :
      (p : A → Bool) (xs : List A) (x : A) → any p (xs ++ x ∷ []) ≡ any p xs || p x
  any-append_last p [] x = ground arith
  any-append_last p (y ∷ xs) x = ground (arith, any-append_last p xs x)

module _ {ℓ κ} {A : Type ℓ} where
  abbrev pub All : (A → Type κ) → List A → Type κ
  All P [] = Unit
  All P (x ∷ xs) = P x × All P xs

  pub All-append : (P : A → Type κ) (xs ys : List A) → All P xs → All P ys → All P (xs ++ ys)
  All-append P [] ys h k = k
  All-append P (x ∷ xs) ys (p, h) k = (p, All-append P xs ys h k)

  pub All-mem : {x : A} (P : A → Type κ) (xs : List A) → All P xs → Memᴰ x xs → P x
  All-mem P [] h m = elim m [ ]
  All-mem P (x ∷ xs) (p, h) (Memᴰ.head e) = subst P (sym e) p
  All-mem P (x ∷ xs) (p, h) (Memᴰ.tail m) = All-mem P xs h m

  pub All-imp : (P Q : A → Type κ) (xs : List A) → ((x : A) → P x → Q x) → All P xs → All Q xs
  All-imp P Q [] f h = tt
  All-imp P Q (x ∷ xs) f (p, h) = (f x p, All-imp P Q xs f h)
