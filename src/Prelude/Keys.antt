-- ===== src/Prelude/Keys.antt =====
-- Texts with a fixed prefix, such as the keys that the services use in Redis.
use Prim.Native.Nat.{ℕ}
use Prim.Native.Char.{Char, code}
use Prim.Native.String.{String, [], ◌∷◌, ◌++◌}
use mathlib.Core.Path.{◌≡◌, refl, sym, ap, ◌∙◌}
use mathlib.Core.Logic.{◌≢◌}
use mathlib.Core.Bool.{Bool, true, false}
use native.Mathlib.Omega.{arith}
use text.Mathlib.Text.{◌==◌}
use text.Mathlib.TextEquality.{eq_iff}
use text.Mathlib.TextLemmas.{append_assoc, cons-append, append_cancel_left}

infixl 65 ◌+++◌
-- Go's `+` on strings.
abbrev pub ◌+++◌ : String → String → String
s +++ t = s ++ t

head_code : String → ℕ
head_code [] = 0
head_code (c ∷ s) = code c

head_code-append : (c : Char) (s t : String) → head_code ((c ∷ s) ++ t) ≡ code c
unfolding head_code
head_code-append c s t = rw cons-append

pub append_ne :
    (c d : Char) (s t u v : String) → code c ≢ code d → (((c ∷ s) ++ t) == ((d ∷ u) ++ v)) ≡ false
append_ne c d s t u v h = go _ refl
  where
    go : (b : Bool) → (((c ∷ s) ++ t) == ((d ∷ u) ++ v)) ≡ b → b ≡ false
    go false e = refl
    go true e = absurd (
        h (sym (head_code-append c s t) ∙ ap head_code ((eq_iff _ _).0 e) ∙ head_code-append d u v))

pub append_eq : (s t u : String) → ((s ++ t) == (s ++ u)) ≡ (t == u)
append_eq s t u = ground (
  arith,
  eq_iff t u,
  eq_iff (s ++ t) (s ++ u),
  λ (e : s ++ t ≡ s ++ u). append_cancel_left s t u e,
  λ (e : t ≡ u). ap (λ w. s ++ w) e,
)

pub append_ne_after :
    (p : String) (c d : Char) (s t u v : String)
    → code c ≢ code d
    → (((p ++ (c ∷ s)) ++ t) == ((p ++ (d ∷ u)) ++ v)) ≡ false
append_ne_after p c d s t u v h =
    rw (append_assoc p (c ∷ s) t, append_assoc p (d ∷ u) v)
      (append_eq p ((c ∷ s) ++ t) ((d ∷ u) ++ v) ∙ append_ne c d s t u v h)
