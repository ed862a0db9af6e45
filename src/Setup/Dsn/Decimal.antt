-- ===== src/Setup/Dsn/Decimal.antt =====
-- The fuel of `digits` is enough: the decimal of a number is read back as the number.
use Prim.Native.Nat.{◌/◌}
use Prim.Native.Char.{code}
use Prim.Native.String.{[], ◌∷◌}
use text.Mathlib.TextLemmas.{cons-append, nil-append}
use tf_man.Prelude.{
  ℕ, zero, suc, ◌+◌, ◌-◌, ◌*◌, ◌%◌, ◌<◌, String, ◌≡◌, ◌≢◌, sym, ap, ◌∙◌, pos, ltb, ◌+++◌, arith,
  ◌==◌, ==_iff, if◌then◌else◌, Bool-cases, inl, inr,
}
use tf_man.Setup.Dsn.{digit, digits, decimal}

pub read_from : ℕ → String → ℕ
read_from n [] = n
read_from n (c ∷ s) = read_from (n * 10 + (code c - 48)) s

read_from-append : (n : ℕ) (s t : String) → read_from n (s +++ t) ≡ read_from (read_from n s) t
unfolding read_from
read_from-append n [] t = ap (read_from n) (nil-append t)
read_from-append n (c ∷ s) t = rw cons-append (read_from-append (n * 10 + (code c - 48)) s t)

step :
    (n d k : ℕ) (s t : String)
    → read_from n s ≡ n * 10 + k
    → (d ≢ k → read_from n t ≡ n * 10 + d)
    → read_from n (if d == k then s else t) ≡ n * 10 + d
step n d k s t e f = elim (Bool-cases (d == k)) [
  | inl same ↦ rw same (e ∙ ap (λ j. n * 10 + j) (sym ((==_iff d k).0 same)))
  | inr other ↦ rw other (f (λ same. ground arith))
]

read_from-digit : (n d : ℕ) → d < 10 → read_from n (digit d) ≡ n * 10 + d
unfolding read_from digit
read_from-digit n d h = step n d 0 "0" _ (omega arith) (λ n1. step n d 1 "1" _ (omega arith) (λ n2.
    step n d 2 "2" _ (omega arith) (λ n3. step n d 3 "3" _ (omega arith) (λ n4.
      step n d 4 "4" _ (omega arith) (λ n5. step n d 5 "5" _ (omega arith) (λ n6.
        step n d 6 "6" _ (omega arith) (λ n7.
          step n d 7 "7" _ (omega arith)
            (λ n8. step n d 8 "8" _ (omega arith) (λ n9. omega arith)))))))))

read_from-digits : (f n : ℕ) → n < f → read_from 0 (digits f n) ≡ n
unfolding digits
read_from-digits zero n h = absurd (omega arith)
read_from-digits (suc f) n h = elim (Bool-cases (ltb n 10)) [
  | inl small ↦ rw small (read_from-digit 0 n (ground arith) ∙ omega arith)
  | inr large ↦ rw large (
      read_from-append 0 (digits f (n / 10)) (digit (n % 10))
      ∙ read_from-digit _ (n % 10) (omega arith)
      ∙ omega (arith, read_from-digits f (n / 10) (ground arith)))
]

-- `%d` of a number is read back.
pub read_from-decimal : (n : ℕ) → read_from 0 (decimal (pos n)) ≡ n
unfolding decimal
read_from-decimal n = read_from-digits (suc n) n (omega arith)
