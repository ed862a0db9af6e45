-- ===== src/Prelude/Texts.antt =====
-- Texts without a prefix, and texts that are split at the first character of a kind.
use Prim.Native.Nat.{ℕ}
use Prim.Native.Char.{Char, code}
use Prim.Native.String.{String, [], ◌∷◌, ◌++◌}
use mathlib.Core.Path.{◌≡◌, refl, ap, ◌∙◌}
use mathlib.Core.Bool.{Bool, true, false}
use mathlib.Core.Option.{Option, none, some}
use text.Mathlib.TextLemmas.{cons-append, nil-append}
use tf_man.Prelude.Tests.{◌==◌, ==_self, if◌then◌else◌}

-- `strings.TrimPrefix`, with `none` where the text has no such prefix.
unfoldable pub strip : String → String → Option String
strip [] s = some s
strip (c ∷ p) [] = none
strip (c ∷ p) (d ∷ s) = if code c == code d then strip p s else none

pub strip-append : (p s : String) → strip p (p ++ s) ≡ some s
unfolding strip
strip-append [] s = ap some (nil-append s)
strip-append (c ∷ p) s = rw (cons-append, strip) (rw (==_self (code c)) (strip-append p s))

-- The text before the first character that is tested true, and the text from it on.
unfoldable pub until : (ℕ → Bool) → String → String × String
until stops [] = ([], [])
until stops (c ∷ s) =
    let rest = until stops s in if stops (code c) then ([], c ∷ s) else (c ∷ rest.0, rest.1)

-- No character is tested true.
abbrev pub Free : (ℕ → Bool) → String → Type 0
Free stops [] = Unit
Free stops (c ∷ s) = (stops (code c) ≡ false) × Free stops s

pub Free-append :
    (stops : ℕ → Bool) (s t : String) → Free stops s → Free stops t → Free stops (s ++ t)
Free-append stops [] t h k = rw (nil-append t) k
Free-append stops (c ∷ s) t (e, h) k = rw cons-append (e, Free-append stops s t h k)

pub Free-weaken :
    (stops more : ℕ → Bool) (s : String)
    → ((n : ℕ) → more n ≡ false → stops n ≡ false)
    → Free more s
    → Free stops s
Free-weaken stops more [] w h = tt
Free-weaken stops more (c ∷ s) w (e, h) = (w (code c) e, Free-weaken stops more s w h)

pub single-append : (c : Char) (t : String) → (c ∷ []) ++ t ≡ c ∷ t
single-append c t = cons-append c [] t ∙ ap (λ u. c ∷ u) (nil-append t)

-- The text from a character on that is tested true.
pub until_stop :
    (stops : ℕ → Bool) (s : String) (c : Char) (t : String)
    → Free stops s
    → stops (code c) ≡ true
    → until stops (s ++ ((c ∷ []) ++ t)) ≡ (s, c ∷ t)
unfolding until
until_stop stops [] c t h e = rw (nil-append, single-append, until, e) refl
until_stop stops (d ∷ s) c t (f, h) e =
    rw (cons-append d s, until, f)
      (ap (λ (r : String × String). (d ∷ r.0, r.1)) (until_stop stops s c t h e))

pub until_all : (stops : ℕ → Bool) (s : String) → Free stops s → until stops s ≡ (s, [])
unfolding until
until_all stops [] h = refl
until_all stops (d ∷ s) (f, h) =
    rw f (ap (λ (r : String × String). (d ∷ r.0, r.1)) (until_all stops s h))
