-- ===== src/Setup/Dsn/Cut.antt =====
-- A password with a character that ends the authority of a URL: `/`, `?` or `#`, by RFC 3986, 3.2.
use Prim.Native.Char.{Char, code}
use Prim.Native.String.{[], ◌∷◌}
use text.Mathlib.TextLemmas.{append_assoc}
use tf_man.Prelude.{
  ℕ, String, Bool, true, false, ◌||◌, ◌==◌, ◌≡◌, refl, ap, ◌∙◌, ◌+++◌, until, Free, Free-append,
  Free-weaken, until_stop, arith,
}
use tf_man.Setup.Dsn.{DbCredentials, decimal, dsn}

abbrev pub is_end : ℕ → Bool
is_end n = n == b'/' || n == b'?' || n == b'#'

abbrev pub is_at : ℕ → Bool
is_at n = n == b'@'

abbrev pub ends_part : ℕ → Bool
ends_part n = is_end n || is_at n

-- The authority in what follows `postgres://`.
abbrev pub authority : String → String
authority body = (until is_end body).0

parts_apart : (n : ℕ) → ends_part n ≡ false → (is_end n ≡ false) × (is_at n ≡ false)
parts_apart n h = ground arith

Free-two :
    (stops : ℕ → Bool) (s : String) (c : Char) (t : String)
    → Free stops s
    → stops (code c) ≡ false
    → Free stops t
    → Free stops (s +++ ((c ∷ []) +++ t))
Free-two stops s c t h e k = Free-append stops s _ h (Free-append stops (c ∷ []) t (e, tt) k)

-- Where the password of a secret holds a slash, a question mark or a number sign, and neither the name
-- of the user nor the password up to there holds one of these or an `@`, the authority of the
-- connection URL is the name of the user, a colon and the front of the password, with no `@` in it.
pub authority-dsn :
    (c : DbCredentials) (query front back : String) (x : Char)
    → c.password ≡ front +++ ((x ∷ []) +++ back)
    → Free ends_part c.username
    → Free ends_part front
    → is_end (code x) ≡ true
    → (body : String) × (dsn c query ≡ "postgres://" +++ body)
      × (authority body ≡ c.username +++ (":" +++ front))
      × Free is_at (authority body)
authority-dsn c query front back x p h k e =
    let tail =
      "@"
      +++ (c.host +++ (":" +++ (decimal c.port +++ ("/" +++ (c.db_name +++ ("?" +++ query)))))) in
    let name = c.username +++ (":" +++ front) in
    let free : Free is_end name =
      Free-two is_end c.username ":" front
        (Free-weaken is_end ends_part c.username (λ n f. (parts_apart n f).0) h) refl
        (Free-weaken is_end ends_part front (λ n f. (parts_apart n f).0) k) in
    let no_at : Free is_at name =
      Free-two is_at c.username ":" front
        (Free-weaken is_at ends_part c.username (λ n f. (parts_apart n f).1) h) refl
        (Free-weaken is_at ends_part front (λ n f. (parts_apart n f).1) k) in
    let cut : authority (name +++ ((x ∷ []) +++ (back +++ tail))) ≡ name =
      ap (λ (r : String × String). r.0) (until_stop is_end name x (back +++ tail) free e) in
    (
      name +++ ((x ∷ []) +++ (back +++ tail)),
      ap (λ s. "postgres://" +++ (c.username +++ (":" +++ (s +++ tail)))) p ∙ simp append_assoc,
      cut,
      rw cut no_at,
    )
