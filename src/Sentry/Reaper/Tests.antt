-- ===== src/Sentry/Reaper/Tests.antt =====
-- A clock that writes seconds as letters, and sweeps by it.
use Prim.Native.Char.{code}
use Prim.Native.String.{String, [], ◌∷◌}
use Prim.Native.Nat.{◌/◌}
use tf_man.Prelude.{
  ℕ, zero, suc, ◌+◌, ◌*◌, ◌<◌, ◌^◌, ◌≡◌, refl, ap, Bool, true, false, Option, none, some, List, All,
  ℤ, pos, negsuc, ◌+ℤ◌, ◌≤ℤ◌, int_laws, ◌==◌, arith,
}
use tf_man.Sentry.Reaper
use tf_man.Sentry.Reaper.{Clock, Volume, eip, flag, delete, flag_tag_key, find_flag_tag}
use tf_man.Sentry.Reaper.Grace.{IsJustified, handler_waits}

-- Seconds, one letter for each, after the sign.
tally : ℕ → String
tally zero = []
tally (suc n) = "s" ∷ tally n

count : String → ℕ
count [] = 0
count (_ ∷ s) = suc (count s)

count-tally : (n : ℕ) → count (tally n) ≡ n
unfolding count tally
count-tally zero = refl
count-tally (suc n) = ap (λ k. suc k) (count-tally n)

format : ℤ → String
format (pos n) = "+" ∷ tally (n / 1000000000)
format (negsuc n) = "-" ∷ tally (n / 1000000000)

seconds : Bool → ℕ → ℤ
seconds true k = pos (k * 1000000000)
seconds false k = negsuc (k * 1000000000 + 999999999)

parse : String → Option ℤ
parse [] = none
parse (c ∷ s) = some (seconds (code c == b'+') (count s))

round_trip : (t : ℤ) → (u : ℤ) × (parse (format t) ≡ some u) × (u ≤ℤ t) × (t ≤ℤ u +ℤ pos 999999999)
unfolding parse format seconds
round_trip (pos n) = (
  pos (n / 1000000000 * 1000000000),
  rw (count-tally (n / 1000000000)) refl,
  omega arith,
  omega int_laws,
)
round_trip (negsuc n) = (
  negsuc (n / 1000000000 * 1000000000 + 999999999),
  rw (count-tally (n / 1000000000)) refl,
  omega arith,
  omega int_laws,
)

abbrev clock : Clock
clock = record { format = format; parse = parse; round_trip = round_trip }

abbrev old : Volume
old = record { id = "vol-1"; tags = List.◌∷◌ ("sentry-flagged-at", "+") List.[] }

-- One hour, and two hours after the flag's time.
abbrev sweeping : Reaper.Env
sweeping = record {
  topic_arn = "";
  grace_seconds = some (pos 3600);
  loads = true;
  now = λ _. pos 7200000000000;
  deletes = λ _. true;
  volumes = some (List.◌∷◌ old List.[]);
  addresses = none;
}

in_range : 1000000000 * 3600 < 2 ^ 63
in_range = omega arith

handler_waits_example :
    All (IsJustified clock sweeping (1000000000 * 3600) in_range) (Reaper.handler clock sweeping).1
handler_waits_example = handler_waits clock sweeping 3600 in_range refl
