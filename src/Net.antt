-- ===== src/Net.antt =====
-- What every handler meets: calls of other systems, and replies to HTTP requests.
use Prim.Native.Nat.{ℕ}
use Prim.Native.String.{String}
use mathlib.Core.Path.{◌≡◌, refl}
use mathlib.Core.Logic.{◌⊎◌, inl, inr}
use mathlib.Core.Bool.{Bool, true, false}

-- How a call of a service outside the program ends for its caller. `lost`: the service carried the
-- call out, and the caller got an error all the same (a timeout, a broken connection).
pub data Answer : Type 0 where
  done refused lost : Answer

-- the caller got `err == nil`
abbrev pub succeeded : Answer → Bool
succeeded done = true
succeeded _ = false

-- the service carried the call out
abbrev pub applied : Answer → Bool
applied refused = false
applied _ = true

pub Answer-cases : (a : Answer) → (a ≡ done) ⊎ ((a ≡ refused) ⊎ (a ≡ lost))
Answer-cases done = inl refl
Answer-cases refused = inr (inl refl)
Answer-cases lost = inr (inr refl)

pub Answer-discrete : Discrete Answer
Answer-discrete = hlevel

-- `http.Error(w, message, status)`, a bare `w.WriteHeader(status)`, or a JSON body.
pub data Reply {ℓ} (A : Type ℓ) : Type ℓ where
  error : ℕ → String → Reply A
  bare : ℕ → Reply A
  json : ℕ → A → Reply A

abbrev pub status {ℓ} : {A : Type ℓ} → Reply A → ℕ
status (error code _) = code
status (bare code) = code
status (json code _) = code
