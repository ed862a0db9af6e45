-- ===== src/Order/Client.antt =====
-- stampede/apps/order-service/main.go: `inventoryClient`, whose `Reserve` posts a reservation to the
-- inventory service and tries again after a failure that may pass. The HTTP client is `send`, which
-- takes the state of the network and the services behind it; `none` is an error of `client.Do`.
pub mod Once
pub mod Bounds
use tf_man.Prelude.{
  ℕ, zero, suc, ◌+◌, ◌*◌, ◌≡◌, Bool, true, false, not, ◌||◌, Option, none, some, List, [], ◌∷◌,
  ◌==◌, leb, if◌then◌else◌, Bool-cases, inl, inr,
}

pub data ReserveError : Type 0 where
  marshal_failed build_failed unreachable insufficient_stock cancelled : ReserveError
  server_status unexpected_status : ℕ → ReserveError

-- Whether `json.Marshal` and `http.NewRequestWithContext` succeed.
pub data Prepared : Type 0 where
  prepared not_marshalled not_built : Prepared

abbrev pub max_attempts : ℕ
max_attempts = 3

-- Milliseconds.
abbrev pub first_backoff : ℕ
first_backoff = 100

-- What `Reserve` returns, the waits that it sat through, and the network that it leaves.
pub record Outcome (S : Type 0) : Type 0 where
  pub err : Option ReserveError
  pub waits : List ℕ
  pub net : S

module _ {S : Type 0} where
  -- The `switch` on the response: whether to try again, the error, and the network.
  classify : Option ℕ × S → Bool × Option ReserveError × S
  classify (none, s) = (true, some unreachable, s)
  classify (some code, s) =
      if code == 200
      then (false, none, s)
      else if code == 409
      then (false, some insufficient_stock, s)
      else if leb 500 code
      then (true, some (server_status code), s)
      else (false, some (unexpected_status code), s)

module _ {S : Type 0} (ready : Prepared) (send : S → Option ℕ × S) where
  unfoldable pub do_reserve : S → Bool × Option ReserveError × S
  unfolding classify
  do_reserve s = elim ready [
    | prepared ↦ classify (send s)
    | not_marshalled ↦ (false, some marshal_failed, s)
    | not_built ↦ (false, some build_failed, s)
  ]

  -- `is_cancelled n`: the context is done before the wait after attempt n is over.
  module _ (is_cancelled : ℕ → Bool) where
    -- One round after its call: return, or wait and go on with `rest`.
    round : ℕ → ℕ → Bool × Option ReserveError × S → (ReserveError → S → Outcome S) → Outcome S
    round attempt backoff (retryable, none, s) rest = record { err = none; waits = []; net = s }
    round attempt backoff (retryable, some e, s) rest =
        let after = rest e s in
        if not retryable || attempt == max_attempts
        then record { err = some e; waits = []; net = s }
        else if is_cancelled attempt
        then record { err = some cancelled; waits = []; net = s }
        else record after { waits = backoff ∷ after.waits }

    -- The `for` loop, on the number of rounds that its condition still admits.
    reserve_loop : ℕ → ℕ → ℕ → Option ReserveError → S → Outcome S
    unfolding round
    reserve_loop zero attempt backoff last_err s = record { err = last_err; waits = []; net = s }
    reserve_loop (suc left) attempt backoff last_err s =
        round attempt backoff (do_reserve s)
          λ e s'. reserve_loop left (attempt + 1) (backoff * 2) (some e) s'

    unfoldable pub reserve : S → Outcome S
    unfolding reserve_loop
    reserve s = reserve_loop max_attempts 1 first_backoff none s

    -- What holds before a call and after every call holds at the end, and so does what every call
    -- and every cancelled wait grants of the error that is returned.
    module _ (P : S → Type 0) (Q : Option ReserveError → S → Type 0) where
      abbrev Ends : Outcome S → Type 0
      Ends o = P o.net × Q o.err o.net

      module _ (wait : (s : S) → P s → Q (some cancelled) s) where
        round-Ends :
            (attempt backoff : ℕ) (r : Bool × Option ReserveError × S)
            (rest : ReserveError → S → Outcome S)
            → P r.2
            → Q r.1 r.2
            → ((e : ReserveError) (s : S) → P s → Q (some e) s → Ends (rest e s))
            → Ends (round attempt backoff r rest)
        unfolding round
        round-Ends attempt backoff (retryable, none, s) rest p q go = (p, q)
        round-Ends attempt backoff (retryable, some e, s) rest p q go =
            elim (Bool-cases (not retryable || attempt == max_attempts)) [
              | inl stop ↦ rw stop (p, q)
              | inr more ↦ rw more (elim (Bool-cases (is_cancelled attempt)) [
                | inl c ↦ rw c (p, wait s p)
                | inr c ↦ rw c (go e s p q)
              ])
            ]

        module _
            (call : (s : S) → P s → P (do_reserve s).2 × Q (do_reserve s).1 (do_reserve s).2) where
          reserve_loop-Ends :
              (left attempt backoff : ℕ) (last_err : Option ReserveError) (s : S)
              → P s
              → Ends (reserve_loop (suc left) attempt backoff last_err s)
          unfolding reserve_loop
          reserve_loop-Ends zero attempt backoff last_err s p =
              round-Ends attempt backoff (do_reserve s) _ (call s p).0 (call s p).1
                (λ e t pt qt. (pt, qt))
          reserve_loop-Ends (suc left) attempt backoff last_err s p =
              round-Ends attempt backoff (do_reserve s) _ (call s p).0 (call s p).1
                (λ e t pt qt. reserve_loop-Ends left (attempt + 1) (backoff * 2) (some e) t pt)

          pub reserve-Ends : (s : S) → P s → Ends (reserve s)
          unfolding reserve
          reserve-Ends s p = reserve_loop-Ends 2 1 first_backoff none s p
