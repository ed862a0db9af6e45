-- ===== src/Order/Client/Bounds.antt =====
-- How often `Reserve` calls, and how long it waits.
use tf_man.Prelude.{
  ℕ, zero, suc, ◌+◌, ◌≤◌, ◌≡◌, inl, inr, refl, Bool, true, false, Option, none, some, List, [], ◌∷◌,
  ◌==◌, length, Bool-cases, arith, ap, leb, take, ◌∙◌,
}
use tf_man.Order.Client.{
  ReserveError, prepared, classify, do_reserve, Outcome, round, reserve_loop, reserve, max_attempts,
}

module _ {S : Type 0} where
  classify-net : (r : Option ℕ × S) → (classify r).2 ≡ r.1
  unfolding classify
  classify-net (none, s) = refl
  classify-net (some code, s) = elim (Bool-cases (code == 200)) [
    | inl e ↦ rw e
    | inr e ↦ rw e (elim (Bool-cases (code == 409)) [
      | inl f ↦ rw f
      | inr f ↦ rw f (elim (Bool-cases (leb 500 code)) [ inl g ↦ rw g | inr g ↦ rw g ])
    ])
  ]

module _ {S : Type 0} (send : S → Option ℕ × S) where
  -- The network with a counter of the calls.
  pub count_calls : S × ℕ → Option ℕ × (S × ℕ)
  count_calls (s, n) = let (answer, t) = send s in (answer, (t, suc n))

  module _ (is_cancelled : ℕ → Bool) where
    abbrev loop : ℕ → ℕ → ℕ → Option ReserveError → S × ℕ → Outcome (S × ℕ)
    loop = reserve_loop prepared count_calls is_cancelled

    -- From `n` calls on, one call more than waits, and the waits are the first of `backoffs`.
    abbrev pub Spent : ℕ → List ℕ → Outcome (S × ℕ) → Type 0
    Spent n backoffs o =
        (o.net.1 ≡ n + 1 + length o.waits) × (o.waits ≡ take (length o.waits) backoffs)

    abbrev next :
        ℕ
        → ℕ
        → Bool × Option ReserveError × (S × ℕ)
        → (ReserveError → S × ℕ → Outcome (S × ℕ))
        → Outcome (S × ℕ)
    next = round prepared count_calls is_cancelled

    last-Spent :
        (backoff n : ℕ) (r : Bool × Option ReserveError × (S × ℕ))
        (rest : ReserveError → S × ℕ → Outcome (S × ℕ))
        → r.2.1 ≡ n + 1
        → Spent n [] (next max_attempts backoff r rest)
    unfolding round
    last-Spent backoff n (retryable, none, s) rest one = (omega arith, refl)
    last-Spent backoff n (true, some e, s) rest one = (omega arith, refl)
    last-Spent backoff n (false, some e, s) rest one = (omega arith, refl)

    round-Spent :
        (attempt backoff n : ℕ) (backoffs : List ℕ) (r : Bool × Option ReserveError × (S × ℕ))
        (rest : ReserveError → S × ℕ → Outcome (S × ℕ))
        → r.2.1 ≡ n + 1
        → ((e : ReserveError) → Spent (n + 1) backoffs (rest e r.2))
        → Spent n (backoff ∷ backoffs) (next attempt backoff r rest)
    unfolding round
    round-Spent attempt backoff n backoffs (retryable, none, s) rest one more = (omega arith, refl)
    round-Spent attempt backoff n backoffs (retryable, some e, s) rest one more =
        (ground (arith, more e), ground (arith, more e))

    do_reserve-one : (x : S × ℕ) (n : ℕ) → x.1 ≡ n → (do_reserve prepared count_calls x).2.1 ≡ n + 1
    unfolding do_reserve count_calls
    do_reserve-one (s, m) n e =
        ap (λ (y : S × ℕ). y.1) (classify-net ((send s).0, ((send s).1, suc m))) ∙ omega arith

    loop-Spent_1 :
        (x : S × ℕ) (n : ℕ) (e : ReserveError) → x.1 ≡ n → Spent n [] (loop 1 3 400 (some e) x)
    unfolding reserve_loop
    loop-Spent_1 x n e h = last-Spent 400 n _ _ (do_reserve-one x n h)

    loop-Spent_2 :
        (x : S × ℕ) (n : ℕ) (e : ReserveError)
        → x.1 ≡ n
        → Spent n (200 ∷ []) (loop 2 2 200 (some e) x)
    unfolding reserve_loop
    loop-Spent_2 x n e h =
        let one = do_reserve-one x n h in
        round-Spent 2 200 n [] _ _ one λ f. loop-Spent_1 _ (n + 1) f one

    reserve-Spent :
        (s : S) (n : ℕ)
        → Spent n (100 ∷ 200 ∷ []) (reserve prepared count_calls is_cancelled (s, n))
    unfolding reserve
    reserve-Spent s n =
        let one = do_reserve-one (s, n) n refl in
        round-Spent 1 100 n (200 ∷ []) _ _ one λ f. loop-Spent_2 _ (n + 1) f one

    length-take_le : (k : ℕ) (xs : List ℕ) → length (take k xs) ≤ length xs
    length-take_le zero xs = omega arith
    length-take_le (suc k) [] = omega arith
    length-take_le (suc k) (x ∷ xs) = omega (arith, length-take_le k xs)

    -- With a request that can be built, `Reserve` makes at least one call and at most three, one more than it waits, and it waits for
    -- 100 ms and then for 200 ms: a limit on the calls and on the time lost, whatever the answers.
    pub reserve_spends :
        (s : S) (n : ℕ)
        → let o = reserve prepared count_calls is_cancelled (s, n) in
          Spent n (100 ∷ 200 ∷ []) o × (o.net.1 ≤ n + 3)
    reserve_spends s n =
        let h = reserve-Spent s n in
        let o = reserve prepared count_calls is_cancelled (s, n) in
        (
          h,
          omega (
            arith,
            h.0,
            ap (λ (w : List ℕ). length w) h.1,
            length-take_le (length o.waits) (100 ∷ 200 ∷ []),
          ),
        )
