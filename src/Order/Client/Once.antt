-- ===== src/Order/Client/Once.antt =====
-- The retry loop of the order service against the inventory service, over a network that may lose
-- requests and responses.
use tf_man.Prelude.{
  pos, ◌≤ℤ◌, ℕ, ◌+◌, ◌≡◌, ◌≢◌, ◌⊎◌, inl, inr, refl, ◌∙◌, Bool, false, Option, none, some, ◌==◌, leb,
  Bool-cases, arith, is_some_of_ne-none, some-ne-none,
}
use tf_man.Net.{Answer, status}
use tf_man.Redis.{Redis}
use tf_man.Inventory.{State, ReserveRequest, is_bad, reservation_key, handle_reserve}
use tf_man.Inventory.Exact.{Exactly, Took-Exactly}
use tf_man.Inventory.Reserve.{Took, reserve-Effect, reserve_reply_known}
use tf_man.Order.Client.{
  ReserveError, insufficient_stock, Prepared, prepared, not_marshalled, not_built, classify,
  do_reserve, reserve, reserve-Ends,
}

-- What becomes of one HTTP call, and of the Redis call that it leads to.
pub data Link : Type 0 where
  request_lost : Link
  reply_lost delivered : Answer → Link

module _ (redis : Redis) (req : ReserveRequest) (link : ℕ → Link) where
  open redis use {Db, value}

  carry : Link → State Db → Option ℕ × State Db
  carry request_lost inv = (none, inv)
  carry (reply_lost a) inv = (none, (handle_reserve redis a (some req) inv).1)
  carry (delivered a) inv =
      let (r, t) = handle_reserve redis a (some req) inv in (some (status r), t)

  -- The n-th call meets `link n`.
  unfoldable pub post : State Db × ℕ → Option ℕ × (State Db × ℕ)
  unfolding carry
  post (inv, n) = let (answer, t) = carry (link n) inv in (answer, (t, n + 1))

  module _ (start : State Db) (valid : is_bad req ≡ false) where
    -- Nothing was taken, or one reservation was.
    abbrev pub AtMostOnce : State Db → Type 0
    AtMostOnce inv = (inv ≡ start) ⊎ Took redis req start inv

    deliver-AtMostOnce :
        (a : Answer) (inv : State Db)
        → AtMostOnce inv
        → AtMostOnce (handle_reserve redis a (some req) inv).1
    deliver-AtMostOnce a inv (inl e) = rw e ((reserve-Effect redis a req start valid).change)
    deliver-AtMostOnce a inv (inr t) =
        rw
          ((reserve_reply_known redis req inv a
            (is_some_of_ne-none _ (some-ne-none (redis.to_number req.quantity) t.reserved))
            valid).0)
          (inr t)

    conflict_keeps :
        (a : Answer) (inv : State Db)
        → AtMostOnce inv
        → status (handle_reserve redis a (some req) inv).0 ≡ 409
        → (handle_reserve redis a (some req) inv).1 ≡ start
    conflict_keeps a inv (inl e) h = ((reserve-Effect redis a req inv valid).conflict_means h).0 ∙ e
    conflict_keeps a inv (inr t) h = absurd (
        some-ne-none (redis.to_number req.quantity) t.reserved
          ((reserve-Effect redis a req inv valid).conflict_means h).1)

    -- What the error that `Reserve` returns says of the inventory.
    abbrev pub Means : Option ReserveError → State Db → Type 0
    Means none inv = value (reservation_key req.order_id) inv.db ≢ none
    Means (some insufficient_stock) inv = inv ≡ start
    Means (some _) inv = Unit {0}

    abbrev P : State Db × ℕ → Type 0
    P x = AtMostOnce x.0

    abbrev Q : Option ReserveError → State Db × ℕ → Type 0
    Q err x = Means err x.0

    abbrev Called : Bool × Option ReserveError × (State Db × ℕ) → Type 0
    Called r = P r.2 × Q r.1 r.2

    -- A response with its status.
    classify-Called :
        (code : ℕ) (x : State Db × ℕ)
        → P x
        → (code ≡ 200 → value (reservation_key req.order_id) x.0.db ≢ none)
        → (code ≡ 409 → x.0 ≡ start)
        → Called (classify (some code, x))
    unfolding classify
    classify-Called code x p ok conflict = elim (Bool-cases (code == 200)) [
      | inl e ↦ rw e (p, ok (ground arith))
      | inr e ↦ rw e (elim (Bool-cases (code == 409)) [
        | inl f ↦ rw f (p, conflict (ground arith))
        | inr f ↦
            rw f (elim (Bool-cases (leb 500 code)) [ inl g ↦ rw g (p, tt) | inr g ↦ rw g (p, tt) ])
      ])
    ]

    carry-Called :
        (l : Link) (inv : State Db) (n : ℕ)
        → AtMostOnce inv
        → Called (classify ((carry l inv).0, ((carry l inv).1, n)))
    unfolding carry
    carry-Called request_lost inv n h = unfold classify in (h, tt)
    carry-Called (reply_lost a) inv n h = unfold classify in (deliver-AtMostOnce a inv h, tt)
    carry-Called (delivered a) inv n h =
        let (r, t) = handle_reserve redis a (some req) inv in
        classify-Called (status r) (t, n) (deliver-AtMostOnce a inv h)
          ((reserve-Effect redis a req inv valid).ok_means) (conflict_keeps a inv h)

    call-Called : (ready : Prepared) (x : State Db × ℕ) → P x → Called (do_reserve ready post x)
    unfolding do_reserve post
    call-Called not_marshalled x h = (h, tt)
    call-Called not_built x h = (h, tt)
    call-Called prepared (inv, n) h = carry-Called (link n) inv (n + 1) h

    -- `Reserve` of a valid request against the inventory service, whatever the network and Redis do to
    -- each attempt: all attempts together take the double of the quantity from the stock at most once,
    -- and only where the stock, as a double, is no less; `nil` means that the order has a reservation, and
    -- `ErrInsufficientStock` that the inventory is as it was before the first attempt.
    pub reserve_once :
        (ready : Prepared) (is_cancelled : ℕ → Bool) (n : ℕ)
        → let o = reserve ready post is_cancelled (start, n) in
          AtMostOnce o.net.0 × Means o.err o.net.0
    reserve_once ready is_cancelled n =
        reserve-Ends ready post is_cancelled P Q (λ x h. tt) (call-Called ready) (start, n)
          (inl refl)

    -- `Reserve` of a valid request for at most 2 ^ 53 against the inventory service, whatever the
    -- network and Redis do to each attempt: all attempts together leave the inventory as it was, or take
    -- the quantity once, from a stock that had it, with a reservation that holds it; `nil` means that the
    -- order has a reservation, and `ErrInsufficientStock` that the inventory is as it was before the
    -- first attempt.
    pub reserve_once_exact :
        (ready : Prepared) (is_cancelled : ℕ → Bool) (n : ℕ)
        → req.quantity ≤ℤ pos 9007199254740992
        → let o = reserve ready post is_cancelled (start, n) in
          ((o.net.0 ≡ start) ⊎ Exactly redis req start o.net.0)
          × AtMostOnce o.net.0
          × Means o.err o.net.0
    reserve_once_exact ready is_cancelled n fits =
        let (once, means) = reserve_once ready is_cancelled n in
        (
          elim once [
            | inl e ↦ inl e
            | inr took ↦ inr (Took-Exactly redis req start _ valid fits took)
          ],
          once,
          means,
        )
