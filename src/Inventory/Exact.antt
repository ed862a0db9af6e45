-- ===== src/Inventory/Exact.antt =====
-- What a reservation does where a double holds the quantity exactly.
use tf_man.Prelude.{
  ℕ, ◌≡◌, ◌⊎◌, inl, inr, ap, subst, false, some, ℤ, pos, negsuc, ◌-ℤ◌, ◌≤ℤ◌, ◌∙◌, leb, leb_ℤ,
  Bool-cases, arith,
}
use tf_man.Net.{Answer}
use tf_man.Redis.{Redis, or_zero}
use tf_man.Inventory.{State, ReserveRequest, is_bad, reservation_key, stock_key, handle_reserve}
use tf_man.Inventory.Reserve.{Took, Effect, reserve-Effect}

positive : (req : ReserveRequest) → is_bad req ≡ false → leb_ℤ req.quantity (pos 0) ≡ false
positive req h = ground arith

not_below : (q z : ℤ) → leb_ℤ q (pos 0) ≡ false → q ≤ℤ z → z ≤ℤ pos 0 → ⊥
not_below (pos n) (pos m) h k l = ground arith
not_below (pos n) (negsuc m) h k l = ground arith
not_below (negsuc n) z h k l = ground arith

above : (q : ℤ) (m : ℕ) → q ≤ℤ pos 9007199254740992 → leb m 9007199254740992 ≡ false → q ≤ℤ pos m
above (pos n) m h k = ground arith
above (negsuc n) m h k = ground arith

module _ (redis : Redis) where
  open redis use {Db, value, to_number, to_number_exact, to_number_mono}

  exact : (q : ℤ) → leb_ℤ q (pos 0) ≡ false → q ≤ℤ pos 9007199254740992 → to_number q ≡ q
  exact (pos n) h fits = to_number_exact n (ground arith)
  exact (negsuc n) h fits = absurd (ground arith)

  enough_exact :
      (q stock : ℤ)
      → leb_ℤ q (pos 0) ≡ false
      → q ≤ℤ pos 9007199254740992
      → q ≤ℤ to_number stock
      → q ≤ℤ stock
  enough_exact q (pos m) h fits k = elim (Bool-cases (leb m 9007199254740992)) [
    | inl small ↦ subst (λ z. q ≤ℤ z) (to_number_exact m (ground arith)) k
    | inr large ↦ above q m fits large
  ]
  enough_exact q (negsuc m) h fits k = absurd (
      not_below q (to_number (negsuc m)) h k (
        subst (λ z. to_number (negsuc m) ≤ℤ z) (to_number_exact 0 (omega arith))
          (to_number_mono (negsuc m) (pos 0) (ground arith))))

  -- The stock had the quantity and lost it, and the reservation holds it.
  pub record Exactly (req : ReserveRequest) (s t : State Db) : Type 0 where
    pub enough : req.quantity ≤ℤ or_zero (value (stock_key req.item_id) s.db)
    pub stock :
        value (stock_key req.item_id) t.db
        ≡ some (or_zero (value (stock_key req.item_id) s.db) -ℤ req.quantity)
    pub reserved : value (reservation_key req.order_id) t.db ≡ some req.quantity

  pub Took-Exactly :
      (req : ReserveRequest) (s t : State Db)
      → is_bad req ≡ false
      → req.quantity ≤ℤ pos 9007199254740992
      → Took redis req s t
      → Exactly req s t
  Took-Exactly req s t valid fits took =
      let many = positive req valid in
      let same = exact req.quantity many fits in
      record {
        enough =
            enough_exact req.quantity (or_zero (value (stock_key req.item_id) s.db)) many fits (
              subst (λ z. z ≤ℤ to_number (or_zero (value (stock_key req.item_id) s.db))) same
                took.enough);
        stock =
            took.stock ∙ ap (λ z. some (or_zero (value (stock_key req.item_id) s.db) -ℤ z)) same;
        reserved = took.reserved ∙ ap some same;
      }

  -- A valid request for at most 2 ^ 53 either changes nothing or makes exactly one reservation,
  -- whatever becomes of the call: the stock had the quantity and loses it, the reservation holds it,
  -- and no other key changes. 200 means that the order has a reservation, and 409 that it has none and
  -- the stock is too low, compared as doubles, with nothing changed.
  pub handle_reserve_exact :
      (answer : Answer) (req : ReserveRequest) (s : State Db)
      → is_bad req ≡ false
      → req.quantity ≤ℤ pos 9007199254740992
      → let (r, t) = handle_reserve redis answer (some req) s in
        Effect redis req s r t × ((t ≡ s) ⊎ Exactly req s t)
  handle_reserve_exact answer req s valid fits =
      let effect = reserve-Effect redis answer req s valid in
      (
        effect,
        elim effect.change [
          | inl e ↦ inl e
          | inr took ↦ inr (Took-Exactly req s _ valid fits took)
        ],
      )
