-- ===== src/Inventory/Stock.antt =====
-- Stock over a run of requests: it is never negative, and never oversold.
use tf_man.Prelude.{
  String, ◌≡◌, negsuc, All, sym, subst, false, inl, inr, refl, ap, true, false, Option, none, some,
  List, [], ◌∷◌, ℤ, pos, Bool, ◌+ℤ◌, ◌-ℤ◌, ◌≤ℤ◌, ◌&&◌, not, str_eq, str_eq_iff, is_some, Bool-cases,
  arith, int_laws, +ℤ_regroup, le_of_sum, ◌∙◌, if◌then◌else◌,
}
use tf_man.Net.{Answer, done, refused, lost}
use tf_man.Redis.{Redis, or_zero}
use tf_man.Inventory.{
  State, ReserveRequest, is_bad, reservation_key, stock_key, stock_key_eq, reservation_ne_stock,
  handle_reserve, handle_set_stock,
}
use tf_man.Inventory.Reserve.{Took, reserve-Effect}

module _ (redis : Redis) where
  open redis use {Db, value, value-set, to_number, to_number_exact, to_number_mono}

  -- The stock of an item, a missing key being zero.
  abbrev pub available : String → State Db → ℤ
  available i s = or_zero (value (stock_key i) s.db)

  -- A request of either kind, with what becomes of its call.
  pub data Op : Type 0 where
    reserve : Answer → Option ReserveRequest → Op
    set_stock : Answer → String → Option ℤ → Op

  abbrev pub step : Op → State Db → State Db
  step (reserve answer req) s = (handle_reserve redis answer req s).1
  step (set_stock answer item_id quantity) s = (handle_set_stock redis answer item_id quantity s).1

  abbrev pub run : List Op → State Db → State Db
  run [] s = s
  run (op ∷ ops) s = run ops (step op s)

  -- A count that a double holds exactly.
  abbrev pub IsCount : ℤ → Type 0
  IsCount n = (pos 0 ≤ℤ n) × (n ≤ℤ pos 9007199254740992)

  abbrev pub IsStocked : State Db → Type 0
  IsStocked s = (i : String) → IsCount (available i s)

  exact : (n : ℤ) → IsCount n → to_number n ≡ n
  exact (pos n) (low, high) = to_number_exact n (omega arith)
  exact (negsuc n) (low, high) = absurd (omega arith)

  not_negative : (n : ℤ) → pos 0 ≤ℤ n → pos 0 ≤ℤ to_number n
  not_negative n h =
      subst (λ (z : ℤ). z ≤ℤ to_number n) (to_number_exact 0 (omega arith))
        (to_number_mono (pos 0) n h)

  quantity_positive : (req : ReserveRequest) → is_bad req ≡ false → pos 0 ≤ℤ req.quantity
  quantity_positive req h = ground arith

  bad_keeps :
      (answer : Answer) (req : ReserveRequest) (s : State Db)
      → is_bad req ≡ true
      → (handle_reserve redis answer (some req) s).1 ≡ s
  unfolding handle_reserve
  bad_keeps answer req s h = rw h

  -- Another item keeps its stock, the item of the request loses the quantity.
  available-Took_ne :
      {req : ReserveRequest} {s t : State Db} (i : String)
      → Took redis req s t
      → str_eq req.item_id i ≡ false
      → available i t ≡ available i s
  available-Took_ne {req} i k e =
      ap or_zero (k.others (stock_key i) (rw stock_key_eq e) (reservation_ne_stock req.order_id i))

  available-Took_self :
      {req : ReserveRequest} {s t : State Db} (i : String)
      → Took redis req s t
      → str_eq req.item_id i ≡ true
      → (available i t ≡ available i s -ℤ to_number req.quantity)
        × (to_number req.quantity ≤ℤ to_number (available i s))
  available-Took_self {req} i k e =
      rw (← (str_eq_iff req.item_id i).0 e) (ap or_zero k.stock, k.enough)

  Took-IsStocked :
      {req : ReserveRequest} {s t : State Db}
      → is_bad req ≡ false
      → Took redis req s t
      → IsStocked s
      → IsStocked t
  Took-IsStocked {req} {s} good k h i = elim (Bool-cases (str_eq req.item_id i)) [
    | inl e ↦
        let (now, enough) = available-Took_self i k e in
        let least = not_negative req.quantity (quantity_positive req good) in
        let (low, high) = h i in
        let fits : to_number req.quantity ≤ℤ available i s =
          subst (λ (z : ℤ). to_number req.quantity ≤ℤ z) (exact (available i s) (h i)) enough in
        subst IsCount (sym now) (omega (int_laws, fits), omega (int_laws, least))
    | inr e ↦ subst IsCount (sym (available-Took_ne i k e)) (h i)
  ]

  reserve-IsStocked :
      (answer : Answer) (req : Option ReserveRequest) (s : State Db)
      → IsStocked s
      → IsStocked (handle_reserve redis answer req s).1
  unfolding handle_reserve
  reserve-IsStocked answer none s h = h
  reserve-IsStocked answer (some req) s h = elim (Bool-cases (is_bad req)) [
    | inl bad ↦ rw bad h
    | inr good ↦ elim (reserve-Effect redis answer req s good).change [
      | inl e ↦ λ i. subst IsCount (sym (ap (available i) e)) (h i)
      | inr k ↦ Took-IsStocked good k h
    ]
  ]

  available-set :
      (i j : String) (q : ℤ) (s : State Db)
      → available i (record s { db = redis.set (stock_key j) q none s.db })
        ≡ (if str_eq j i then q else available i s)
  available-set i j q s = simp (value-set, stock_key_eq) (ground arith)

  -- A count that is asked for is no larger than the largest that doubles hold exactly.
  abbrev pub Fits : Option ℤ → Type 0
  Fits none = Unit
  Fits (some q) = q ≤ℤ pos 9007199254740992

  abbrev pub FitsOp : Op → Type 0
  FitsOp (reserve answer req) = Unit
  FitsOp (set_stock answer item_id quantity) = Fits quantity

  set_stock-IsStocked :
      (answer : Answer) (item_id : String) (quantity : Option ℤ) (s : State Db)
      → IsStocked s
      → Fits quantity
      → IsStocked (handle_set_stock redis answer item_id quantity s).1
  unfolding handle_set_stock
  set_stock-IsStocked answer item_id none s h f i = h i
  set_stock-IsStocked done item_id (some q) s h f i =
      ground (arith, h i, available-set i item_id q s)
  set_stock-IsStocked refused item_id (some q) s h f i = ground (arith, h i)
  set_stock-IsStocked lost item_id (some q) s h f i =
      ground (arith, h i, available-set i item_id q s)

  -- From a stock of counts between 0 and 2 ^ 53, whatever requests arrive, as long as none sets a count
  -- above 2 ^ 53, and however their calls end, no item's stock is ever negative, or above 2 ^ 53.
  pub run-IsStocked :
      (ops : List Op) (s : State Db) → All FitsOp ops → IsStocked s → IsStocked (run ops s)
  run-IsStocked [] s f h = h
  run-IsStocked (reserve answer req ∷ ops) s (fit, f) h =
      run-IsStocked ops (step (reserve answer req) s) f (reserve-IsStocked answer req s h)
  run-IsStocked (set_stock answer item_id quantity ∷ ops) s (fit, f) h =
      run-IsStocked ops (step (set_stock answer item_id quantity) s) f
        (set_stock-IsStocked answer item_id quantity s h fit)

  -- A request for an item got a reservation between two states.
  newly : ReserveRequest → State Db → State Db → Bool
  newly req s t =
      not (is_some (value (reservation_key req.order_id) s.db))
      && is_some (value (reservation_key req.order_id) t.db)

  sold_by : String → Option ReserveRequest → State Db → State Db → ℤ
  unfolding newly
  sold_by i none s t = pos 0
  sold_by i (some req) s t =
      if str_eq req.item_id i && newly req s t
      then or_zero (value (reservation_key req.order_id) t.db)
      else pos 0

  -- The units of an item that the reservations of a run of `POST /reserve` requests hold.
  pub sold : String → List (Answer × Option ReserveRequest) → State Db → ℤ
  unfolding sold_by
  sold i [] s = pos 0
  sold i ((answer, req) ∷ rest) s =
      let t = (handle_reserve redis answer req s).1 in sold_by i req s t +ℤ sold i rest t

  pub reserve_all : List (Answer × Option ReserveRequest) → State Db → State Db
  reserve_all [] s = s
  reserve_all ((answer, req) ∷ rest) s = reserve_all rest (handle_reserve redis answer req s).1

  sold_by_same :
      (i : String) (req : Option ReserveRequest) (s t : State Db)
      → t ≡ s
      → sold_by i req s t ≡ pos 0
  unfolding sold_by
  sold_by_same i none s t e = refl
  sold_by_same i (some req) s t e = rw e (ground arith)

  sold_by-Took :
      (i : String) (req : ReserveRequest) (s t : State Db)
      → Took redis req s t
      → sold_by i (some req) s t ≡ (if str_eq req.item_id i then to_number req.quantity else pos 0)
  unfolding sold_by
  sold_by-Took i req s t k = rw k.fresh (rw k.reserved (ground arith))

  add_zero : (a : ℤ) → a +ℤ pos 0 ≡ a
  add_zero a = omega int_laws

  balance_same :
      (i : String) (req : Option ReserveRequest) (s t : State Db)
      → t ≡ s
      → available i t +ℤ sold_by i req s t ≡ available i s
  balance_same i req s t e =
      rw (sold_by_same i req s t e) (add_zero (available i t) ∙ ap (available i) e)

  balance_Took :
      (i : String) (req : ReserveRequest) (s t : State Db)
      → Took redis req s t
      → available i t +ℤ sold_by i (some req) s t ≡ available i s
  balance_Took i req s t k =
      rw (sold_by-Took i req s t k) (elim (Bool-cases (str_eq req.item_id i)) [
        | inl e ↦ rw e (rw ((available-Took_self i k e).0) (omega int_laws))
        | inr e ↦ rw e (rw (available-Took_ne i k e) (add_zero (available i s)))
      ])

  balance_step :
      (i : String) (answer : Answer) (req : Option ReserveRequest) (s : State Db)
      → available i (handle_reserve redis answer req s).1
          +ℤ sold_by i req s (handle_reserve redis answer req s).1
        ≡ available i s
  balance_step i answer none s = balance_same i none s _ (unfold handle_reserve in refl)
  balance_step i answer (some req) s = elim (Bool-cases (is_bad req)) [
    | inl bad ↦
        balance_same i (some req) s (handle_reserve redis answer (some req) s).1
          (bad_keeps answer req s bad)
    | inr good ↦ elim (reserve-Effect redis answer req s good).change [
      | inl e ↦ balance_same i (some req) s (handle_reserve redis answer (some req) s).1 e
      | inr k ↦ balance_Took i req s (handle_reserve redis answer (some req) s).1 k
    ]
  ]

  reserve_all-IsStocked :
      (reqs : List (Answer × Option ReserveRequest)) (s : State Db)
      → IsStocked s
      → IsStocked (reserve_all reqs s)
  unfolding reserve_all
  reserve_all-IsStocked [] s h = h
  reserve_all-IsStocked ((answer, req) ∷ rest) s h =
      reserve_all-IsStocked rest (handle_reserve redis answer req s).1
        (reserve-IsStocked answer req s h)

  balance_all :
      (i : String) (reqs : List (Answer × Option ReserveRequest)) (s : State Db)
      → available i (reserve_all reqs s) +ℤ sold i reqs s ≡ available i s
  unfolding reserve_all sold
  balance_all i [] s = add_zero (available i s)
  balance_all i ((answer, req) ∷ rest) s =
      let t = (handle_reserve redis answer req s).1 in
      +ℤ_regroup (available i t) (sold_by i req s t) (available i s)
        (available i (reserve_all rest t)) (sold i rest t) (balance_step i answer req s)
        (balance_all i rest t)

  -- Over any run of `POST /reserve` requests from a stock of counts between 0 and 2 ^ 53, what an item's
  -- stock lost is what the new reservations of the item hold, and that is at most the stock at the
  -- start: nothing is oversold.
  pub reserve_all_balance :
      (i : String) (reqs : List (Answer × Option ReserveRequest)) (s : State Db)
      → IsStocked s
      → (available i (reserve_all reqs s) +ℤ sold i reqs s ≡ available i s)
        × (sold i reqs s ≤ℤ available i s)
  reserve_all_balance i reqs s h = (
    balance_all i reqs s,
    le_of_sum (available i (reserve_all reqs s)) (sold i reqs s) (available i s)
        (balance_all i reqs s) (reserve_all-IsStocked reqs s h i).0,
  )
