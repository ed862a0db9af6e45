-- ===== src/Inventory/Reserve.antt =====
-- What one request to `POST /reserve` does, and what its repetition does.
use tf_man.Prelude.{
  ℕ, String, ◌≡◌, ◌≢◌, ◌⊎◌, inl, inr, refl, ap, true, false, none, some, List, [], ◌∷◌, ℤ, ◌-ℤ◌,
  ◌≤ℤ◌, str_eq, str_eq_refl, is_some, is_some-ne-none, none_of_is_some, is_some_of_ne-none,
  some-ne-none, Bool-cases, arith, ltb_ℤ,
}
use tf_man.Net.{Answer, done, refused, lost, Reply, bare, status}
use tf_man.Redis.{Redis, or_zero}
use tf_man.Inventory.{
  State, ReserveRequest, is_bad, reservation_key, stock_key, reservation_ne_stock, reserve_script,
  reserve_reply, handle_reserve,
}

module _ (redis : Redis) where
  open redis use {
    Db, value, set, decr_by, to_number, printed, value-set, value-decr_by, decr_by_result,
  }

  -- One reservation, as the change of the stock, the reservation and the published updates. The script
  -- reads the quantity and the stock as doubles.
  pub record Took (req : ReserveRequest) (s t : State Db) : Type 0 where
    pub fresh : value (reservation_key req.order_id) s.db ≡ none
    pub enough : to_number req.quantity ≤ℤ to_number (or_zero (value (stock_key req.item_id) s.db))
    pub stock :
        value (stock_key req.item_id) t.db
        ≡ some (or_zero (value (stock_key req.item_id) s.db) -ℤ to_number req.quantity)
    pub reserved : value (reservation_key req.order_id) t.db ≡ some (to_number req.quantity)
    pub others :
        (k : String)
        → str_eq (stock_key req.item_id) k ≡ false
        → str_eq (reservation_key req.order_id) k ≡ false
        → value k t.db ≡ value k s.db
    pub published :
        t.updates
        ≡ (
          req.item_id,
          printed (or_zero (value (stock_key req.item_id) s.db) -ℤ to_number req.quantity),
        )
          ∷ s.updates

  -- The script on the keys of a request.
  abbrev pub script : ReserveRequest → State Db → ℕ × State Db
  script req =
      reserve_script redis (reservation_key req.order_id) (stock_key req.item_id) req.quantity
        req.item_id

  script_known :
      (req : ReserveRequest) (s : State Db)
      → is_some (value (reservation_key req.order_id) s.db) ≡ true
      → script req s ≡ (1, s)
  unfolding reserve_script
  script_known req s e = rw e

  script_short :
      (req : ReserveRequest) (s : State Db)
      → is_some (value (reservation_key req.order_id) s.db) ≡ false
      → ltb_ℤ (to_number (or_zero (value (stock_key req.item_id) s.db))) (to_number req.quantity)
        ≡ true
      → script req s ≡ (0, s)
  unfolding reserve_script
  script_short req s e f = rw e (rw f)

  le_of_ltb : (a b : ℤ) → ltb_ℤ a b ≡ false → b ≤ℤ a
  le_of_ltb a b e = ground arith

  script_takes :
      (req : ReserveRequest) (s : State Db)
      → is_some (value (reservation_key req.order_id) s.db) ≡ false
      → ltb_ℤ (to_number (or_zero (value (stock_key req.item_id) s.db))) (to_number req.quantity)
        ≡ false
      → ((script req s).0 ≡ 1) × Took req s (script req s).1
  unfolding reserve_script
  script_takes req s e f = rw e (
      rw f (
        refl,
        record {
          fresh = none_of_is_some _ e;
          enough =
              le_of_ltb (to_number (or_zero (value (stock_key req.item_id) s.db)))
                (to_number req.quantity) f;
          stock = simp (value-set, value-decr_by, reservation_ne_stock, str_eq_refl);
          reserved = simp (value-set, str_eq_refl);
          others = λ k a b. simp (value-set, value-decr_by, a, b);
          published = simp decr_by_result;
        },
      ))

  -- The three ways through the script, by what it returns and leaves.
  pub data ScriptCase (req : ReserveRequest) (s : State Db) (n : ℕ) (t : State Db) : Type 0 where
    known :
        is_some (value (reservation_key req.order_id) s.db) ≡ true
        → n ≡ 1
        → t ≡ s
        → ScriptCase req s n t
    short :
        value (reservation_key req.order_id) s.db ≡ none
        → ltb_ℤ (to_number (or_zero (value (stock_key req.item_id) s.db))) (to_number req.quantity)
          ≡ true
        → n ≡ 0
        → t ≡ s
        → ScriptCase req s n t
    took : n ≡ 1 → Took req s t → ScriptCase req s n t

  pub script_case :
      (req : ReserveRequest) (s : State Db) → ScriptCase req s (script req s).0 (script req s).1
  script_case req s = elim (Bool-cases (is_some (value (reservation_key req.order_id) s.db))) [
    | inl e ↦ known e (ap (λ r. r.0) (script_known req s e)) (ap (λ r. r.1) (script_known req s e))
    | inr e ↦
        elim (Bool-cases (
          ltb_ℤ (to_number (or_zero (value (stock_key req.item_id) s.db)))
            (to_number req.quantity))) [
              | inl f ↦
                  short (none_of_is_some _ e) f (ap (λ r. r.0) (script_short req s e f))
                    (ap (λ r. r.1) (script_short req s e f))
              | inr f ↦ let (one, t) = script_takes req s e f in took one t
            ]
  ]

  -- What a valid request may do, and what each status tells the caller.
  pub record Effect (req : ReserveRequest) (s : State Db) (r : Reply (Unit {0})) (t : State Db)
      : Type 0 where
    pub change : (t ≡ s) ⊎ Took req s t
    pub ok_means : status r ≡ 200 → value (reservation_key req.order_id) t.db ≢ none
    pub conflict_means :
        status r ≡ 409
        → (t ≡ s)
          × (value (reservation_key req.order_id) s.db ≡ none)
          × (ltb_ℤ
                (to_number (or_zero (value (stock_key req.item_id) s.db)))
                (to_number req.quantity)
              ≡ true)
    pub not_bad : status r ≢ 400

  module _ (req : ReserveRequest) (s : State Db) (n : ℕ) (t : State Db) where
    abbrev Replied : Answer → Type 0
    Replied answer =
        Effect req s (reserve_reply redis answer s (n, t)).0 (reserve_reply redis answer s (n, t)).1

    reserve_reply-Effect : (answer : Answer) → ScriptCase req s n t → Replied answer
    unfolding reserve_reply
    reserve_reply-Effect refused c = record {
      change = inl refl;
      ok_means = λ h. absurd (omega arith);
      conflict_means = λ h. absurd (omega arith);
      not_bad = omega arith;
    }
    reserve_reply-Effect done (known k one e) = rw one record {
      change = inl e;
      ok_means = λ h. rw e (is_some-ne-none _ k);
      conflict_means = λ h. absurd (omega arith);
      not_bad = omega arith;
    }
    reserve_reply-Effect done (short k f zero e) = rw zero record {
      change = inl e;
      ok_means = λ h. absurd (omega arith);
      conflict_means = λ h. (e, k, f);
      not_bad = omega arith;
    }
    reserve_reply-Effect done (took one g) = rw one record {
      change = inr g;
      ok_means = λ h. some-ne-none (to_number req.quantity) g.reserved;
      conflict_means = λ h. absurd (omega arith);
      not_bad = omega arith;
    }
    reserve_reply-Effect lost c = record {
      change = elim c [ known k one e ↦ inl e | short k f zero e ↦ inl e | took one g ↦ inr g ];
      ok_means = λ h. absurd (omega arith);
      conflict_means = λ h. absurd (omega arith);
      not_bad = omega arith;
    }

  -- A valid request either changes nothing or makes exactly one reservation, whatever becomes of the
  -- call; 200 means that the order has a reservation, and 409 that it has none and the stock is too
  -- low, with nothing changed. The reservation holds the double that is nearest to the quantity, the
  -- stock loses as much, and the two are compared as doubles.
  pub reserve-Effect :
      (answer : Answer) (req : ReserveRequest) (s : State Db)
      → is_bad req ≡ false
      → Effect req s
          (handle_reserve redis answer (some req) s).0
          (handle_reserve redis answer (some req) s).1
  unfolding handle_reserve
  reserve-Effect answer req s h =
      rw h (reserve_reply-Effect req s (script req s).0 (script req s).1 answer (script_case req s))

  pub reserve_reply_known :
      (req : ReserveRequest) (s : State Db) (answer : Answer)
      → is_some (value (reservation_key req.order_id) s.db) ≡ true
      → is_bad req ≡ false
      → ((handle_reserve redis answer (some req) s).1 ≡ s)
        × (answer ≡ done → (handle_reserve redis answer (some req) s).0 ≡ bare 200)
  unfolding handle_reserve reserve_reply
  reserve_reply_known req s done e h = rw h (rw (script_known req s e) (refl, λ _. refl))
  reserve_reply_known req s refused e h = rw h (refl, λ a. cc)
  reserve_reply_known req s lost e h = rw h (rw (script_known req s e) (refl, λ a. cc))

  -- Once a request for an order was answered with 200, every further valid request for that order,
  -- of whatever item and quantity, changes nothing, and is answered with 200 if its call succeeds.
  reserve_again :
      (answer again : Answer) (req more : ReserveRequest) (s : State Db)
      → is_bad req ≡ false
      → is_bad more ≡ false
      → more.order_id ≡ req.order_id
      → let (r, t) = handle_reserve redis answer (some req) s in
        status r ≡ 200
        → ((handle_reserve redis again (some more) t).1 ≡ t)
          × (again ≡ done → (handle_reserve redis again (some more) t).0 ≡ bare 200)
  reserve_again answer again req more s h k same ok =
      reserve_reply_known more (handle_reserve redis answer (some req) s).1 again
        (rw same (is_some_of_ne-none _ ((reserve-Effect answer req s h).ok_means ok))) k

  -- The state after a row of deliveries of one request.
  pub deliver_all : ReserveRequest → List Answer → State Db → State Db
  deliver_all req [] s = s
  deliver_all req (answer ∷ answers) s =
      deliver_all req answers (handle_reserve redis answer (some req) s).1

  deliver_all_known :
      (req : ReserveRequest) (answers : List Answer) (s : State Db)
      → is_bad req ≡ false
      → is_some (value (reservation_key req.order_id) s.db) ≡ true
      → deliver_all req answers s ≡ s
  unfolding deliver_all
  deliver_all_known req [] s h k = refl
  deliver_all_known req (answer ∷ answers) s h k =
      rw ((reserve_reply_known req s answer k h).0) (deliver_all_known req answers s h k)

  -- However often a valid request is delivered, and however the calls end, it takes stock at most once.
  deliver_all_once :
      (req : ReserveRequest) (answers : List Answer) (s : State Db)
      → is_bad req ≡ false
      → (deliver_all req answers s ≡ s) ⊎ Took req s (deliver_all req answers s)
  unfolding deliver_all
  deliver_all_once req [] s h = inl refl
  deliver_all_once req (answer ∷ answers) s h = elim (reserve-Effect answer req s h).change [
    | inl e ↦ rw e (deliver_all_once req answers s h)
    | inr t ↦
        let after = (handle_reserve redis answer (some req) s).1 in
        rw
          (deliver_all_known req answers after h
            (is_some_of_ne-none _ (some-ne-none (to_number req.quantity) t.reserved)))
          (inr t)
  ]
