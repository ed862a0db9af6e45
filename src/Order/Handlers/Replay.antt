-- ===== src/Order/Handlers/Replay.antt =====
-- A create request that is sent again under its idempotency key, and the width of the quantity.
use tf_man.Prelude.{
  ℕ, String, true, false, ◌≡◌, ◌<◌, ◌^◌, ◌↔◌, refl, sym, ap, ◌∙◌, Option, none, some, List, ℤ, pos,
  int32, int32-pos_iff, str_eq, is_some, arith,
}
use tf_man.Net.{Reply, json, status}
use tf_man.Events.{Codec, type_order_placed}
use tf_man.Outbox.Table.{has_id, insert_outbox_event}
use tf_man.Order.Client.{ReserveError}
use tf_man.Order.Db.{Order, CreateOrderParams, Db, get_order, create_order}
use tf_man.Order.Handlers.{
  Uuid, CreateOrderRequest, CreateOrderResponse, CreateEnv, World, order_params, order_id_of,
  handle_create_order,
}
use tf_man.Order.Handlers.Atomic.{
  InStep, written, Stored, untouched, unsure, stored, refused_early, reached,
  handle_create_order-Created, get_order-create_self,
}

module _ (codec : Codec) (uuid : Uuid) where
  open codec use {Payload}

  create_order_taken :
      (now : ℕ) (arg : CreateOrderParams) (orders : List Order) (o : Order)
      → get_order arg.id orders ≡ some o
      → create_order now arg orders ≡ (o, orders)
  unfolding create_order
  create_order_taken now arg orders o e = rw e

  insert_taken :
      (now id : ℕ) (ty : String) (p : Payload) (db : Db Payload)
      → has_id id db.outbox ≡ true
      → insert_outbox_event now id ty p db.outbox ≡ db.outbox
  unfolding insert_outbox_event
  insert_taken now id ty p db e = rw e

  written_taken :
      (env : CreateEnv) (req : CreateOrderRequest) (id : ℕ) (p : Payload) (db : Db Payload)
      (o : Order)
      → get_order id db.orders ≡ some o
      → InStep db
      → written codec uuid env req id p db ≡ db
  written_taken env req id p db o e h =
      rw (create_order_taken env.now (order_params codec uuid req id) db.orders o e)
        (rw (insert_taken env.now id type_order_placed p db (sym (h id) ∙ ap is_some e)) refl)

  Stored-taken :
      {env : CreateEnv} {req : CreateOrderRequest} {id : ℕ} {db t : Db Payload}
      {r : Reply CreateOrderResponse} (o : Order)
      → Stored codec uuid env req id db r t
      → get_order id db.orders ≡ some o
      → InStep db
      → (t ≡ db)
        × (status r ≡ 201 → r ≡ json 201 (record { order_id = uuid.print o.id; status = o.status }))
  Stored-taken o (untouched r e) found h = (e, λ ok. absurd (omega (arith, ap status r)))
  Stored-taken {env} {req} {id} {db} o (unsure p c r e) found h =
      (e ∙ written_taken env req id p db o found h, λ ok. absurd (omega (arith, ap status r)))
  Stored-taken {env} {req} {id} {db} o (stored p o' same r e) found h = (
    e ∙ written_taken env req id p db o found h,
    λ ok.
        let old : o' ≡ o =
          same
          ∙ ap (λ (c : Order × List Order). c.0)
              (create_order_taken env.now (order_params codec uuid req id) db.orders o found) in
        r
        ∙ ap (λ (x : Order). json 201 (record { order_id = uuid.print x.id; status = x.status }))
            old,
  )

  -- The quantity of a new order.
  quantity-create_order :
      (now : ℕ) (arg : CreateOrderParams) (orders : List Order)
      → get_order arg.id orders ≡ none
      → (create_order now arg orders).0.quantity ≡ arg.quantity
  unfolding create_order
  quantity-create_order now arg orders e = rw e

  written_quantity :
      (env : CreateEnv) (req : CreateOrderRequest) (id n : ℕ) (p : Payload) (db t : Db Payload)
      → req.quantity ≡ pos n
      → get_order id db.orders ≡ none
      → t ≡ written codec uuid env req id p db
      → (o : Order) × (get_order id t.orders ≡ some o)
        × ((o.quantity ≡ req.quantity) ↔ (n < 2 ^ 31))
  written_quantity env req id n p db t q new e =
      let arg : CreateOrderParams = order_params codec uuid req id in
      let o : Order = (create_order env.now arg db.orders).0 in
      let is_int32 : o.quantity ≡ int32 (pos n) =
        quantity-create_order env.now arg db.orders new ∙ ap int32 q in
      (
        o,
        ap (λ (d : Db Payload). get_order id d.orders) e
            ∙ (get_order-create_self env.now arg db.orders).1,
        (
          λ kept. (int32-pos_iff n).0 (sym is_int32 ∙ kept ∙ q),
          λ small. is_int32 ∙ (int32-pos_iff n).1 small ∙ sym q,
        ),
      )

  module _ {S : Type 0} (reserve : String → ℤ → String → S → Option ReserveError × S) where
    key_id :
        (env : CreateEnv) (req : CreateOrderRequest) (id : ℕ)
        → str_eq req.idempotency_key "" ≡ false
        → uuid.parse req.idempotency_key ≡ some id
        → order_id_of codec uuid env req ≡ some id
    unfolding order_id_of
    key_id env req id k e = rw k e

    -- With orders and outbox in step, a request whose idempotency key names an order that is already
    -- there changes no row, whatever
    -- it asks for and whatever fails; if it is answered with 201, it gets the stored order's status.
    pub handle_create_order_again :
        (env : CreateEnv) (req : CreateOrderRequest) (w : World Payload S) (id : ℕ) (o : Order)
        → str_eq req.idempotency_key "" ≡ false
        → uuid.parse req.idempotency_key ≡ some id
        → get_order id w.db.orders ≡ some o
        → InStep w.db
        → let (r, v) = handle_create_order codec uuid reserve env (some req) w in
          (v.db ≡ w.db)
          × (status r ≡ 201
              → r ≡ json 201 (record { order_id = uuid.print o.id; status = o.status }))
    handle_create_order_again env req w id o key parsed found h =
        elim (handle_create_order-Created codec uuid reserve env (some req) w) [
          | refused_early other e ↦ (e, λ ok. absurd (other ok))
          | reached req' id' asked _ named st ↦
              let same : id' ≡ id = cc (key_id env req id key parsed) in
              Stored-taken o st (ap (λ i. get_order i w.db.orders) same ∙ found) h
        ]

    -- A new order that is answered with 201 is stored with the quantity that was asked for exactly when
    -- it is below 2 ^ 31; from there on another one is stored.
    pub handle_create_order_quantity :
        (env : CreateEnv) (req : CreateOrderRequest) (w : World Payload S) (id n : ℕ)
        → req.quantity ≡ pos n
        → order_id_of codec uuid env req ≡ some id
        → get_order id w.db.orders ≡ none
        → let (r, v) = handle_create_order codec uuid reserve env (some req) w in
          status r ≡ 201
          → (o : Order) × (get_order id v.db.orders ≡ some o)
            × ((o.quantity ≡ req.quantity) ↔ (n < 2 ^ 31))
    handle_create_order_quantity env req w id n q key new ok =
        elim (handle_create_order-Created codec uuid reserve env (some req) w) [
          | refused_early other e ↦ absurd (other ok)
          | reached req' id' asked _ named (untouched r e) ↦ absurd (omega (arith, ap status r))
          | reached req' id' asked _ named (unsure p c r e) ↦ absurd (omega (arith, ap status r))
          | reached req' id' asked _ named (stored p o same r e) ↦
              let old : id' ≡ id = cc in
              written_quantity env req id n p w.db _ q new
                (e ∙ cc (ap (λ (x : Option CreateOrderRequest). x) asked))
        ]
