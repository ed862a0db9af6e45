-- ===== src/Order/Handlers/Reserved.antt =====
-- `handleCreateOrder` with `Reserve` and the inventory service behind it.
use tf_man.Prelude.{
  ℕ, String, Bool, false, ◌≡◌, ◌≢◌, refl, Option, none, some, ℤ, str_eq, Bool-cases, Option-cases,
  inl, inr, arith,
}
use tf_man.Net.{status}
use tf_man.Redis.{Redis}
use tf_man.Events.{Codec}
use tf_man.Inventory.{ReserveRequest, is_bad, reservation_key}
use tf_man.Inventory
use tf_man.Order.Client.{ReserveError, insufficient_stock, prepared}
use tf_man.Order.Client
use tf_man.Order.Client.Once.{Link, post, reserve_once}
use tf_man.Order.Db.{Db}
use tf_man.Order.Handlers.{
  Uuid, CreateOrderRequest, CreateEnv, World, lacks_fields, order_id_of, after_reserve,
  handle_create_order,
}

module _ (codec : Codec) (uuid : Uuid) where
  open codec use {Payload}

  module _ {S : Type 0} (reserve : String → ℤ → String → S → Option ReserveError × S) where
    after_reserve_ok :
        (env : CreateEnv) (req : CreateOrderRequest) (id : ℕ) (db : Db Payload)
        (res : Option ReserveError × S)
        → status (after_reserve codec uuid reserve env req id db res).0 ≡ 201
        → (res.0 ≡ none) × ((after_reserve codec uuid reserve env req id db res).1.net ≡ res.1)
    unfolding after_reserve
    after_reserve_ok env req id db (none, net) h = (refl, refl)
    after_reserve_ok env req id db (some insufficient_stock, net) h = absurd (omega (arith, h))
    after_reserve_ok env req id db (some _, net) h = absurd (omega (arith, h))

    -- A request that is answered with 201, and the successful call of `Reserve` for it.
    record Called (env : CreateEnv) (req : CreateOrderRequest) (before after : S) : Type 0 where
      id : ℕ
      named : order_id_of codec uuid env req ≡ some id
      complete : lacks_fields req ≡ false
      ok : (reserve req.item_id req.quantity (uuid.print id) before).0 ≡ none
      left : after ≡ (reserve req.item_id req.quantity (uuid.print id) before).1

    handle_create_order-Called :
        (env : CreateEnv) (req : CreateOrderRequest) (w : World Payload S)
        → status (handle_create_order codec uuid reserve env (some req) w).0 ≡ 201
        → Called env req w.net (handle_create_order codec uuid reserve env (some req) w).1.net
    unfolding handle_create_order
    handle_create_order-Called env req w h = elim (Bool-cases (lacks_fields req)) [
      | inl f ↦ absurd (omega (arith, rw f at h))
      | inr f ↦ elim (Option-cases (order_id_of codec uuid env req)) [
        | inl e ↦ absurd (omega (arith, rw (f, e) at h))
        | inr (i, e) ↦
            let (ok, left) =
              after_reserve_ok env req i w.db
                (reserve req.item_id req.quantity (uuid.print i) w.net) (rw (f, e) at h) in
            record { id = i; named = e; complete = f; ok = ok; left = rw (f, e) left }
      ]
    ]

  module _ (redis : Redis) (link : ℕ → Link) (is_cancelled : ℕ → Bool) where
    abbrev Net : Type 0
    Net = Inventory.State redis.Db × ℕ

    -- `Reserve` over the network, to the inventory service.
    abbrev pub reserve_over : String → ℤ → String → Net → Option ReserveError × Net
    reserve_over item_id quantity order_id net =
        let req : ReserveRequest = record {
          item_id = item_id;
          quantity = quantity;
          order_id = order_id;
        } in
        let o = Client.reserve prepared (post redis req link) is_cancelled net in (o.err, o.net)

    good_request :
        (req : CreateOrderRequest) (order_id : String)
        → lacks_fields req ≡ false
        → str_eq order_id "" ≡ false
        → is_bad (record { item_id = req.item_id; quantity = req.quantity; order_id = order_id })
          ≡ false
    good_request req order_id h e = ground (arith, h, e)

    -- Whatever the network, Redis and PostgreSQL do: a create request that is answered with 201 has
    -- a reservation in the inventory under the order id of the request, as long as no UUID is
    -- printed as the empty string.
    pub handle_create_order_reserved :
        (env : CreateEnv) (req : CreateOrderRequest) (w : World Payload Net)
        → ((id : ℕ) → str_eq (uuid.print id) "" ≡ false)
        → let (r, v) = handle_create_order codec uuid reserve_over env (some req) w in
          status r ≡ 201
          → (id : ℕ) × (order_id_of codec uuid env req ≡ some id)
            × (redis.value (reservation_key (uuid.print id)) v.net.0.db ≢ none)
    handle_create_order_reserved env req w printed h =
        let c = handle_create_order-Called reserve_over env req w h in
        let r : ReserveRequest = record {
          item_id = req.item_id;
          quantity = req.quantity;
          order_id = uuid.print c.id;
        } in
        let valid = good_request req (uuid.print c.id) c.complete (printed c.id) in
        let means = (reserve_once redis r link w.net.0 valid prepared is_cancelled w.net.1).1 in
        (c.id, c.named, rw c.left (rw c.ok at means))
