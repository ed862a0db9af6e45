-- ===== src/Order/Handlers/Read.antt =====
-- What `GET /orders/{id}` says of an order that `POST /orders` acknowledged.
use tf_man.Prelude.{ℕ, String, true, ◌≡◌, refl, Option, some, ℤ}
use tf_man.Net.{json, status}
use tf_man.Events.{Codec}
use tf_man.Order.Client.{ReserveError}
use tf_man.Order.Db.{Order, Db, get_order}
use tf_man.Order.Handlers.{
  Uuid, CreateOrderRequest, CreateOrderResponse, CreateEnv, World, handle_create_order,
  handle_get_order,
}
use tf_man.Order.Handlers.Atomic.{handle_create_order_reply}

module _ (codec : Codec) (uuid : Uuid) {S : Type 0}
    (reserve : String → ℤ → String → S → Option ReserveError × S) where
  open codec use {Payload}

  read_back :
      (o : Order) (db : Db Payload)
      → uuid.parse (uuid.print o.id) ≡ some o.id
      → get_order o.id db.orders ≡ some o
      → handle_get_order codec uuid true (uuid.print o.id) db
        ≡ json 200 (record { order_id = uuid.print o.id; status = o.status })
  unfolding handle_get_order
  read_back o db same found = rw (same, found) refl

  -- A create request that is answered with 201 has a body whose order id, as the path of a read that
  -- reaches PostgreSQL, is answered with 200 and the same body. A UUID that was printed is taken to be
  -- parsed to the same UUID.
  pub handle_get_order-create :
      ((n : ℕ) → uuid.parse (uuid.print n) ≡ some n)
      → (env : CreateEnv) (req : Option CreateOrderRequest) (w : World Payload S)
      → let (r, v) = handle_create_order codec uuid reserve env req w in
        status r ≡ 201
        → (body : CreateOrderResponse) × (r ≡ json 201 body)
          × (handle_get_order codec uuid true body.order_id v.db ≡ json 200 body)
  handle_get_order-create parse_print env req w ok =
      let (o, found, reply) = (handle_create_order_reply codec uuid reserve env req w).1 ok in
      (
        record { order_id = uuid.print o.id; status = o.status },
        reply,
        read_back o _ (parse_print o.id) found,
      )
