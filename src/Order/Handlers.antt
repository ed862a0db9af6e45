-- ===== src/Order/Handlers.antt =====
-- stampede/apps/order-service/main.go: the HTTP handlers. `none` for a request is a decoding error.
pub mod Atomic
pub mod Replay
pub mod Reserved
pub mod Read
pub mod Keeps
use tf_man.Prelude.{
  ℕ, String, Bool, true, false, not, ◌||◌, Option, none, some, List, [], ◌∷◌, ℤ, pos, int32, leb_ℤ,
  str_eq, if◌then◌else◌,
}
use tf_man.Net.{Answer, done, refused, lost, Reply, error, bare, json}
use tf_man.Events.{Event, Codec, type_order_placed, text, number}
use tf_man.Outbox.Table.{insert_outbox_event}
use tf_man.Order.Client.{ReserveError, insufficient_stock}
use tf_man.Order.Db.{Order, CreateOrderParams, Db, get_order, create_order}

-- The functions of github.com/google/uuid that the handlers call.
pub record Uuid : Type 0 where
  pub parse : String → Option ℕ
  pub print : ℕ → String

pub record CreateOrderRequest : Type 0 where
  pub user_id : String
  pub item_id : String
  pub quantity : ℤ
  pub idempotency_key : String

pub record CreateOrderResponse : Type 0 where
  pub order_id : String
  pub status : String

-- What the clock, the UUID generator and PostgreSQL answer to one request.
pub record CreateEnv : Type 0 where
  pub fresh : ℕ
  pub now : ℕ
  pub begins : Bool
  pub inserts_order : Bool
  pub inserts_event : Bool
  pub commit : Answer

-- The database, and the network with the inventory service behind it.
pub record World (P S : Type 0) : Type 0 where
  pub db : Db P
  pub net : S

abbrev pub lacks_fields : CreateOrderRequest → Bool
lacks_fields req = str_eq req.user_id "" || str_eq req.item_id "" || leb_ℤ req.quantity (pos 0)

module _ (codec : Codec) (uuid : Uuid) where
  open codec use {Payload, marshal}

  abbrev pub internal_error : Reply CreateOrderResponse
  internal_error = error 500 "internal error"

  unfoldable pub placed_event : CreateEnv → CreateOrderRequest → ℕ → Event
  placed_event env req order_id = record {
    event_type = type_order_placed;
    user_id = req.user_id;
    order_id = uuid.print order_id;
    timestamp = env.now;
    metadata = ("item_id", text req.item_id) ∷ ("quantity", number req.quantity) ∷ [];
  }

  abbrev pub order_params : CreateOrderRequest → ℕ → CreateOrderParams
  order_params req order_id = record {
    id = order_id;
    user_id = req.user_id;
    item_id = req.item_id;
    quantity = int32 req.quantity;
    status = "pending_payment";
  }

  -- `tx.Commit`, and the response.
  commit_order : Answer → Order → Db Payload → Db Payload → Reply CreateOrderResponse × Db Payload
  commit_order done order before after =
      (json 201 (record { order_id = uuid.print order.id; status = order.status }), after)
  commit_order refused order before after = (internal_error, before)
  commit_order lost order before after = (internal_error, after)

  -- The transaction, once the event is marshalled; what it wrote before it fails is rolled back.
  store_payload :
      CreateEnv
      → CreateOrderRequest
      → ℕ
      → Db Payload
      → Option Payload
      → Reply CreateOrderResponse × Db Payload
  unfolding commit_order
  store_payload env req order_id db none = (internal_error, db)
  store_payload env req order_id db (some payload) =
      if not env.begins || not env.inserts_order || not env.inserts_event
      then (internal_error, db)
      else (let (order, orders) = create_order env.now (order_params req order_id) db.orders in
          commit_order env.commit order db (record {
            orders = orders;
            outbox = insert_outbox_event env.now order_id type_order_placed payload db.outbox;
          }))

  unfoldable pub store_order :
      CreateEnv → CreateOrderRequest → ℕ → Db Payload → Reply CreateOrderResponse × Db Payload
  unfolding store_payload
  store_order env req order_id db =
      store_payload env req order_id db (marshal (placed_event env req order_id))

  -- The `orderID` of a request, and `none` where the key is no UUID.
  unfoldable pub order_id_of : CreateEnv → CreateOrderRequest → Option ℕ
  order_id_of env req =
      if str_eq req.idempotency_key "" then some env.fresh else uuid.parse req.idempotency_key

  module _ {S : Type 0} (reserve : String → ℤ → String → S → Option ReserveError × S) where
    after_reserve :
        CreateEnv
        → CreateOrderRequest
        → ℕ
        → Db Payload
        → Option ReserveError × S
        → Reply CreateOrderResponse × World Payload S
    after_reserve env req order_id db (none, net) =
        let (reply, stored) = store_order env req order_id db in
        (reply, record { db = stored; net = net })
    after_reserve env req order_id db (some insufficient_stock, net) =
        (error 409 "insufficient stock", record { db = db; net = net })
    after_reserve env req order_id db (some _, net) =
        (internal_error, record { db = db; net = net })

    with_order_id :
        CreateEnv
        → CreateOrderRequest
        → Option ℕ
        → World Payload S
        → Reply CreateOrderResponse × World Payload S
    unfolding after_reserve
    with_order_id env req none w = (error 400 "idempotency_key must be a valid UUID", w)
    with_order_id env req (some order_id) w =
        after_reserve env req order_id w.db
          (reserve req.item_id req.quantity (uuid.print order_id) w.net)

    unfoldable pub handle_create_order :
        CreateEnv
        → Option CreateOrderRequest
        → World Payload S
        → Reply CreateOrderResponse × World Payload S
    unfolding with_order_id
    handle_create_order env none w = (error 400 "invalid request body", w)
    handle_create_order env (some req) w =
        if lacks_fields req
        then (error 400 "user_id, item_id, and a positive quantity are required", w)
        else with_order_id env req (order_id_of env req) w

  order_reply : Option Order → Reply CreateOrderResponse
  order_reply none = error 404 "order not found"
  order_reply (some o) = json 200 (record { order_id = uuid.print o.id; status = o.status })

  read_reply : Bool → Option ℕ → Db Payload → Reply CreateOrderResponse
  unfolding order_reply
  read_reply queries none db = error 400 "invalid order id"
  read_reply queries (some id) db =
      if queries then order_reply (get_order id db.orders) else internal_error

  -- The database's answer to `GetOrder`: `false` is an error other than `pgx.ErrNoRows`.
  unfoldable pub handle_get_order : Bool → String → Db Payload → Reply CreateOrderResponse
  unfolding read_reply
  handle_get_order queries path_id db = read_reply queries (uuid.parse path_id) db
