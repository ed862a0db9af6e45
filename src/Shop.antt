-- ===== src/Shop.antt =====
-- The way of an order through stampede/apps, across its services: the order service writes it, the
-- relay publishes its event, the payment worker answers with an event, the fraud detector may raise an
-- alert, and the order service sets the status. SNS and SQS hand any event of the topic to the three
-- readers, any number of times and in any order.
pub mod Traced
pub mod Reached
mod Tests
use mathlib.Core.List.{Memᴰ}
use tf_man.Prelude.{String, Option, some, List, [], ℤ}
use tf_man.Net.{Answer}
use tf_man.Redis.{Redis}
use tf_man.Events.{Event, Codec}
use tf_man.Outbox.Relay.{Round}
use tf_man.Order.Client.{ReserveError}
use tf_man.Order.Db.{Db}
use tf_man.Order.Handlers.{Uuid, CreateOrderRequest, CreateEnv, handle_create_order}
use tf_man.Order.Relay.{publish_next_outbox_event}
use tf_man.Order.Status.{handle_status_event}
use tf_man.Worker.Payment.{Delivery, handle}
use tf_man.Worker.Fraud.{Detector}
use tf_man.Worker.Fraud

-- The order service's database, the network with the inventory service behind it, the topic, and
-- Redis as the two workers use it.
pub record Shop (P S D : Type 0) : Type 0 where
  pub db : Db P
  pub net : S
  pub topic : List Event
  pub claims : D

module _ (codec : Codec) (uuid : Uuid) (redis : Redis) {S : Type 0}
    (reserve : String → ℤ → String → S → Option ReserveError × S) where
  abbrev pub Shops : Type 0
  Shops = Shop codec.Payload S redis.Db

  abbrev pub created : CreateEnv → Option CreateOrderRequest → Shops → Shops
  created env req s =
      let v =
        (handle_create_order codec uuid reserve env req (record { db = s.db; net = s.net })).1 in
      record s { db = v.db; net = v.net }

  abbrev pub relayed : Round → Shops → Shops
  relayed env s =
      let (work, err, o) =
        publish_next_outbox_event codec env (record { rows = s.db.outbox; sink = s.topic }) in
      record s { db = record (s.db) { outbox = o.rows }; topic = o.sink }

  abbrev pub paid : Delivery → String → Event → Shops → Shops
  paid d id event s =
      let t = (handle redis d id (some event) (record { db = s.claims; topic = s.topic })).1 in
      record s { claims = t.db; topic = t.topic }

  abbrev pub watched : Detector → Fraud.Delivery → String → Event → Shops → Shops
  watched detector v id event s =
      let t =
        (Fraud.handle redis detector v id (some event)
          (record { db = s.claims; topic = s.topic })).1 in
      record s { claims = t.db; topic = t.topic }

  abbrev pub settled : Answer → Event → Shops → Shops
  settled answer event s = record s { db = (handle_status_event uuid answer (some event) s.db).1 }

  -- One request, one round of the relay, or one delivery of an event that is on the topic.
  pub data Step (s : Shops) : Shops → Type 0 where
    create : (env : CreateEnv) (req : Option CreateOrderRequest) → Step s (created env req s)
    relay : (env : Round) → Step s (relayed env s)
    pay :
        (d : Delivery) (id : String) (event : Event)
        → Memᴰ event s.topic
        → Step s (paid d id event s)
    watch :
        (detector : Detector) (v : Fraud.Delivery) (id : String) (event : Event)
        → Memᴰ event s.topic
        → Step s (watched detector v id event s)
    settle :
        (answer : Answer) (event : Event) → Memᴰ event s.topic → Step s (settled answer event s)

  abbrev pub opened : S → redis.Db → Shops
  opened net claims = record {
    db = record { orders = []; outbox = [] };
    net = net;
    topic = [];
    claims = claims;
  }

  -- The states that a run reaches from a shop without orders.
  pub data Reach (net : S) (claims : redis.Db) : Shops → Type 0 where
    here : Reach net claims (opened net claims)
    next : {s t : Shops} → Reach net claims s → Step s t → Reach net claims t
