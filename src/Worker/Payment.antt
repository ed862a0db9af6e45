-- ===== src/Worker/Payment.antt =====
-- stampede/apps/payment-worker/main.go: `handle`, for one message of the queue.
pub mod Once
pub mod Retry
pub mod Keeps
pub mod Threads
use tf_man.Prelude.{
  ℕ, String, Bool, true, false, not, Option, none, some, List, [], ◌+++◌, str_eq, if◌then◌else◌,
}
use tf_man.Net.{Answer}
use tf_man.Redis.{Redis}
use tf_man.Events.{Event, publish, type_order_placed, type_order_confirmed, type_payment_failed}
use tf_man.Worker.Dedup.{seen, unclaim}

pub data PaymentError : Type 0 where
  unmarshal_failed dedup_failed publish_failed : PaymentError

-- The answers to one delivery; `declines` is the draw `rand.Float64() < w.failureRate`.
pub record Delivery : Type 0 where
  pub now : ℕ
  pub seen : Answer
  pub declines : Bool
  pub marshals : Bool
  pub publish : Answer
  pub unclaim : Answer

-- Redis and the topic.
pub record State (D : Type 0) : Type 0 where
  pub db : D
  pub topic : List Event

pub dedup_key : String → String
dedup_key message_id = "payment:seen:" +++ message_id

unfoldable pub payment_event : Delivery → Event → Event
payment_event d event = record {
  event_type = if d.declines then type_payment_failed else type_order_confirmed;
  user_id = event.user_id;
  order_id = event.order_id;
  timestamp = d.now;
  metadata = [];
}

module _ (redis : Redis) where
  open redis use {Db}

  -- `publishErr`: release the claim, and report the error whether or not that worked.
  after_publish : Delivery → String → Db → Bool × List Event → Option PaymentError × State Db
  after_publish d key db (true, topic) = (none, record { db = db; topic = topic })
  after_publish d key db (false, topic) =
      (some publish_failed, record { db = (unclaim redis d.unclaim key db).1; topic = topic })

  after_seen :
      Delivery → String → Event → List Event → Option Bool × Db → Option PaymentError × State Db
  unfolding after_publish
  after_seen d key event topic (none, db) = (some dedup_failed, record { db = db; topic = topic })
  after_seen d key event topic (some true, db) = (none, record { db = db; topic = topic })
  after_seen d key event topic (some false, db) =
      after_publish d key db (publish d.marshals d.publish (payment_event d event) topic)

  pub handle : Delivery → String → Option Event → State Db → Option PaymentError × State Db
  unfolding after_seen
  handle d message_id none s = (some unmarshal_failed, s)
  handle d message_id (some event) s =
      if not (str_eq event.event_type type_order_placed)
      then (none, s)
      else (let key = dedup_key message_id in
          after_seen d key event s.topic (seen redis d.seen key s.db))
