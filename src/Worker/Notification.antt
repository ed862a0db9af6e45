-- ===== src/Worker/Notification.antt =====
-- stampede/apps/notification-worker/main.go: the handler of a message. A notification is a line of
-- the log; the newest is first.
pub mod Once
use tf_man.Prelude.{
  Bool, true, false, String, Option, none, some, List, ◌∷◌, str_eq, ◌+++◌, if◌then◌else◌,
}
use tf_man.Net.{Answer}
use tf_man.Redis.{Redis}
use tf_man.Events.{Event, type_order_confirmed, type_payment_failed, type_fraud_flagged}
use tf_man.Worker.Dedup.{seen}

pub data NotificationError : Type 0 where
  unmarshal_failed dedup_failed : NotificationError

pub data Notification : Type 0 where
  order_confirmation fraud_alert payment_failure : Event → Notification

-- The notification for an event; the other types have none.
pub notify : Event → List Notification → List Notification
notify event sent =
    if str_eq event.event_type type_order_confirmed
    then order_confirmation event ∷ sent
    else if str_eq event.event_type type_fraud_flagged
    then fraud_alert event ∷ sent
    else if str_eq event.event_type type_payment_failed
    then payment_failure event ∷ sent
    else sent

module _ (redis : Redis) where
  -- What the redelivery of a message can see: Redis, and the notifications.
  pub record State : Type 0 where
    pub db : redis.Db
    pub sent : List Notification

  pub after_seen :
      Event → List Notification → Option Bool × redis.Db → Option NotificationError × State
  after_seen event sent (none, db) = (some dedup_failed, record { db = db; sent = sent })
  after_seen event sent (some true, db) = (none, record { db = db; sent = sent })
  after_seen event sent (some false, db) = (none, record { db = db; sent = notify event sent })

  pub handle : Answer → String → Option Event → State → Option NotificationError × State
  unfolding after_seen
  handle answer message_id none s = (some unmarshal_failed, s)
  handle answer message_id (some event) s =
      after_seen event s.sent (seen redis answer ("notification:seen:" +++ message_id) s.db)
