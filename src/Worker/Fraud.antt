-- ===== src/Worker/Fraud.antt =====
-- stampede/apps/fraud-detector/main.go: `handle`, for one message of the queue.
pub mod Claims
pub mod Lost
pub mod Keeps
pub mod Endless
use tf_man.Prelude.{
  ℕ, String, Bool, true, false, not, Option, none, some, List, [], ◌∷◌, ◌+++◌, ℤ, pos, leb_ℤ,
  str_eq, if◌then◌else◌, ◌==◌,
}
use tf_man.Net.{Answer, done, refused, lost, succeeded, applied}
use tf_man.Redis.{Redis}
use tf_man.Events.{Event, number, publish, type_fraud_flagged}
use tf_man.Worker.Dedup.{seen}

pub data FraudError : Type 0 where
  unmarshal_failed dedup_failed incr_failed expire_failed publish_failed : FraudError

-- `threshold` and `window` (in seconds) of the detector.
pub record Detector : Type 0 where
  pub threshold : ℤ
  pub window : ℤ

pub record Delivery : Type 0 where
  pub now : ℕ
  pub seen : Answer
  pub incr : Answer
  pub expire : Answer
  pub marshals : Bool
  pub publish : Answer

pub record State (D : Type 0) : Type 0 where
  pub db : D
  pub topic : List Event

pub dedup_key : String → String
dedup_key message_id = "fraud:seen:" +++ message_id

pub counter_key : String → String
counter_key user_id = "fraud:events:" +++ user_id

abbrev is_one : ℤ → Bool
is_one (pos n) = n == 1
is_one _ = false

module _ (redis : Redis) (d : Detector) where
  open redis use {Db, incr, expire}

  unfoldable pub fraud_event : Delivery → Event → ℤ → Event
  fraud_event v event count = record {
    event_type = type_fraud_flagged;
    user_id = event.user_id;
    order_id = "";
    timestamp = v.now;
    metadata = ("event_count", number count) ∷ ("window_seconds", number d.window) ∷ [];
  }

  alert_error : Bool × List Event → Db → Option FraudError × State Db
  alert_error (true, topic) db = (none, record { db = db; topic = topic })
  alert_error (false, topic) db = (some publish_failed, record { db = db; topic = topic })

  -- From the comparison with the threshold on.
  judge : Delivery → Event → ℤ → State Db → Option FraudError × State Db
  unfolding alert_error
  judge v event count s =
      if leb_ℤ count d.threshold
      then (none, s)
      else alert_error (publish v.marshals v.publish (fraud_event v event count) s.topic) s.db

  -- The window starts with the first event.
  start_window : Delivery → Event → ℤ → State Db → Option FraudError × State Db
  unfolding judge
  start_window v event count s =
      let expired = record s { db = expire (counter_key event.user_id) d.window s.db } in
      if is_one count
      then (elim v.expire [
        | done ↦ judge v event count expired
        | refused ↦ (some expire_failed, s)
        | lost ↦ (some expire_failed, expired)
      ])
      else judge v event count s

  count_event : Delivery → Event → State Db → Option FraudError × State Db
  unfolding start_window
  count_event v event s =
      let (count, db) = incr (counter_key event.user_id) s.db in
      elim v.incr [
        | done ↦ start_window v event count (record s { db = db })
        | refused ↦ (some incr_failed, s)
        | lost ↦ (some incr_failed, record s { db = db })
      ]

  pub after_seen : Delivery → Event → List Event → Option Bool × Db → Option FraudError × State Db
  unfolding count_event
  after_seen v event topic (none, db) = (some dedup_failed, record { db = db; topic = topic })
  after_seen v event topic (some true, db) = (none, record { db = db; topic = topic })
  after_seen v event topic (some false, db) =
      count_event v event (record { db = db; topic = topic })

  pub handle : Delivery → String → Option Event → State Db → Option FraudError × State Db
  unfolding after_seen
  handle v message_id none s = (some unmarshal_failed, s)
  handle v message_id (some event) s =
      if str_eq event.event_type type_fraud_flagged
      then (none, s)
      else after_seen v event s.topic (seen redis v.seen (dedup_key message_id) s.db)
