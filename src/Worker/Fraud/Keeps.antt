-- ===== src/Worker/Fraud/Keeps.antt =====
-- What a delivery to the detector does to the topic, for invariants of it.
use tf_man.Prelude.{
  String, Bool, true, false, inl, inr, Option, none, some, List, ◌∷◌, ℤ, leb_ℤ, str_eq, Bool-cases,
}
use tf_man.Net.{Answer-cases}
use tf_man.Redis.{Redis}
use tf_man.Events.{Event, publish-keeps, type_fraud_flagged}
use tf_man.Worker.Dedup.{seen}
use tf_man.Worker.Fraud.{
  Detector, Delivery, dedup_key, counter_key, is_one, fraud_event, alert_error, judge, start_window,
  count_event, after_seen, handle,
}

module _ (redis : Redis) (d : Detector) (v : Delivery) (event : Event) (Q : List Event → Type 0)
    (topic : List Event) (same : Q topic)
    (alerts : (count : ℤ) → Q (fraud_event redis d v event count ∷ topic)) where
  open redis use {Db}

  topic-alert_error :
      (sent : Bool × List Event) (db : Db) → (Q sent.1) → Q (alert_error redis d sent db).1.topic
  unfolding alert_error
  topic-alert_error (true, t) db h = h
  topic-alert_error (false, t) db h = h

  judge-keeps :
      (count : ℤ) (db : Db)
      → Q (judge redis d v event count (record { db = db; topic = topic })).1.topic
  unfolding judge
  judge-keeps count db = elim (Bool-cases (leb_ℤ count d.threshold)) [
    | inl e ↦ rw e same
    | inr e ↦ rw e (
        topic-alert_error _ db (
          publish-keeps Q topic same v.marshals v.publish (fraud_event redis d v event count)
            (alerts count)))
  ]

  start_window-keeps :
      (count : ℤ) (db : Db)
      → Q (start_window redis d v event count (record { db = db; topic = topic })).1.topic
  unfolding start_window
  start_window-keeps count db = elim (Bool-cases (is_one count)) [
    | inl one ↦ rw one (elim (Answer-cases v.expire) [
      | inl e ↦ rw e (judge-keeps count _)
      | inr (inl e) ↦ rw e same
      | inr (inr e) ↦ rw e same
    ])
    | inr more ↦ rw more (judge-keeps count db)
  ]

  count_event-keeps :
      (db : Db) → Q (count_event redis d v event (record { db = db; topic = topic })).1.topic
  unfolding count_event fraud_event
  count_event-keeps db = elim (Answer-cases v.incr) [
    | inl e ↦ rw e (
        let (count, counted) = redis.incr (counter_key event.user_id) db in
        start_window-keeps count counted)
    | inr (inl e) ↦ rw e same
    | inr (inr e) ↦ rw e same
  ]

  after_seen-keeps : (r : Option Bool × Db) → Q (after_seen redis d v event topic r).1.topic
  unfolding after_seen
  after_seen-keeps (none, db) = same
  after_seen-keeps (some true, db) = same
  after_seen-keeps (some false, db) = count_event-keeps db

  -- The topic after a delivery to the detector: as it was, or with an alert.
  pub handle-keeps :
      (id : String) (db : Db)
      → Q (handle redis d v id (some event) (record { db = db; topic = topic })).1.topic
  unfolding handle
  handle-keeps id db = elim (Bool-cases (str_eq event.event_type type_fraud_flagged)) [
    | inl e ↦ rw e same
    | inr e ↦ rw e (after_seen-keeps (seen redis v.seen (dedup_key id) db))
  ]
