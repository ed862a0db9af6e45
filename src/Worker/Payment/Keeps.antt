-- ===== src/Worker/Payment/Keeps.antt =====
-- What a delivery does to the topic, for invariants of it.
use tf_man.Prelude.{
  String, Bool, true, false, ◌≡◌, inl, inr, refl, Option, none, some, List, ◌∷◌, str_eq, str_eq_iff,
  Bool-cases,
}
use tf_man.Redis.{Redis}
use tf_man.Events.{Event, publish, publish-keeps, type_order_placed}
use tf_man.Worker.Dedup.{seen}
use tf_man.Worker.Payment.{Delivery, dedup_key, payment_event, after_publish, after_seen, handle}

module _ (redis : Redis) (Q : List Event → Type 0) (topic : List Event) (same : Q topic) where
  open redis use {Db}

  topic-after_publish :
      (d : Delivery) (key : String) (db : Db) (sent : Bool × List Event)
      → (after_publish redis d key db sent).1.topic ≡ sent.1
  unfolding after_publish
  topic-after_publish d key db (true, t) = refl
  topic-after_publish d key db (false, t) = refl

  after_seen-keeps :
      (d : Delivery) (key : String) (event : Event) (r : Option Bool × Db)
      → Q (payment_event d event ∷ topic)
      → Q (after_seen redis d key event topic r).1.topic
  unfolding after_seen
  after_seen-keeps d key event (none, db) h = same
  after_seen-keeps d key event (some true, db) h = same
  after_seen-keeps d key event (some false, db) h =
      rw (topic-after_publish d key db (publish d.marshals d.publish (payment_event d event) topic))
        (publish-keeps Q topic same d.marshals d.publish (payment_event d event) h)

  -- The topic after a delivery to the payment worker: as it was, or with the payment of a placed
  -- order.
  pub handle-keeps :
      (d : Delivery) (id : String) (event : Event) (claims : Db)
      → (event.event_type ≡ type_order_placed → Q (payment_event d event ∷ topic))
      → Q (handle redis d id (some event) (record { db = claims; topic = topic })).1.topic
  unfolding handle
  handle-keeps d id event claims h = elim (Bool-cases (str_eq event.event_type type_order_placed)) [
    | inl e ↦ rw e (
        after_seen-keeps d (dedup_key id) event (seen redis d.seen (dedup_key id) claims)
          (h ((str_eq_iff event.event_type type_order_placed).0 e)))
    | inr e ↦ rw e same
  ]
