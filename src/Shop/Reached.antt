-- ===== src/Shop/Reached.antt =====
-- Every state that the shop reaches is one whose events and statuses can be traced.
use mathlib.Core.List.{Memᴰ}
use tf_man.Prelude.{
  inl, inr, str_eq, arith, ℕ, String, ◌||◌, ◌≡◌, ◌==◌, refl, sym, ap, ◌∙◌, Option, some, List, ◌∷◌,
  ℤ, some-injective, All-imp, All-mem,
}
use tf_man.Redis.{Redis}
use tf_man.Events.{Event, Codec, type_order_placed, type_fraud_flagged}
use tf_man.Outbox.Table.{Row, has_id}
use tf_man.Outbox.Table.Rows.{has_id-mark, mem-has_id, mark-All, insert-All}
use tf_man.Order.Client.{ReserveError}
use tf_man.Order.Db.{Order, Db, get_order, update_order_status}
use tf_man.Order.Handlers.{Uuid, CreateOrderRequest, CreateEnv, placed_event, order_params}
use tf_man.Order.Handlers.Atomic.{written, written-InStep, get_order-create}
use tf_man.Order.Handlers.Keeps.{handle_create_order-keeps}
use tf_man.Order.Relay.Keeps.{publish_next_outbox_event-keeps}
use tf_man.Order.Status.{status_of}
use tf_man.Order.Status.Effect.{is_some-update}
use tf_man.Order.Status.Keeps.{handle_status_event-keeps}
use tf_man.Worker.Payment.{Delivery, payment_event}
use tf_man.Worker.Payment.Keeps.{handle-keeps}
use tf_man.Worker.Fraud
use tf_man.Worker.Fraud.Keeps
use tf_man.Shop.{Shop, Step, create, relay, pay, settle, watch, Reach, here, next}
use tf_man.Shop.Traced.{
  IsPlaced, IsKnown, IsTraced, IsTraced-more, IsKnown-later, create-IsSettled, update-IsSettled,
}

module _ (codec : Codec) (uuid : Uuid)
    (parse-print : (n : ℕ) → uuid.parse (uuid.print n) ≡ some n) where
  open codec use {Payload, marshal, unmarshal}

  written-IsTraced :
      (env : CreateEnv) (req : CreateOrderRequest) (id : ℕ) (p : Payload) (db : Db Payload)
      (topic : List Event)
      → marshal (placed_event codec uuid env req id) ≡ some p
      → IsTraced codec uuid db topic
      → IsTraced codec uuid (written codec uuid env req id p db) topic
  unfolding placed_event
  written-IsTraced env req id p db topic e h = record {
    in_step = written-InStep codec uuid env req id p db h.in_step;
    rows =
        insert-All (IsPlaced codec uuid) env.now id type_order_placed p db.outbox
          (λ _ x u.
            let same = some-injective (sym (codec.round_trip _ p e) ∙ u) in
            (
              ap (λ (y : Event). y.event_type) (sym same) ∙ codec.type-decoded _,
              ap (λ (y : Event). y.order_id) (sym same) ∙ codec.order_id-decoded _,
            ))
          h.rows;
    about =
        All-imp _ _ topic
          (λ x. IsKnown-later codec uuid db.orders _ topic x λ i k.
            get_order-create i env.now (order_params codec uuid req id) db.orders
            ∙ ap (λ b. b || id == i) k)
          h.about;
    settled =
        create-IsSettled codec uuid topic env.now (order_params codec uuid req id) db.orders refl
          h.settled;
  }

  updated-IsTraced :
      (db : Db Payload) (topic : List Event) (e : Event) (id : ℕ) (status : String)
      → Memᴰ e topic
      → status_of e ≡ some status
      → uuid.parse e.order_id ≡ some id
      → IsTraced codec uuid db topic
      → IsTraced codec uuid (record db { orders = update_order_status id status db.orders }) topic
  updated-IsTraced db topic e id status m s n h = record {
    in_step = λ i. is_some-update i id status db.orders ∙ h.in_step i;
    rows = h.rows;
    about =
        All-imp _ _ topic
          (λ x.
            IsKnown-later codec uuid db.orders _ topic x
              λ i k. is_some-update i id status db.orders ∙ k)
          h.about;
    settled = update-IsSettled codec uuid topic id status e db.orders m s n h.settled;
  }

  -- The event of a row is on the topic.
  sent-IsTraced :
      (orders : List Order) (row : Row Payload) (rows : List (Row Payload)) (topic : List Event)
      (e : Event)
      → Memᴰ row rows
      → unmarshal row.payload ≡ some e
      → IsTraced codec uuid (record { orders = orders; outbox = rows }) topic
      → IsTraced codec uuid (record { orders = orders; outbox = rows }) (e ∷ topic)
  sent-IsTraced orders row rows topic e m u h =
      let (placed, named) = All-mem (λ r. IsPlaced codec uuid r.id r.payload) rows h.rows m e u in
      IsTraced-more codec uuid (record { orders = orders; outbox = rows }) topic e
        (inr (record {
          id = row.id;
          named = ap uuid.parse named ∙ parse-print row.id;
          exists = h.in_step row.id ∙ mem-has_id rows m;
          origin = e;
          sent = Memᴰ.head refl;
          placed = placed;
          same = refl;
        }))
        h

  paid-IsKnown :
      (orders : List Order) (topic : List Event) (d : Delivery) (e : Event)
      → Memᴰ e topic
      → e.event_type ≡ type_order_placed
      → IsKnown codec uuid orders topic e
      → IsKnown codec uuid orders (payment_event d e ∷ topic) (payment_event d e)
  unfolding payment_event
  paid-IsKnown orders topic d e m placed (inl flagged) = absurd (clash (sym placed ∙ flagged))
    where
      clash : type_order_placed ≡ type_fraud_flagged → ⊥
      clash q = ground (arith, ap (str_eq type_order_placed) q)
  paid-IsKnown orders topic d e m placed (inr a) = inr (record {
    id = a.id;
    named = a.named;
    exists = a.exists;
    origin = e;
    sent = Memᴰ.tail m;
    placed = placed;
    same = refl;
  })

  -- The payment of a placed event is on the topic.
  paid-IsTraced :
      (db : Db Payload) (topic : List Event) (d : Delivery) (e : Event)
      → Memᴰ e topic
      → e.event_type ≡ type_order_placed
      → IsTraced codec uuid db topic
      → IsTraced codec uuid db (payment_event d e ∷ topic)
  paid-IsTraced db topic d e m placed h =
      IsTraced-more codec uuid db topic (payment_event d e)
        (paid-IsKnown db.orders topic d e m placed
          (All-mem (IsKnown codec uuid db.orders topic) topic h.about m))
        h

  module _ (redis : Redis) {S : Type 0}
      (reserve : String → ℤ → String → S → Option ReserveError × S) where
    Step-IsTraced :
        {s t : Shop Payload S redis.Db}
        → Step codec uuid redis reserve s t
        → IsTraced codec uuid s.db s.topic
        → IsTraced codec uuid t.db t.topic
    unfolding Fraud.fraud_event
    Step-IsTraced {s} (create env req) h =
        handle_create_order-keeps codec uuid (λ db. IsTraced codec uuid db s.topic) s.db h
          (λ env req id p e. written-IsTraced env req id p s.db s.topic e h) reserve env req s.net
    Step-IsTraced {s} (relay env) h =
        publish_next_outbox_event-keeps codec
          (λ rows topic. IsTraced codec uuid (record { orders = s.db.orders; outbox = rows }) topic)
          env (record { rows = s.db.outbox; sink = s.topic })
          (λ id rows topic k. record {
            in_step = λ i. k.in_step i ∙ sym (has_id-mark i id rows);
            rows = mark-All (IsPlaced codec uuid) id rows k.rows;
            about = k.about;
            settled = k.settled;
          })
          (λ row rows topic e m u k. sent-IsTraced s.db.orders row rows topic e m u k) h
    Step-IsTraced {s} (pay d id e m) h =
        handle-keeps redis (λ topic. IsTraced codec uuid s.db topic) s.topic h d id e s.claims
          λ placed. paid-IsTraced s.db s.topic d e m placed h
    Step-IsTraced {s} (watch detector v id e m) h =
        Keeps.handle-keeps redis detector v e (λ topic. IsTraced codec uuid s.db topic) s.topic h
          (λ count.
            IsTraced-more codec uuid s.db s.topic (Fraud.fraud_event redis detector v e count)
              (inl refl) h)
          id s.claims
    Step-IsTraced {s} (settle answer e m) h =
        handle_status_event-keeps uuid (λ db. IsTraced codec uuid db s.topic) s.db h answer e
          λ i status st n. updated-IsTraced s.db s.topic e i status m st n h

    -- In every reachable state of the shop, whatever fails: exactly the orders have an outbox row, the
    -- event in a row is the placed event of its order, every event on the topic that is no fraud alert
    -- is about a stored order whose placed event is on the topic, and an order whose status is not
    -- `pending_payment` has the status that an event on the topic for it gives. A UUID that was
    -- printed is taken to be parsed to the same UUID.
    pub Reach-IsTraced :
        {net : S} {claims : redis.Db} {s : Shop Payload S redis.Db}
        → Reach codec uuid redis reserve net claims s
        → IsTraced codec uuid s.db s.topic
    unfolding get_order has_id
    Reach-IsTraced here = record { in_step = λ i. refl; rows = tt; about = tt; settled = tt }
    Reach-IsTraced (next r step) = Step-IsTraced step (Reach-IsTraced r)
