-- ===== src/Shop/Traced.antt =====
-- Where the events on the topic and the statuses of the orders come from.
use mathlib.Core.List.{Memᴰ}
use tf_man.Prelude.{
  ℕ, String, true, ◌≡◌, ◌⊎◌, inl, inr, sym, ap, ◌∙◌, some, List, [], ◌∷◌, ◌==◌, ==_iff, is_some,
  Bool-cases, Option-cases, All, All-append, All-imp,
}
use tf_man.Events.{Event, Codec, type_order_placed, type_fraud_flagged}
use tf_man.Order.Db.{Order, CreateOrderParams, Db, get_order, create_order, update_order_status}
use tf_man.Order.Handlers.{Uuid}
use tf_man.Order.Handlers.Atomic.{InStep}
use tf_man.Order.Status.{status_of}

module _ (codec : Codec) (uuid : Uuid) where
  open codec use {Payload, marshal, unmarshal}

  -- The event of a payload, in the row with an id, is the placed event of the order with that id.
  abbrev pub IsPlaced : ℕ → Payload → Type 0
  IsPlaced id p =
      (e : Event)
      → unmarshal p ≡ some e
      → (e.event_type ≡ type_order_placed) × (e.order_id ≡ uuid.print id)

  -- An event on the topic is about an order that is stored, and one that was published as placed.
  pub record IsAbout (orders : List Order) (topic : List Event) (e : Event) : Type 0 where
    pub id : ℕ
    pub named : uuid.parse e.order_id ≡ some id
    pub exists : is_some (get_order id orders) ≡ true
    pub origin : Event
    pub sent : Memᴰ origin topic
    pub placed : origin.event_type ≡ type_order_placed
    pub same : origin.order_id ≡ e.order_id

  -- An order waits for its payment, or has the status that an event on the topic for it gives.
  abbrev pub IsSettled : List Event → Order → Type 0
  IsSettled topic o =
      (o.status ≡ "pending_payment")
      ⊎ ((e : Event) × Memᴰ e topic
          × (status_of e ≡ some o.status)
          × (uuid.parse e.order_id ≡ some o.id))

  -- An alert, which names no order, or an event about an order.
  abbrev pub IsKnown : List Order → List Event → Event → Type 0
  IsKnown orders topic e = (e.event_type ≡ type_fraud_flagged) ⊎ IsAbout orders topic e

  pub record IsTraced (db : Db Payload) (topic : List Event) : Type 0 where
    pub in_step : InStep db
    pub rows : All (λ r. IsPlaced r.id r.payload) db.outbox
    pub about : All (IsKnown db.orders topic) topic
    pub settled : All (IsSettled topic) db.orders

  IsKnown-more :
      (orders : List Order) (topic : List Event) (e x : Event)
      → IsKnown orders topic x
      → IsKnown orders (e ∷ topic) x
  IsKnown-more orders topic e x (inl flagged) = inl flagged
  IsKnown-more orders topic e x (inr h) = inr (record {
    id = h.id;
    named = h.named;
    exists = h.exists;
    origin = h.origin;
    sent = Memᴰ.tail h.sent;
    placed = h.placed;
    same = h.same;
  })

  pub IsKnown-later :
      (orders after : List Order) (topic : List Event) (x : Event)
      → ((i : ℕ) → is_some (get_order i orders) ≡ true → is_some (get_order i after) ≡ true)
      → IsKnown orders topic x
      → IsKnown after topic x
  IsKnown-later orders after topic x f (inl flagged) = inl flagged
  IsKnown-later orders after topic x f (inr h) = inr (record {
    id = h.id;
    named = h.named;
    exists = f h.id h.exists;
    origin = h.origin;
    sent = h.sent;
    placed = h.placed;
    same = h.same;
  })

  IsSettled-more :
      (topic : List Event) (e : Event) (o : Order) → IsSettled topic o → IsSettled (e ∷ topic) o
  IsSettled-more topic e o (inl p) = inl p
  IsSettled-more topic e o (inr (x, m, s, n)) = inr (x, Memᴰ.tail m, s, n)

  -- One more event on the topic.
  pub IsTraced-more :
      (db : Db Payload) (topic : List Event) (e : Event)
      → IsKnown db.orders (e ∷ topic) e
      → IsTraced db topic
      → IsTraced db (e ∷ topic)
  IsTraced-more db topic e new h = record {
    in_step = h.in_step;
    rows = h.rows;
    about = (new, All-imp _ _ topic (λ x. IsKnown-more db.orders topic e x) h.about);
    settled = All-imp _ _ db.orders (IsSettled-more topic e) h.settled;
  }

  pub create-IsSettled :
      (topic : List Event) (now : ℕ) (arg : CreateOrderParams) (orders : List Order)
      → arg.status ≡ "pending_payment"
      → All (IsSettled topic) orders
      → All (IsSettled topic) (create_order now arg orders).1
  unfolding create_order
  create-IsSettled topic now arg orders waits h = elim (Option-cases (get_order arg.id orders)) [
    | inl e ↦ rw e (All-append (IsSettled topic) orders _ h (inl waits, tt))
    | inr (o, e) ↦ rw e h
  ]

  pub update-IsSettled :
      (topic : List Event) (id : ℕ) (status : String) (e : Event) (orders : List Order)
      → Memᴰ e topic
      → status_of e ≡ some status
      → uuid.parse e.order_id ≡ some id
      → All (IsSettled topic) orders
      → All (IsSettled topic) (update_order_status id status orders)
  unfolding update_order_status
  update-IsSettled topic id status e [] m s n h = tt
  update-IsSettled topic id status e (o ∷ orders) m s n (p, h) = elim (Bool-cases (o.id == id)) [
    | inl same ↦ rw same (
      inr (e, m, s, n ∙ ap some (sym ((==_iff o.id id).0 same))),
      update-IsSettled topic id status e orders m s n h,
    )
    | inr other ↦ rw other (p, update-IsSettled topic id status e orders m s n h)
  ]
