-- ===== src/Order/Handlers/Atomic.antt =====
-- Orders and outbox rows stay in step, and what the replies say of the database.
use tf_man.Prelude.{
  ℕ, String, Bool, true, false, not, ◌||◌, ◌≡◌, ◌≢◌, ◌⊎◌, inl, inr, refl, sym, ap, ◌∙◌, Option,
  none, some, List, [], ◌∷◌, ◌++◌, ℤ, ◌==◌, ==_iff, ==_self, is_some, Bool-cases, Option-cases,
  arith,
}
use tf_man.Net.{Answer, done, refused, lost, Reply, error, json, status}
use tf_man.Events.{Codec, type_order_placed}
use tf_man.Outbox.Table.{has_id, insert_outbox_event}
use tf_man.Outbox.Table.Rows.{has_id-insert}
use tf_man.Order.Client.{ReserveError, insufficient_stock}
use tf_man.Order.Db.{Order, CreateOrderParams, Db, get_order, create_order}
use tf_man.Order.Handlers.{
  Uuid, CreateOrderRequest, CreateOrderResponse, CreateEnv, World, placed_event, order_params,
  commit_order, store_payload, store_order, after_reserve, order_id_of, lacks_fields,
  handle_create_order,
}

module _ {P : Type 0} where
  -- Exactly the orders have a row in the outbox.
  abbrev pub InStep : Db P → Type 0
  InStep db = (id : ℕ) → is_some (get_order id db.orders) ≡ has_id id db.outbox

get_order-append :
    (i : ℕ) (orders : List Order) (o : Order)
    → is_some (get_order i (orders ++ o ∷ [])) ≡ (is_some (get_order i orders) || o.id == i)
unfolding get_order
get_order-append i [] o = ground arith
get_order-append i (x ∷ orders) o = ground (arith, get_order-append i orders o)

taken : (i id : ℕ) (b : ℕ → Bool) → b id ≡ true → b i ≡ (b i || id == i)
taken i id b h = elim (Bool-cases (id == i)) [
  | inl e ↦ rw (← (==_iff id i).0 e, h) refl
  | inr e ↦ rw e (ground arith)
]

pub get_order-create :
    (i now : ℕ) (arg : CreateOrderParams) (orders : List Order)
    → is_some (get_order i (create_order now arg orders).1)
      ≡ (is_some (get_order i orders) || arg.id == i)
unfolding create_order
get_order-create i now arg orders = elim (Option-cases (get_order arg.id orders)) [
  | inl e ↦ rw e (get_order-append i orders _)
  | inr (o, e) ↦ rw e (taken i arg.id (λ j. is_some (get_order j orders)) (rw e refl))
]

id-get_order : (i : ℕ) (orders : List Order) {o : Order} → get_order i orders ≡ some o → o.id ≡ i
unfolding get_order
id-get_order i [] e = cc
id-get_order i (x ∷ orders) {o} e = ground (arith, id-get_order i orders {o = o})

get_order-append_self :
    (orders : List Order) (o : Order)
    → get_order o.id orders ≡ none
    → get_order o.id (orders ++ o ∷ []) ≡ some o
unfolding get_order
get_order-append_self [] o e = rw (==_self o.id)
get_order-append_self (x ∷ orders) o e = ground (arith, get_order-append_self orders o)

-- The row that `CreateOrder` returns is the one that is stored under the id.
pub get_order-create_self :
    (now : ℕ) (arg : CreateOrderParams) (orders : List Order)
    → ((create_order now arg orders).0.id ≡ arg.id)
      × (get_order arg.id (create_order now arg orders).1 ≡ some (create_order now arg orders).0)
unfolding create_order
get_order-create_self now arg orders = elim (Option-cases (get_order arg.id orders)) [
  | inl e ↦ rw e (refl, get_order-append_self orders _ e)
  | inr (o, e) ↦ rw e (id-get_order arg.id orders e, e)
]

created_found :
    (now : ℕ) (arg : CreateOrderParams) (orders : List Order) (o : Order)
    → o ≡ (create_order now arg orders).0
    → get_order o.id (create_order now arg orders).1 ≡ some o
created_found now arg orders o same =
    let (id, found) = get_order-create_self now arg orders in
    ap (λ i. get_order i (create_order now arg orders).1) (ap (λ (x : Order). x.id) same ∙ id)
    ∙ found
    ∙ ap some (sym same)

module _ (codec : Codec) (uuid : Uuid) where
  open codec use {Payload, marshal}

  -- What the transaction of a create request writes.
  abbrev pub written : CreateEnv → CreateOrderRequest → ℕ → Payload → Db Payload → Db Payload
  written env req id payload db = record {
    orders = (create_order env.now (order_params codec uuid req id) db.orders).1;
    outbox = insert_outbox_event env.now id type_order_placed payload db.outbox;
  }

  pub written-InStep :
      (env : CreateEnv) (req : CreateOrderRequest) (id : ℕ) (payload : Payload) (db : Db Payload)
      → InStep db
      → InStep (written env req id payload db)
  written-InStep env req id payload db h i =
      get_order-create i env.now (order_params codec uuid req id) db.orders
      ∙ ap (λ b. b || id == i) (h i)
      ∙ sym (has_id-insert i env.now id type_order_placed payload db.outbox)

  -- The database after the transaction: untouched, or with both rows.
  pub data Stored (env : CreateEnv) (req : CreateOrderRequest) (id : ℕ) (db : Db Payload)
      (r : Reply CreateOrderResponse) (t : Db Payload) : Type 0 where
    untouched : r ≡ error 500 "internal error" → t ≡ db → Stored env req id db r t
    unsure :
        (payload : Payload)
        → env.commit ≡ lost
        → r ≡ error 500 "internal error"
        → t ≡ written env req id payload db
        → Stored env req id db r t
    stored :
        (payload : Payload) (o : Order)
        → o ≡ (create_order env.now (order_params codec uuid req id) db.orders).0
        → r ≡ json 201 (record { order_id = uuid.print o.id; status = o.status })
        → t ≡ written env req id payload db
        → Stored env req id db r t

  commit_order-Stored :
      (env : CreateEnv) (req : CreateOrderRequest) (id : ℕ) (db : Db Payload) (p : Payload)
      (a : Answer)
      → env.commit ≡ a
      → let o = (create_order env.now (order_params codec uuid req id) db.orders).0 in
        let r = commit_order codec uuid a o db (written env req id p db) in
        Stored env req id db r.0 r.1
  unfolding commit_order
  commit_order-Stored env req id db p done e = stored p _ refl refl refl
  commit_order-Stored env req id db p refused e = untouched refl refl
  commit_order-Stored env req id db p lost e = unsure p e refl refl

  store_payload-Stored :
      (env : CreateEnv) (req : CreateOrderRequest) (id : ℕ) (db : Db Payload) (p : Option Payload)
      → Stored env req id db
          (store_payload codec uuid env req id db p).0
          (store_payload codec uuid env req id db p).1
  unfolding store_payload
  store_payload-Stored env req id db none = untouched refl refl
  store_payload-Stored env req id db (some p) =
      elim (Bool-cases (not env.begins || not env.inserts_order || not env.inserts_event)) [
        | inl f ↦ simp f (untouched refl refl)
        | inr f ↦ simp f (commit_order-Stored env req id db p env.commit refl)
      ]

  store_order-Stored :
      (env : CreateEnv) (req : CreateOrderRequest) (id : ℕ) (db : Db Payload)
      → Stored env req id db
          (store_order codec uuid env req id db).0
          (store_order codec uuid env req id db).1
  unfolding store_order
  store_order-Stored env req id db =
      store_payload-Stored env req id db (marshal (placed_event codec uuid env req id))

  Stored-InStep :
      {env : CreateEnv} {req : CreateOrderRequest} {id : ℕ} {db t : Db Payload}
      {r : Reply CreateOrderResponse}
      → Stored env req id db r t
      → InStep db
      → InStep t
  Stored-InStep {env} {req} {id} {db} (untouched _ e) h = rw e h
  Stored-InStep {env} {req} {id} {db} (unsure p _ _ e) h = rw e (written-InStep env req id p db h)
  Stored-InStep {env} {req} {id} {db} (stored p o _ _ e) h = rw e (written-InStep env req id p db h)

  module _ {S : Type 0} (reserve : String → ℤ → String → S → Option ReserveError × S) where
    -- The ways through `handleCreateOrder`, by the reply and the database that it leaves.
    pub data Created (env : CreateEnv) (asked : Option CreateOrderRequest) (db : Db Payload)
        (r : Reply CreateOrderResponse) (t : Db Payload) : Type 0 where
      refused_early : status r ≢ 201 → t ≡ db → Created env asked db r t
      reached :
          (req : CreateOrderRequest) (id : ℕ)
          → asked ≡ some req
          → lacks_fields req ≡ false
          → order_id_of codec uuid env req ≡ some id
          → Stored env req id db r t
          → Created env asked db r t

    after_reserve-Created :
        (env : CreateEnv) (req : CreateOrderRequest) (id : ℕ) (db : Db Payload)
        (res : Option ReserveError × S)
        → lacks_fields req ≡ false
        → order_id_of codec uuid env req ≡ some id
        → Created env
            (some req)
            db
            (after_reserve codec uuid reserve env req id db res).0
            (after_reserve codec uuid reserve env req id db res).1.db
    unfolding after_reserve
    after_reserve-Created env req id db (none, net) f e =
        reached req id refl f e (store_order-Stored env req id db)
    after_reserve-Created env req id db (some insufficient_stock, net) f e =
        refused_early (omega arith) refl
    after_reserve-Created env req id db (some _, net) f e = refused_early (omega arith) refl

    pub handle_create_order-Created :
        (env : CreateEnv) (req : Option CreateOrderRequest) (w : World Payload S)
        → Created env req w.db
            (handle_create_order codec uuid reserve env req w).0
            (handle_create_order codec uuid reserve env req w).1.db
    unfolding handle_create_order
    handle_create_order-Created env none w = refused_early (omega arith) refl
    handle_create_order-Created env (some req) w = elim (Bool-cases (lacks_fields req)) [
      | inl f ↦ rw f (refused_early (omega arith) refl)
      | inr f ↦ rw f (elim (Option-cases (order_id_of codec uuid env req)) [
        | inl e ↦ rw e (refused_early (omega arith) refl)
        | inr (id, e) ↦ rw e (
            after_reserve-Created env req id w.db
              (reserve req.item_id req.quantity (uuid.print id) w.net) f e)
      ])
    ]

    -- Whatever the request, the inventory and PostgreSQL do, an order is recorded exactly when its
    -- event is: orders and outbox stay in step.
    handle_create_order-InStep :
        (env : CreateEnv) (req : Option CreateOrderRequest) (w : World Payload S)
        → InStep w.db
        → InStep (handle_create_order codec uuid reserve env req w).1.db
    handle_create_order-InStep env req w h = elim (handle_create_order-Created env req w) [
      | refused_early _ e ↦ rw e h
      | reached req' id _ _ _ st ↦ Stored-InStep st h
    ]

    -- A reply other than 201 leaves the database alone, unless it hides a commit that took effect;
    -- a reply of 201 comes with a stored order, and reports its id and its status.
    pub handle_create_order_reply :
        (env : CreateEnv) (req : Option CreateOrderRequest) (w : World Payload S)
        → let (r, v) = handle_create_order codec uuid reserve env req w in
          (status r ≢ 201 → (v.db ≡ w.db) ⊎ (env.commit ≡ lost))
          × (status r ≡ 201
              → (o : Order) × (get_order o.id v.db.orders ≡ some o)
                × (r ≡ json 201 (record { order_id = uuid.print o.id; status = o.status })))
    handle_create_order_reply env req w = elim (handle_create_order-Created env req w) [
      | refused_early other e ↦ (λ _. inl e, λ h. absurd (other h))
      | reached req' id _ _ _ (untouched r e) ↦ (λ _. inl e, λ h. absurd (not_201 r h))
      | reached req' id _ _ _ (unsure p lost_commit r e) ↦
          (λ _. inr lost_commit, λ h. absurd (not_201 r h))
      | reached req' id _ _ _ (stored p o same r e) ↦ (
        λ other. absurd (other (ap status r)),
        λ h. (
          o,
          ap (get_order o.id) (ap (λ (d : Db Payload). d.orders) e)
              ∙ created_found env.now (order_params codec uuid req' id) w.db.orders o same,
          r,
        ),
      )
    ]
      where
        not_201 :
            {r : Reply CreateOrderResponse} → r ≡ error 500 "internal error" → status r ≡ 201 → ⊥
        not_201 e h = absurd (omega (arith, ap status e, h))
