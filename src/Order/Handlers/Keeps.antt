-- ===== src/Order/Handlers/Keeps.antt =====
-- What a create request does to the database, for invariants of it.
use tf_man.Prelude.{
  ℕ, String, not, ◌||◌, ◌≡◌, inl, inr, refl, Option, none, some, ℤ, Bool-cases, Option-cases,
}
use tf_man.Net.{Answer, done, refused, lost}
use tf_man.Events.{Codec}
use tf_man.Order.Client.{ReserveError, insufficient_stock}
use tf_man.Order.Db.{Db, create_order}
use tf_man.Order.Handlers.{
  Uuid, CreateOrderRequest, CreateEnv, placed_event, order_params, commit_order, store_payload,
  store_order, after_reserve, lacks_fields, order_id_of, handle_create_order,
}
use tf_man.Order.Handlers.Atomic.{written}

module _ (codec : Codec) (uuid : Uuid) where
  open codec use {Payload, marshal}

  -- The database after a create request: as it was, or with what the transaction writes for the
  -- marshalled event of the order.
  module _ (Q : Db Payload → Type 0) (db : Db Payload) (same : Q db)
      (wrote : (env : CreateEnv) (req : CreateOrderRequest) (id : ℕ) (p : Payload)
        → marshal (placed_event codec uuid env req id) ≡ some p
        → Q (written codec uuid env req id p db)) where
    commit_order-keeps :
        (env : CreateEnv) (req : CreateOrderRequest) (id : ℕ) (p : Payload) (a : Answer)
        → marshal (placed_event codec uuid env req id) ≡ some p
        → let o = (create_order env.now (order_params codec uuid req id) db.orders).0 in
          Q (commit_order codec uuid a o db (written codec uuid env req id p db)).1
    unfolding commit_order
    commit_order-keeps env req id p done e = wrote env req id p e
    commit_order-keeps env req id p refused e = same
    commit_order-keeps env req id p lost e = wrote env req id p e

    store_payload-keeps :
        (env : CreateEnv) (req : CreateOrderRequest) (id : ℕ) (p : Option Payload)
        → marshal (placed_event codec uuid env req id) ≡ p
        → Q (store_payload codec uuid env req id db p).1
    unfolding store_payload
    store_payload-keeps env req id none e = same
    store_payload-keeps env req id (some p) e =
        elim (Bool-cases (not env.begins || not env.inserts_order || not env.inserts_event)) [
          | inl f ↦ simp f same
          | inr f ↦ simp f (commit_order-keeps env req id p env.commit e)
        ]

    store_order-keeps :
        (env : CreateEnv) (req : CreateOrderRequest) (id : ℕ)
        → Q (store_order codec uuid env req id db).1
    unfolding store_order
    store_order-keeps env req id = store_payload-keeps env req id _ refl

    module _ {S : Type 0} (reserve : String → ℤ → String → S → Option ReserveError × S) where
      after_reserve-keeps :
          (env : CreateEnv) (req : CreateOrderRequest) (id : ℕ) (res : Option ReserveError × S)
          → Q (after_reserve codec uuid reserve env req id db res).1.db
      unfolding after_reserve
      after_reserve-keeps env req id (none, net) = store_order-keeps env req id
      after_reserve-keeps env req id (some insufficient_stock, net) = same
      after_reserve-keeps env req id (some _, net) = same

      pub handle_create_order-keeps :
          (env : CreateEnv) (req : Option CreateOrderRequest) (net : S)
          → Q (handle_create_order codec uuid reserve env req (record { db = db; net = net })).1.db
      unfolding handle_create_order
      handle_create_order-keeps env none net = same
      handle_create_order-keeps env (some req) net = elim (Bool-cases (lacks_fields req)) [
        | inl f ↦ rw f same
        | inr f ↦ rw f (elim (Option-cases (order_id_of codec uuid env req)) [
          | inl e ↦ rw e same
          | inr (id, e) ↦ rw e (
              after_reserve-keeps env req id (reserve req.item_id req.quantity (uuid.print id) net))
        ])
      ]
