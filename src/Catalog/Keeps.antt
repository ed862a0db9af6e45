-- ===== src/Catalog/Keeps.antt =====
-- What a create request does to the products and their outbox, for invariants of them.
use tf_man.Prelude.{not, ◌||◌, ◌≡◌, ℕ, inl, inr, refl, Option, none, some, Bool-cases}
use tf_man.Net.{Answer, done, refused, lost}
use tf_man.Outbox.Table.{insert_outbox_event}
use tf_man.Order.Handlers.{Uuid}
use tf_man.Catalog.Products.{Db, create_product}
use tf_man.Catalog.{
  CreateProductRequest, ProductEnv, DocCodec, request_doc, product_params, commit_product,
  store_doc, product_id_of, with_product_id, lacks_fields, handle_create_product,
}

module _ (codec : DocCodec) (uuid : Uuid) where
  open codec use {Payload, marshal}

  -- What the transaction of a create request writes.
  abbrev pub written : ProductEnv → CreateProductRequest → ℕ → Payload → Db Payload → Db Payload
  written env req id payload db = record {
    products = (create_product env.now (product_params codec uuid req id) db.products).1;
    outbox = insert_outbox_event env.now id "ProductIndexed" payload db.outbox;
  }

  module _ (Q : Db Payload → Type 0) (db : Db Payload) (same : Q db)
      (wrote : (env : ProductEnv) (req : CreateProductRequest) (id : ℕ) (p : Payload)
        → marshal (request_doc codec uuid req id) ≡ some p
        → Q (written env req id p db)) where
    commit_product-keeps :
        (env : ProductEnv) (req : CreateProductRequest) (id : ℕ) (p : Payload) (a : Answer)
        → marshal (request_doc codec uuid req id) ≡ some p
        → let made = (create_product env.now (product_params codec uuid req id) db.products).0 in
          Q (commit_product codec uuid a made db (written env req id p db)).1
    unfolding commit_product
    commit_product-keeps env req id p done e = wrote env req id p e
    commit_product-keeps env req id p refused e = same
    commit_product-keeps env req id p lost e = wrote env req id p e

    store_doc-keeps :
        (env : ProductEnv) (req : CreateProductRequest) (id : ℕ) (p : Option Payload)
        → marshal (request_doc codec uuid req id) ≡ p
        → Q (store_doc codec uuid env req id db p).1
    unfolding store_doc
    store_doc-keeps env req id none e = same
    store_doc-keeps env req id (some p) e =
        elim (Bool-cases (not env.begins || not env.inserts_product || not env.inserts_event)) [
          | inl f ↦ simp f same
          | inr f ↦ simp f (commit_product-keeps env req id p env.commit e)
        ]

    with_product_id-keeps :
        (env : ProductEnv) (req : CreateProductRequest) (id : Option ℕ)
        → Q (with_product_id codec uuid env req id db).1
    unfolding with_product_id
    with_product_id-keeps env req none = same
    with_product_id-keeps env req (some id) = store_doc-keeps env req id _ refl

    -- The database after a create request: as it was, or with what the transaction writes for the
    -- marshalled document of the request.
    pub handle_create_product-keeps :
        (env : ProductEnv) (req : Option CreateProductRequest)
        → Q (handle_create_product codec uuid env req db).1
    unfolding handle_create_product
    handle_create_product-keeps env none = same
    handle_create_product-keeps env (some req) = elim (Bool-cases (lacks_fields req)) [
      | inl f ↦ rw f same
      | inr f ↦ rw f (with_product_id-keeps env req (product_id_of codec uuid env req))
    ]
