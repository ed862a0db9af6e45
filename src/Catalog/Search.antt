-- ===== src/Catalog/Search.antt =====
-- The catalog's database and its search index, over any row of create requests and relay rounds.
use tf_man.Prelude.{
  ℕ, ◌||◌, ◌≡◌, refl, sym, ap, ◌∙◌, inl, inr, Option, none, some, List, [], ◌∷◌, ◌++◌, ◌==◌,
  ==_self, is_some, Option-cases, All, All-imp, All-mem, arith,
}
use tf_man.Net.{Answer, done, refused, lost}
use tf_man.Outbox.Table.{has_id, insert_outbox_event}
use tf_man.Outbox.Table.Rows.{has_id-insert, has_id-mark, mark-All, insert-All}
use tf_man.Outbox.Relay.{Round}
use tf_man.Outbox.Relay.Keeps.{relay_next-Holds}
use tf_man.Order.Handlers.{Uuid}
use tf_man.Catalog.Products.{Product, Db, get_product, create_product}
use tf_man.Catalog.{
  CreateProductRequest, ProductEnv, DocCodec, Index, request_doc, product_params, product_doc,
  index_row, index_next_outbox_event, handle_create_product,
}
use tf_man.Catalog.Keeps.{written, handle_create_product-keeps}

get_product-append :
    (i : ℕ) (products : List Product) (p : Product)
    → is_some (get_product i (products ++ p ∷ [])) ≡ (is_some (get_product i products) || p.id == i)
unfolding get_product
get_product-append i [] p = ground arith
get_product-append i (x ∷ products) p = ground (arith, get_product-append i products p)

get_product-append_old :
    (i : ℕ) (products : List Product) (p q : Product)
    → get_product i products ≡ some q
    → get_product i (products ++ p ∷ []) ≡ some q
unfolding get_product
get_product-append_old i [] p q e = cc
get_product-append_old i (x ∷ products) p q e =
    ground (arith, get_product-append_old i products p q)

get_product-append_new :
    (products : List Product) (p : Product)
    → get_product p.id products ≡ none
    → get_product p.id (products ++ p ∷ []) ≡ some p
unfolding get_product
get_product-append_new [] p e = rw (==_self p.id)
get_product-append_new (x ∷ products) p e = ground (arith, get_product-append_new products p)

module _ (codec : DocCodec) (uuid : Uuid) where
  open codec use {Payload, marshal}

  -- The payload is the document of the stored product with the id.
  abbrev pub IsDoc : List Product → ℕ → Payload → Type 0
  IsDoc products id payload =
      (p : Product) × (get_product id products ≡ some p)
      × (marshal (product_doc codec uuid p) ≡ some payload)

  -- Exactly the products have an outbox row, and rows and index hold their documents.
  pub record IsFaithful (db : Db Payload) (index : Index Payload) : Type 0 where
    pub in_step : (id : ℕ) → is_some (get_product id db.products) ≡ has_id id db.outbox
    pub rows : All (λ r. IsDoc db.products r.id r.payload) db.outbox
    pub indexed : All (λ (id, payload). IsDoc db.products id payload) index

  -- A new product.
  module _ (env : ProductEnv) (req : CreateProductRequest) (id : ℕ) (payload : Payload)
      (db : Db Payload) (index : Index Payload)
      (e : marshal (request_doc codec uuid req id) ≡ some payload) where
    abbrev made : Product
    made = record {
      id = id;
      name = req.name;
      description = req.description;
      price_cents = (product_params codec uuid req id).price_cents;
      created_at = env.now;
    }

    added-IsFaithful :
        get_product id db.products ≡ none
        → IsFaithful db index
        → IsFaithful
            (record {
              products = db.products ++ made ∷ [];
              outbox = insert_outbox_event env.now id "ProductIndexed" payload db.outbox;
            })
            index
    added-IsFaithful free h =
        let older : (i : ℕ) (p : Payload)
            → IsDoc db.products i p
            → IsDoc (db.products ++ made ∷ []) i p =
          λ i p (q, found, doc). (q, get_product-append_old i db.products made q found, doc) in
        record {
          in_step = λ i.
              get_product-append i db.products made
              ∙ ap (λ b. b || id == i) (h.in_step i)
              ∙ sym (has_id-insert i env.now id "ProductIndexed" payload db.outbox);
          rows =
              insert-All (IsDoc (db.products ++ made ∷ [])) env.now id "ProductIndexed" payload
                db.outbox (λ _. (made, get_product-append_new db.products made free, e))
                (All-imp _ _ db.outbox (λ r. older r.id r.payload) h.rows);
          indexed = All-imp _ _ index (λ (i, p). older i p) h.indexed;
        }

    written-IsFaithful :
        IsFaithful db index → IsFaithful (written codec uuid env req id payload db) index
    unfolding create_product insert_outbox_event
    written-IsFaithful h = elim (Option-cases (get_product id db.products)) [
      | inl free ↦ rw free (added-IsFaithful free h)
      | inr (p, found) ↦ rw (found, sym (h.in_step id) ∙ ap is_some found) h
    ]

  index_row-IsFaithful :
      (a : Answer) (id : ℕ) (p : Payload) (db : Db Payload) (index : Index Payload)
      → IsDoc db.products id p
      → IsFaithful db index
      → IsFaithful db (index_row a id p index).1
  unfolding index_row
  index_row-IsFaithful done id p db index new h = record {
    in_step = h.in_step;
    rows = h.rows;
    indexed = (new, h.indexed);
  }
  index_row-IsFaithful refused id p db index new h = h
  index_row-IsFaithful lost id p db index new h = record {
    in_step = h.in_step;
    rows = h.rows;
    indexed = (new, h.indexed);
  }

  -- The database, and OpenSearch's index.
  pub record Catalog : Type 0 where
    pub db : Db Payload
    pub index : Index Payload

  abbrev pub created : ProductEnv → Option CreateProductRequest → Catalog → Catalog
  created env req s = record s { db = (handle_create_product codec uuid env req s.db).1 }

  abbrev pub relayed : Round → Catalog → Catalog
  relayed env s =
      let o = (index_next_outbox_event env (record { rows = s.db.outbox; sink = s.index })).2 in
      record { db = record (s.db) { outbox = o.rows }; index = o.sink }

  -- The states that create requests and rounds of the relay reach from an empty catalog.
  pub data Reach : Catalog → Type 0 where
    here : Reach (record { db = record { products = []; outbox = [] }; index = [] })
    create :
        {s : Catalog} (env : ProductEnv) (req : Option CreateProductRequest)
        → Reach s
        → Reach (created env req s)
    index : {s : Catalog} (env : Round) → Reach s → Reach (relayed env s)

  relayed-IsFaithful :
      (env : Round) (s : Catalog)
      → IsFaithful s.db s.index
      → IsFaithful (relayed env s).db (relayed env s).index
  unfolding index_next_outbox_event
  relayed-IsFaithful env s h =
      relay_next-Holds index_row
        (λ rows index. IsFaithful (record { products = s.db.products; outbox = rows }) index)
        (λ id rows index k. record {
          in_step = λ i. k.in_step i ∙ sym (has_id-mark i id rows);
          rows = mark-All (IsDoc s.db.products) id rows k.rows;
          indexed = k.indexed;
        })
        (λ a row rows index m k.
          index_row-IsFaithful a row.id row.payload
            (record { products = s.db.products; outbox = rows }) index
            (All-mem (λ r. IsDoc s.db.products r.id r.payload) rows k.rows m) k)
        env (record { rows = s.db.outbox; sink = s.index }) h

  -- Whatever fails and however often a request is repeated: exactly the products have an outbox row,
  -- and every document in the outbox and in the search index is that of the product that is stored
  -- under its id.
  pub Reach-IsFaithful : {s : Catalog} → Reach s → IsFaithful s.db s.index
  unfolding get_product has_id
  Reach-IsFaithful here = record { in_step = λ i. refl; rows = tt; indexed = tt }
  Reach-IsFaithful (create {s} env req r) =
      handle_create_product-keeps codec uuid (λ db. IsFaithful db s.index) s.db (Reach-IsFaithful r)
        (λ env req id p e. written-IsFaithful env req id p s.db s.index e (Reach-IsFaithful r)) env
        req
  Reach-IsFaithful (index {s} env r) = relayed-IsFaithful env s (Reach-IsFaithful r)
