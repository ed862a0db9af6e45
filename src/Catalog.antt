-- ===== src/Catalog.antt =====
-- stampede/apps/catalog-service/main.go: the HTTP handlers and the relay that fills the search index.
pub mod Laws
pub mod Keeps
pub mod Search
pub mod Products
mod Tests
use tf_man.Prelude.{
  ℕ, String, Bool, true, false, not, ◌||◌, Option, none, some, List, [], ◌∷◌, ℤ, pos, int32, leb_ℤ,
  str_eq, if◌then◌else◌,
}
use tf_man.Net.{Answer, done, refused, lost, Reply, error, bare, json}
use tf_man.Outbox.Table.{insert_outbox_event}
use tf_man.Outbox.Relay.{Round, Outbox, RelayError, relay_next, relay_batch, relay_ticks}
use tf_man.Order.Handlers.{Uuid}
use tf_man.Catalog.Products.{Product, CreateProductParams, Db, get_product, create_product}

pub record ProductDoc : Type 0 where
  pub id : String
  pub name : String
  pub description : String
  pub price_cents : ℤ

pub record CreateProductRequest : Type 0 where
  pub name : String
  pub description : String
  pub price_cents : ℤ
  pub idempotency_key : String

-- What the clock, the UUID generator and PostgreSQL answer to one request.
pub record ProductEnv : Type 0 where
  pub fresh : ℕ
  pub now : ℕ
  pub begins : Bool
  pub inserts_product : Bool
  pub inserts_event : Bool
  pub commit : Answer

-- `encoding/json` on documents.
pub record DocCodec : Type 1 where
  pub Payload : Type 0
  pub marshal : ProductDoc → Option Payload
  pub unmarshal : Payload → Option ProductDoc

-- The index: for every document that OpenSearch took, its id and its body, newest first.
abbrev pub Index : Type 0 → Type 0
Index P = List (ℕ × P)

-- `s.os.Doc.Index`
pub index_row : {P : Type 0} → Answer → ℕ → P → Index P → Bool × Index P
index_row done id payload index = (true, (id, payload) ∷ index)
index_row refused id payload index = (false, index)
index_row lost id payload index = (false, (id, payload) ∷ index)

-- Whether there was work, the error, and the outbox with the index.
pub index_next_outbox_event :
    {P : Type 0} → Round → Outbox P (Index P) → Bool × Option RelayError × Outbox P (Index P)
index_next_outbox_event env s = relay_next index_row env s

pub index_outbox_batch : {P : Type 0} → (ℕ → Round) → Outbox P (Index P) → Outbox P (Index P)
index_outbox_batch env s = relay_batch index_row env s

pub run_outbox_relay : {P : Type 0} → List (ℕ → Round) → Outbox P (Index P) → Outbox P (Index P)
run_outbox_relay ticks s = relay_ticks index_row ticks s

abbrev pub lacks_fields : CreateProductRequest → Bool
lacks_fields req = str_eq req.name "" || leb_ℤ req.price_cents (pos 0)

module _ (codec : DocCodec) (uuid : Uuid) where
  open codec use {Payload, marshal, unmarshal}

  abbrev pub request_doc : CreateProductRequest → ℕ → ProductDoc
  request_doc req id = record {
    id = uuid.print id;
    name = req.name;
    description = req.description;
    price_cents = int32 req.price_cents;
  }

  abbrev pub product_params : CreateProductRequest → ℕ → CreateProductParams
  product_params req id = record {
    id = id;
    name = req.name;
    description = req.description;
    price_cents = int32 req.price_cents;
  }

  abbrev pub product_doc : Product → ProductDoc
  product_doc p = record {
    id = uuid.print p.id;
    name = p.name;
    description = p.description;
    price_cents = p.price_cents;
  }

  -- `tx.Commit`, and the response.
  commit_product : Answer → Product → Db Payload → Db Payload → Reply ProductDoc × Db Payload
  commit_product done p before after = (json 201 (product_doc p), after)
  commit_product refused p before after = (error 500 "internal error", before)
  commit_product lost p before after = (error 500 "internal error", after)

  -- The transaction, once the document is marshalled.
  store_doc :
      ProductEnv
      → CreateProductRequest
      → ℕ
      → Db Payload
      → Option Payload
      → Reply ProductDoc × Db Payload
  unfolding commit_product
  store_doc env req id db none = (error 500 "internal error", db)
  store_doc env req id db (some payload) =
      if not env.begins || not env.inserts_product || not env.inserts_event
      then (error 500 "internal error", db)
      else (let (p, products) = create_product env.now (product_params req id) db.products in
          commit_product env.commit p db (record {
            products = products;
            outbox = insert_outbox_event env.now id "ProductIndexed" payload db.outbox;
          }))

  -- The `productID` of a request, and `none` where the key is no UUID.
  abbrev pub product_id_of : ProductEnv → CreateProductRequest → Option ℕ
  product_id_of env req =
      if str_eq req.idempotency_key "" then some env.fresh else uuid.parse req.idempotency_key

  with_product_id :
      ProductEnv → CreateProductRequest → Option ℕ → Db Payload → Reply ProductDoc × Db Payload
  unfolding store_doc
  with_product_id env req none db = (error 400 "idempotency_key must be a valid UUID", db)
  with_product_id env req (some id) db = store_doc env req id db (marshal (request_doc req id))

  -- `none` for a request is a decoding error.
  pub handle_create_product :
      ProductEnv → Option CreateProductRequest → Db Payload → Reply ProductDoc × Db Payload
  unfolding with_product_id
  handle_create_product env none db = (error 400 "invalid request body", db)
  handle_create_product env (some req) db =
      if lacks_fields req
      then (error 400 "name and a positive price_cents are required", db)
      else with_product_id env req (product_id_of env req) db

  product_reply : Option Product → Reply ProductDoc
  product_reply none = error 404 "product not found"
  product_reply (some p) = json 200 (product_doc p)

  -- `queries` is false where `GetProduct` fails with an error other than a missing row; the handler
  -- does not tell the two apart.
  get_reply : Bool → Option ℕ → Db Payload → Reply ProductDoc
  unfolding product_reply
  get_reply queries none db = error 400 "invalid product id"
  get_reply queries (some id) db =
      product_reply (if queries then get_product id db.products else none)

  pub handle_get_product : Bool → String → Db Payload → Reply ProductDoc
  handle_get_product queries path_id db = get_reply queries (uuid.parse path_id) db

  -- The documents of the hits; a hit that cannot be unmarshalled is skipped.
  hit_docs : List Payload → List ProductDoc
  hit_docs [] = []
  hit_docs (hit ∷ hits) =
      let docs = hit_docs hits in elim (unmarshal hit) [ none ↦ docs | some doc ↦ doc ∷ docs ]

  -- `search` is OpenSearch: the sources of the hits of a query, and `none` for an error.
  pub handle_search_products : (String → Option (List Payload)) → String → Reply (List ProductDoc)
  handle_search_products search q =
      if str_eq q "" then error 400 "query parameter 'q' is required" else (elim (search q) [
        | none ↦ error 500 "internal error"
        | some hits ↦ json 200 (hit_docs hits)
      ])

-- `pool.Ping`
abbrev pub handle_healthz : Bool → Reply ProductDoc
handle_healthz pings = if pings then bare 200 else bare 503
