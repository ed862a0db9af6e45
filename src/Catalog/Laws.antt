-- ===== src/Catalog/Laws.antt =====
-- What the replies of the catalog service say of its database and of its index.
use mathlib.Core.List.{Memᴰ}
use tf_man.Prelude.{
  ℕ, String, Bool, true, false, not, ◌||◌, ◌&&◌, ◌↔◌, is_some, ap, sym, subst, ◌≡◌, ◌≢◌, inl, inr,
  refl, Option, none, some, List, [], ◌∷◌, ◌++◌, str_eq, Bool-cases, Option-cases, arith,
}
use tf_man.Net.{Answer, done, refused, lost, status}
use tf_man.Outbox.Relay.{Round, Outbox}
use tf_man.Outbox.Relay.Sent.{IsSent, relay_batch-IsSent}
use tf_man.Order.Handlers.{Uuid}
use tf_man.Catalog.Products.{Product, Db, get_product}
use tf_man.Catalog.{
  ProductDoc, CreateProductRequest, ProductEnv, DocCodec, Index, index_row, index_outbox_batch,
  lacks_fields, product_id_of, commit_product, store_doc, with_product_id, handle_create_product,
  product_reply, get_reply, handle_get_product, hit_docs, handle_search_products,
}

module _ {P : Type 0} where
  -- The index got the document.
  abbrev pub IsIn : ℕ → P → Index P → Type 0
  IsIn id p index = Memᴰ (id, p) index

  pub index_row-got :
      (a : Answer) (id : ℕ) (p : P) (index : Index P)
      → (index_row a id p index).0 ≡ true
      → IsIn id p (index_row a id p index).1
  unfolding index_row
  index_row-got done id p index h = Memᴰ.head refl
  index_row-got refused id p index h = cc
  index_row-got lost id p index h = cc

  pub index_row-keep :
      (a : Answer) (i id : ℕ) (q p : P) (index : Index P)
      → IsIn id p index
      → IsIn id p (index_row a i q index).1
  unfolding index_row
  index_row-keep done i id q p index m = Memᴰ.tail m
  index_row-keep refused i id q p index m = m
  index_row-keep lost i id q p index m = Memᴰ.tail m

  abbrev pub IsIndexed : Outbox P (Index P) → Type 0
  IsIndexed = IsSent index_row IsIn index_row-got index_row-keep

  -- From a state where it holds, and whatever fails in a batch, OpenSearch took the document of every row that is marked as
  -- published, and the ids of the rows stay distinct.
  index_outbox_batch-IsIndexed :
      (env : ℕ → Round) (s : Outbox P (Index P))
      → IsIndexed s
      → IsIndexed (index_outbox_batch env s)
  unfolding index_outbox_batch
  index_outbox_batch-IsIndexed env s h =
      relay_batch-IsSent index_row IsIn index_row-got index_row-keep env s h

module _ (codec : DocCodec) (uuid : Uuid) where
  open codec use {Payload, marshal, unmarshal}

  commit_kept :
      (q : Product) (db t : Db Payload) (a : Answer)
      → a ≢ lost
      → status (commit_product codec uuid a q db t).0 ≢ 201
      → (commit_product codec uuid a q db t).1 ≡ db
  unfolding commit_product
  commit_kept q db t done c h = absurd (h refl)
  commit_kept q db t refused c h = refl
  commit_kept q db t lost c h = absurd (c refl)

  store_doc_kept :
      (env : ProductEnv) (req : CreateProductRequest) (id : ℕ) (db : Db Payload)
      (p : Option Payload)
      → env.commit ≢ lost
      → status (store_doc codec uuid env req id db p).0 ≢ 201
      → (store_doc codec uuid env req id db p).1 ≡ db
  unfolding store_doc
  store_doc_kept env req id db none c h = refl
  store_doc_kept env req id db (some p) c h =
      elim (Bool-cases (not env.begins || not env.inserts_product || not env.inserts_event)) [
        | inl f ↦ simp f refl
        | inr f ↦ simp f (commit_kept _ db _ env.commit c (simp f at h))
      ]

  -- A create request that is not answered with 201 leaves the database alone, unless its commit
  -- takes effect and is reported as an error.
  handle_create_product_kept :
      (env : ProductEnv) (req : Option CreateProductRequest) (db : Db Payload)
      → env.commit ≢ lost
      → status (handle_create_product codec uuid env req db).0 ≢ 201
      → (handle_create_product codec uuid env req db).1 ≡ db
  unfolding handle_create_product with_product_id
  handle_create_product_kept env none db c h = refl
  handle_create_product_kept env (some req) db c h = elim (Bool-cases (lacks_fields req)) [
    | inl f ↦ rw f refl
    | inr f ↦ rw f (elim (Option-cases (product_id_of codec uuid env req)) [
      | inl e ↦ rw e refl
      | inr (id, e) ↦ rw e (store_doc_kept env req id db _ c (rw (f, e) at h))
    ])
  ]

  skip_hit :
      (hits more : List Payload) (bad : Payload)
      → unmarshal bad ≡ none
      → hit_docs codec uuid (hits ++ bad ∷ more) ≡ hit_docs codec uuid (hits ++ more)
  unfolding hit_docs
  skip_hit [] more bad e = rw e refl
  skip_hit (hit ∷ hits) more bad e =
      ap (λ (docs : List ProductDoc). elim (unmarshal hit) [ none ↦ docs | some doc ↦ doc ∷ docs ])
        (skip_hit hits more bad e)

  -- A hit that cannot be unmarshalled costs no other hit: the reply is the one that the search
  -- gets without it.
  handle_search_products_skip :
      (search without : String → Option (List Payload)) (q : String) (hits more : List Payload)
      (bad : Payload)
      → unmarshal bad ≡ none
      → search q ≡ some (hits ++ bad ∷ more)
      → without q ≡ some (hits ++ more)
      → handle_search_products codec uuid search q ≡ handle_search_products codec uuid without q
  unfolding handle_search_products
  handle_search_products_skip search without q hits more bad e found rest =
      elim (Bool-cases (str_eq q "")) [
        | inl f ↦ rw f refl
        | inr f ↦ rw (f, found, rest, skip_hit hits more bad e) refl
      ]

  product_reply_ok :
      (o : Option Product) → (status (product_reply codec uuid o) ≡ 200) ↔ (is_some o ≡ true)
  unfolding product_reply
  product_reply_ok none = (λ h. absurd (omega (arith, h)), λ h. cc)
  product_reply_ok (some p) = (λ h. refl, λ h. refl)

  get_reply_ok :
      (queries : Bool) (id : ℕ) (db : Db Payload)
      → (status (get_reply codec uuid queries (some id) db) ≡ 200)
        ↔ (queries && is_some (get_product id db.products) ≡ true)
  unfolding get_reply
  get_reply_ok false id db = product_reply_ok none
  get_reply_ok true id db = product_reply_ok (get_product id db.products)

  -- The reply to the request for a product, under a path that spells its id, is 200 exactly where
  -- the query works and the product is there.
  handle_get_product_ok :
      (queries : Bool) (path_id : String) (id : ℕ) (db : Db Payload)
      → uuid.parse path_id ≡ some id
      → (status (handle_get_product codec uuid queries path_id db) ≡ 200)
        ↔ (queries && is_some (get_product id db.products) ≡ true)
  unfolding handle_get_product
  handle_get_product_ok queries path_id id db e =
      subst
        (λ (o : Option ℕ).
          (status (get_reply codec uuid queries o db) ≡ 200)
          ↔ (queries && is_some (get_product id db.products) ≡ true))
        (sym e) (get_reply_ok queries id db)
