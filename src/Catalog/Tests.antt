-- ===== src/Catalog/Tests.antt =====
-- Requests and a relay batch of the catalog service.
use tf_man.Prelude.{ℕ, true, false, none, some, [], pos, str_eq, if◌then◌else◌}
use tf_man.Net.{done, refused}
use tf_man.Tests.{one_uuid}
use tf_man.Outbox.Relay.{Round}
use tf_man.Catalog.Products.{Db}
use tf_man.Catalog.{ProductDoc, CreateProductRequest, ProductEnv, DocCodec}
use tf_man.Catalog.Search.{
  IsFaithful, Catalog, here, create, index, created, relayed, Reach-IsFaithful,
}

abbrev tea : ProductDoc
tea = record { id = "u7"; name = "tea"; description = "green"; price_cents = pos 250 }

-- Documents as they are, with an empty name for what cannot be read.
abbrev plain_docs : DocCodec
plain_docs = record {
  Payload = ProductDoc;
  marshal = λ d. some d;
  unmarshal = λ d. if str_eq d.name "" then none else some d;
}

abbrev request : CreateProductRequest
request = record {
  name = "tea";
  description = "green";
  price_cents = pos 250;
  idempotency_key = "";
}

abbrev refusing : ProductEnv
refusing = record {
  fresh = 7;
  now = 5;
  begins = true;
  inserts_product = true;
  inserts_event = true;
  commit = refused;
}

abbrev no_products : Db ProductDoc
no_products = record { products = []; outbox = [] }

abbrev rounds : ℕ → Round
rounds _ = record {
  begins = true;
  lists = true;
  is_locked = λ _. false;
  deliver = done;
  marks = true;
  commit = done;
}

abbrev accepting : ProductEnv
accepting = record refusing { commit = done }

abbrev empty : Catalog plain_docs one_uuid
empty = record { db = no_products; index = [] }

Reach-IsFaithful_example :
    let s =
      relayed plain_docs one_uuid
        (rounds 0)
        (created plain_docs one_uuid accepting (some request) empty) in
    IsFaithful plain_docs one_uuid s.db s.index
Reach-IsFaithful_example =
    Reach-IsFaithful plain_docs one_uuid (index (rounds 0) (create accepting (some request) here))
