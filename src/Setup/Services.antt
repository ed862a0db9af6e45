-- ===== src/Setup/Services.antt =====
-- The order service, the catalog service and the edge gateway before their goroutines start.
use tf_man.Prelude.{String, Bool, Option, ℤ, pos, str_eq, if◌then◌else◌}
use tf_man.Setup.{
  load_config_failed, get_secret_failed, unmarshal_secret_failed, connect_failed,
  connect_relay_failed, read_schema_failed, ensure_schema_failed, create_signer_failed,
  create_client_failed, create_index_failed, configure_order_proxy_failed,
  configure_catalog_proxy_failed, Start, exits, ready, ◌>>=◌, ◌>>◌, check, or_exit,
}
use tf_man.Setup.Dsn.{DbCredentials, dsn, pool_query, relay_query}

-- What `Indices.Create` answers; the second is `resource_already_exists_exception`.
pub data IndexAnswer : Type 0 where
  index_created index_exists index_failed : IndexAnswer

-- The environment, and what the libraries answer: `GetSecretValue` of an ARN, `json.Unmarshal` of the
-- secret, `pgxpool.New` of a connection URL, the read and the run of the schema, and the clients of
-- OpenSearch.
pub record Env : Type 0 where
  pub getenv : String → String
  pub loads_config : Bool
  pub get_secret_value : String → Option String
  pub unmarshal : String → Option DbCredentials
  pub connects : String → Bool
  pub reads_schema : Bool
  pub runs_schema : Bool
  pub creates_signer : Bool
  pub creates_client : Bool
  pub create_index : IndexAnswer

-- The URLs of the pool for requests and of the pool for the relay.
pub record Database : Type 0 where
  pub url : String
  pub relay_url : String

pub record OrderService : Type 0 where
  pub database : Database
  pub topic_arn : String
  pub inventory_url : String
  pub queue_url : String
  pub status_concurrency : ℤ

pub record CatalogService : Type 0 where
  pub database : Database
  pub search_url : String

-- An index that is there already is no error.
pub ensure_index : IndexAnswer → Start (Unit {0})
ensure_index index_created = ready tt
ensure_index index_exists = ready tt
ensure_index index_failed = exits create_index_failed

module _ (env : Env) where
  open env use {
    getenv, loads_config, get_secret_value, unmarshal, connects, reads_schema, runs_schema,
    creates_signer, creates_client, create_index,
  }

  pub fetch_db_credentials : String → Start DbCredentials
  fetch_db_credentials arn = do
    secret ← or_exit (get_secret_value arn) get_secret_failed
    or_exit (unmarshal secret) unmarshal_secret_failed

  pub pool_max_conns : String
  pool_max_conns =
      if str_eq (getenv "DB_POOL_MAX_CONNS") "" then "20" else getenv "DB_POOL_MAX_CONNS"

  -- Both pools, then the schema.
  pub open_database : DbCredentials → Start Database
  open_database c = do
    let url = dsn c (pool_query pool_max_conns)
    check (connects url) connect_failed
    let relay_url = dsn c relay_query
    check (connects relay_url) connect_relay_failed
    check reads_schema read_schema_failed
    check runs_schema ensure_schema_failed
    ready (record { url = url; relay_url = relay_url })

  -- From `config.LoadDefaultConfig` on.
  pub connect : Start Database
  connect = do
    check loads_config load_config_failed
    c ← fetch_db_credentials (getenv "DB_SECRET_ARN")
    open_database c

  pub order_service_setup : Start OrderService
  order_service_setup = do
    database ← connect
    ready (record {
      database = database;
      topic_arn = getenv "SNS_TOPIC_ARN";
      inventory_url = getenv "INVENTORY_SERVICE_URL";
      queue_url = getenv "ORDER_STATUS_QUEUE_URL";
      status_concurrency = pos 5;
    })

  pub catalog_service_setup : Start CatalogService
  catalog_service_setup = do
    database ← connect
    check creates_signer create_signer_failed
    check creates_client create_client_failed
    ensure_index create_index
    ready (record { database = database; search_url = getenv "OPENSEARCH_ENDPOINT" })

-- `newReverseProxy` fails where `url.Parse` of the target does; the targets of the two proxies.
pub gateway_setup : {U : Type 0} → (String → Option U) → (String → String) → Start (U × U)
gateway_setup parse getenv = do
  order_target ← or_exit (parse (getenv "ORDER_SERVICE_URL")) configure_order_proxy_failed
  catalog_target ← or_exit (parse (getenv "CATALOG_SERVICE_URL")) configure_catalog_proxy_failed
  ready (order_target, catalog_target)
