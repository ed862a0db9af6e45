-- ===== src/Setup.antt =====
-- The start of the programs under stampede/apps, up to the goroutines of their `main`: what they take
-- from the environment, the calls that may fail, and the exit with status 1 at the first that does. The
-- schema and the index that a start makes are there at the next one, which takes that for success.
pub mod Dsn
pub mod Services
pub mod Workers
mod Tests
use tf_man.Prelude.{◌≡◌, refl, Bool, true, false, Option, none, some}

-- The messages that are logged before `os.Exit(1)`.
pub data Exit : Type 0 where
  load_config_failed get_secret_failed unmarshal_secret_failed connect_failed : Exit
  connect_relay_failed read_schema_failed ensure_schema_failed create_signer_failed : Exit
  create_client_failed create_index_failed invalid_threshold invalid_window : Exit
  configure_order_proxy_failed configure_catalog_proxy_failed : Exit

pub data Start {ℓ} (A : Type ℓ) : Type ℓ where
  exits : Exit → Start A
  ready : A → Start A

infixl 5 ◌>>=◌ ◌>>◌
abbrev pub ◌>>=◌ {ℓ κ} : {A : Type ℓ} {B : Type κ} → Start A → (A → Start B) → Start B
exits e >>= f = exits e
ready a >>= f = f a

abbrev pub ◌>>◌ {ℓ} : {B : Type ℓ} → Start (Unit {0}) → Start B → Start B
m >> k = m >>= λ _. k

abbrev pub check : Bool → Exit → Start (Unit {0})
check true e = ready tt
check false e = exits e

abbrev pub or_exit {ℓ} : {A : Type ℓ} → Option A → Exit → Start A
or_exit none e = exits e
or_exit (some a) e = ready a

-- Inversion, for chains whose parts stay shut.
pub >>=-eq-ready {ℓ κ} :
    {A : Type ℓ} {B : Type κ} (m : Start A) (f : A → Start B) {b : B}
    → (m >>= f) ≡ ready b
    → (a : A) × (m ≡ ready a) × (f a ≡ ready b)
>>=-eq-ready (exits e) f h = cc
>>=-eq-ready (ready a) f h = (a, refl, h)
