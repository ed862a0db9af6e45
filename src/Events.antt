-- ===== src/Events.antt =====
-- stampede/apps/internal/events: the event that the services exchange, and the publisher. The topic
-- is what SNS accepted, newest first; `encoding/json` is a parameter, the codec.
use tf_man.Prelude.{ℕ, String, ◌≡◌, Bool, true, false, Option, some, List, ◌∷◌, ℤ, is_some}
use tf_man.Net.{Answer, done, refused, lost}

-- Values in the metadata map.
pub data Value : Type 0 where
  text : String → Value
  number : ℤ → Value

-- event.go. `Type` is a string; the timestamp counts nanoseconds.
pub record Event : Type 0 where
  pub event_type : String
  pub user_id : String
  pub order_id : String
  pub timestamp : ℕ
  pub metadata : List (String × Value)

abbrev pub type_order_placed : String
type_order_placed = "OrderPlaced"

abbrev pub type_order_confirmed : String
type_order_confirmed = "OrderConfirmed"

abbrev pub type_payment_failed : String
type_payment_failed = "PaymentFailed"

abbrev pub type_fraud_flagged : String
type_fraud_flagged = "FraudFlagged"

-- `encoding/json` on events: what was marshalled is unmarshalled to the event `decoded`, whose strings
-- are the same, and whose numbers in the metadata, of type `any`, went through a `float64`. It can be
-- marshalled again.
pub record Codec : Type 1 where
  pub Payload : Type 0
  pub marshal : Event → Option Payload
  pub unmarshal : Payload → Option Event
  pub decoded : Event → Event
  pub round_trip : (e : Event) (p : Payload) → marshal e ≡ some p → unmarshal p ≡ some (decoded e)
  pub type-decoded : (e : Event) → (decoded e).event_type ≡ e.event_type
  pub order_id-decoded : (e : Event) → (decoded e).order_id ≡ e.order_id
  pub marshal-decoded :
      (e : Event) (p : Payload) → marshal e ≡ some p → is_some (marshal (decoded e)) ≡ true

-- publisher.go: `Publish` returns whether there was no error, and the topic. `marshals` is whether
-- `json.Marshal` takes the event.
unfoldable pub publish : Bool → Answer → Event → List Event → Bool × List Event
publish false answer event topic = (false, topic)
publish true done event topic = (true, event ∷ topic)
publish true refused event topic = (false, topic)
publish true lost event topic = (false, event ∷ topic)

module _ (Q : List Event → Type 0) (topic : List Event) (same : Q topic) where
  -- The topic after a publication: as it was, or with the event.
  pub publish-keeps :
      (b : Bool) (a : Answer) (e : Event) → Q (e ∷ topic) → Q (publish b a e topic).1
  unfolding publish
  publish-keeps false a e h = same
  publish-keeps true done e h = h
  publish-keeps true refused e h = same
  publish-keeps true lost e h = h
