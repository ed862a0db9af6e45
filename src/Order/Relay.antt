-- ===== src/Order/Relay.antt =====
-- stampede/apps/order-service/main.go: the outbox relay, which publishes the waiting events to SNS.
pub mod Delivery
pub mod Keeps
use tf_man.Prelude.{ℕ, Bool, true, false, Option, none, some, List, is_some}
use tf_man.Net.{Answer}
use tf_man.Events.{Event, Codec, publish}
use tf_man.Outbox.Relay.{Round, Outbox, RelayError, relay_next, relay_batch, relay_ticks}

module _ (codec : Codec) where
  open codec use {Payload, marshal, unmarshal}

  -- Unmarshal the payload of a row and publish the event.
  publish_payload : Answer → Option Event → List Event → Bool × List Event
  publish_payload answer none topic = (false, topic)
  publish_payload answer (some event) topic = publish (is_some (marshal event)) answer event topic

  unfoldable pub publish_row : Answer → ℕ → Payload → List Event → Bool × List Event
  unfolding publish_payload
  publish_row answer id payload topic = publish_payload answer (unmarshal payload) topic

  -- Whether there was work, the error, and the outbox with the topic.
  unfoldable pub publish_next_outbox_event :
      Round → Outbox Payload (List Event) → Bool × Option RelayError × Outbox Payload (List Event)
  publish_next_outbox_event env s = relay_next publish_row env s

  pub publish_outbox_batch : (ℕ → Round) → Outbox Payload (List Event) → Outbox Payload (List Event)
  publish_outbox_batch env s = relay_batch publish_row env s

  pub run_outbox_relay :
      List (ℕ → Round) → Outbox Payload (List Event) → Outbox Payload (List Event)
  run_outbox_relay ticks s = relay_ticks publish_row ticks s
