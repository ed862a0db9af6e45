-- ===== src/Order/Relay/Keeps.antt =====
-- What a round of the relay does to the outbox and the topic, for invariants of both.
use mathlib.Core.List.{Memᴰ}
use tf_man.Prelude.{ℕ, ◌≡◌, refl, Option, none, some, List, ◌∷◌, is_some}
use tf_man.Net.{Answer}
use tf_man.Events.{Event, Codec, publish-keeps}
use tf_man.Outbox.Table.{Row, mark_outbox_event_published}
use tf_man.Outbox.Relay.{Round, Outbox}
use tf_man.Outbox.Relay.Keeps.{relay_next-Holds}
use tf_man.Order.Relay.{publish_payload, publish_row, publish_next_outbox_event}

module _ (codec : Codec) where
  open codec use {Payload, marshal, unmarshal}

  publish_payload-keeps :
      (Q : List Event → Type 0) (a : Answer) (o : Option Event) (topic : List Event)
      → Q topic
      → ((e : Event) → o ≡ some e → Q (e ∷ topic))
      → Q (publish_payload codec a o topic).1
  unfolding publish_payload
  publish_payload-keeps Q a none topic same sent = same
  publish_payload-keeps Q a (some e) topic same sent =
      publish-keeps Q topic same (is_some (marshal e)) a e (sent e refl)

  -- What marking a row keeps, and the event of one of the rows on the topic keeps, a round keeps.
  pub publish_next_outbox_event-keeps :
      (Q : List (Row Payload) → List Event → Type 0) (env : Round) (s : Outbox Payload (List Event))
      → ((id : ℕ) (rows : List (Row Payload)) (topic : List Event)
          → Q rows topic
          → Q (mark_outbox_event_published id rows) topic)
      → ((row : Row Payload) (rows : List (Row Payload)) (topic : List Event) (e : Event)
          → Memᴰ row rows
          → unmarshal row.payload ≡ some e
          → Q rows topic
          → Q rows (e ∷ topic))
      → Q s.rows s.sink
      → Q
          (publish_next_outbox_event codec env s).2.rows
          (publish_next_outbox_event codec env s).2.sink
  unfolding publish_next_outbox_event publish_row
  publish_next_outbox_event-keeps Q env s marked sent h =
      relay_next-Holds (publish_row codec) Q marked
        (λ a row rows topic m same.
          publish_payload-keeps (Q rows) a (unmarshal row.payload) topic same
            λ e u. sent row rows topic e m u same)
        env s h
