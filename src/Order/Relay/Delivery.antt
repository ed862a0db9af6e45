-- ===== src/Order/Relay/Delivery.antt =====
-- What the relay of the order service delivers: at least once, 20 events a batch.
use mathlib.Core.List.{Memᴰ}
use tf_man.Prelude.{
  ℕ, ◌-◌, ◌*◌, length, Bool, true, false, ◌≡◌, refl, some, List, [], ◌∷◌, All, is_some, arith,
  Option-cases, inl, inr,
}
use tf_man.Net.{Answer, done, refused, lost}
use tf_man.Events.{Event, Codec, publish}
use tf_man.Outbox.Table.{Row}
use tf_man.Outbox.Table.Rows.{HasDistinctIds, pending}
use tf_man.Outbox.Relay.{Round, Outbox, relay_ticks}
use tf_man.Outbox.Relay.Progress.{IsSmooth, IsDeliverable, pending-relay_ticks}
use tf_man.Outbox.Relay.Sent.{IsSent, relay_batch-IsSent}
use tf_man.Order.Relay.{publish_payload, publish_row, publish_outbox_batch, run_outbox_relay}

module _ (codec : Codec) where
  open codec use {Payload, marshal, unmarshal}

  -- The topic got the event of a payload.
  abbrev pub IsOnTopic : ℕ → Payload → List Event → Type 0
  IsOnTopic id p topic = (e : Event) → unmarshal p ≡ some e → Memᴰ e topic

  publish-got :
      (b : Bool) (a : Answer) (e : Event) (topic : List Event)
      → (publish b a e topic).0 ≡ true
      → Memᴰ e (publish b a e topic).1
  unfolding publish
  publish-got true done e topic h = Memᴰ.head refl
  publish-got true refused e topic h = cc
  publish-got true lost e topic h = cc
  publish-got false a e topic h = cc

  publish-keep :
      (b : Bool) (a : Answer) (e f : Event) (topic : List Event)
      → Memᴰ f topic
      → Memᴰ f (publish b a e topic).1
  unfolding publish
  publish-keep true done e f topic m = Memᴰ.tail m
  publish-keep true refused e f topic m = m
  publish-keep true lost e f topic m = Memᴰ.tail m
  publish-keep false a e f topic m = m

  pub publish_row-got :
      (a : Answer) (id : ℕ) (p : Payload) (topic : List Event)
      → (publish_row codec a id p topic).0 ≡ true
      → IsOnTopic id p (publish_row codec a id p topic).1
  unfolding publish_row
  publish_row-got a id p topic h e u =
      rw (u, publish_payload)
        (publish-got (is_some (marshal e)) a e topic (rw (u, publish_payload) at h))

  pub publish_row-keep :
      (a : Answer) (i id : ℕ) (q p : Payload) (topic : List Event)
      → IsOnTopic id p topic
      → IsOnTopic id p (publish_row codec a i q topic).1
  unfolding publish_row
  publish_row-keep a i id q p topic h e u = elim (Option-cases (unmarshal q)) [
    | inl f ↦ rw (f, publish_payload) (h e u)
    | inr (x, f) ↦ rw (f, publish_payload) (publish-keep (is_some (marshal x)) a x e topic (h e u))
  ]

  abbrev pub IsDelivered : Outbox Payload (List Event) → Type 0
  IsDelivered = IsSent (publish_row codec) IsOnTopic publish_row-got publish_row-keep

  -- At least once: from a state where it holds, and whatever fails in a batch, the event of every row that is marked as published is
  -- on the topic, and the ids of the rows stay distinct.
  pub publish_outbox_batch-IsDelivered :
      (env : ℕ → Round) (s : Outbox Payload (List Event))
      → IsDelivered s
      → IsDelivered (publish_outbox_batch codec env s)
  unfolding publish_outbox_batch
  publish_outbox_batch-IsDelivered env s h =
      relay_batch-IsSent (publish_row codec) IsOnTopic publish_row-got publish_row-keep env s h

  -- Payloads as `handleCreateOrder` writes them: those of events that can be marshalled.
  abbrev pub HasEvents : List (Row Payload) → Type 0
  HasEvents rows = All (λ r. (e : Event) × (marshal e ≡ some r.payload)) rows

  HasEvents-IsDeliverable :
      (rows : List (Row Payload)) → HasEvents rows → IsDeliverable (publish_row codec) rows
  unfolding publish_row publish
  HasEvents-IsDeliverable [] h = tt
  HasEvents-IsDeliverable (r ∷ rows) ((e, m), h) = (
    λ k.
        rw (codec.round_trip e r.payload m, publish_payload)
          (rw (codec.marshal-decoded e r.payload m) refl),
    HasEvents-IsDeliverable rows h,
  )

  -- While nothing fails and no row is locked, every tick of the relay publishes 20 of the waiting
  -- events, or all where there are fewer: after a tick for each 20 of them, none waits.
  pub pending-run_outbox_relay :
      (ticks : List (ℕ → Round)) (s : Outbox Payload (List Event))
      → All (λ env. (i : ℕ) → IsSmooth (env i)) ticks
      → HasDistinctIds s.rows
      → HasEvents s.rows
      → pending (run_outbox_relay codec ticks s).rows ≡ pending s.rows - 20 * length ticks
  unfolding run_outbox_relay
  pending-run_outbox_relay ticks s smooth d h =
      pending-relay_ticks (publish_row codec) ticks s smooth d (HasEvents-IsDeliverable s.rows h)

  -- One batch of them.
  pending-publish_outbox_batch :
      (env : ℕ → Round) (s : Outbox Payload (List Event))
      → ((i : ℕ) → IsSmooth (env i))
      → HasDistinctIds s.rows
      → HasEvents s.rows
      → pending (publish_outbox_batch codec env s).rows ≡ pending s.rows - 20
  unfolding publish_outbox_batch run_outbox_relay relay_ticks
  pending-publish_outbox_batch env s smooth d h =
      omega (arith, pending-run_outbox_relay (env ∷ []) s (smooth, tt) d h)
