-- ===== src/Gateway/Feed.antt =====
-- stampede/apps/edge-gateway/main.go: subscribeStockUpdates and runSubscription, which feed the hub, and
-- the origins that handleWS lets in. A move that is not possible gives `none`.
pub mod Heard
pub mod Stops
use mathlib.Core.Option
use tf_man.Prelude.{
  ℕ, String, ◌≡◌, Bool, true, false, ◌&&◌, Option, none, some, List, [], ◌∷◌, ◌++◌, str_eq,
  if◌then◌else◌,
}
use tf_man.Gateway.Hub.{State, Move, Action, join, broadcast, move, act, new_hub}

-- `subscribeStockUpdates`: at the test of its loop, in the select of `runSubscription`, at the test of
-- its error, in the select with the timer, returned.
pub data Subscriber : Type 0 where
  looping listening failed pausing ended : Subscriber

-- The hub and its subscriber; `is_done` is the context of the process, and `heard` records the payloads
-- that Redis delivered.
pub record Gateway (M : Type 0) : Type 0 where
  pub hub : State M
  pub phase : Subscriber
  pub is_done : Bool
  pub heard : List M

-- What the subscriber may do next: go on after a test, take the branch of `ctx.Done`, receive a message,
-- find the channel closed, end its pause.
pub data Turn (M : Type 0) : Type 0 where
  check stop hang_up pause_over : Turn M
  receive : M → Turn M

-- `connect`: a request for a WebSocket from an origin, and whether the rest of `Upgrade` succeeds.
pub data Step (M : Type 0) : Type 0 where
  connect : String → Bool → Step M
  client : ℕ → Move → Step M
  cancel : Step M
  turn : Turn M → Step M

-- `ALLOWED_ORIGIN`, and the request's header.
pub check_origin : String → String → Bool
check_origin allowed origin = if str_eq allowed "" then true else str_eq origin allowed

module _ {M : Type 0} where
  abbrev with_hub : Gateway M → State M → Gateway M
  with_hub g hub = record g { hub = hub }

  abbrev at_phase : Gateway M → Subscriber → Gateway M
  at_phase g phase = record g { phase = phase }

  pub subscriber_moves : Subscriber → Turn M → Gateway M → Option (Gateway M)
  subscriber_moves looping check g = some (at_phase g (if g.is_done then ended else listening))
  subscriber_moves listening stop g = if g.is_done then some (at_phase g failed) else none
  subscriber_moves listening hang_up g = some (at_phase g failed)
  subscriber_moves listening (receive msg) g =
      Option.map (λ hub. record g { hub = hub; heard = g.heard ++ msg ∷ [] })
        (act (broadcast msg) g.hub)
  subscriber_moves failed check g = some (at_phase g (if g.is_done then looping else pausing))
  subscriber_moves pausing stop g = if g.is_done then some (at_phase g ended) else none
  subscriber_moves pausing pause_over g = some (at_phase g looping)
  subscriber_moves _ _ g = none

  unfoldable pub happens : String → Step M → Gateway M → Option (Gateway M)
  unfolding subscriber_moves check_origin
  happens allowed (connect origin upgrades) g =
      if check_origin allowed origin && upgrades
      then Option.map (with_hub g) (act join g.hub)
      else some g
  happens allowed (client i m) g = Option.map (with_hub g) (act (move i m) g.hub)
  happens allowed cancel g = some (record g { is_done = true })
  happens allowed (turn t) g = subscriber_moves g.phase t g

  abbrev pub opened : Gateway M
  opened = record { hub = new_hub; phase = looping; is_done = false; heard = [] }

  pub data Reach (allowed : String) : Gateway M → Type 0 where
    here : Reach allowed opened
    next :
        {g h : Gateway M} (e : Step M)
        → Reach allowed g
        → happens allowed e g ≡ some h
        → Reach allowed h
