-- ===== src/Gateway/Hub.antt =====
-- The hub, and the two goroutines of every connection, as a machine. A move that is not possible gives
-- `none`. What the code does under the mutex is one move.
pub mod Fine
pub mod Fed
use mathlib.Core.Option
use tf_man.Prelude.{
  ℕ, zero, suc, ◌+◌, ◌≡◌, Bool, true, false, not, ◌||◌, Option, none, some, List, [], ◌∷◌, ◌++◌,
  length, map, any, ltb, if◌then◌else◌,
}

-- The goroutine that ranges over the channel: at the channel, in `WriteMessage`, in the two deferred
-- calls, ended.
pub data Writer (M : Type 0) : Type 0 where
  ranging unregistering closing ended : Writer M
  writing : M → Writer M

-- The goroutine that reads.
pub data Reader : Type 0 where
  reading unregistering closing ended : Reader

-- One connection: whether `h.clients` has it, its channel, whether the connection is open, whether
-- `broadcast` has yet to close it, its goroutines; and, as a record of the past, the messages written
-- to it, the one that was taken out of the channel and not written, the messages broadcast while the
-- hub had it, and whether one of them was dropped.
pub record Client (M : Type 0) : Type 0 where
  pub is_registered : Bool
  pub buffer : List M
  pub is_closed : Bool
  pub is_alive : Bool
  pub is_slow : Bool
  pub writer : Writer M
  pub reader : Reader
  pub written : List M
  pub unwritten : List M
  pub offered : List M
  pub has_dropped : Bool

-- `panicked`: a send on a closed channel, or a second `close`.
pub record State (M : Type 0) : Type 0 where
  pub clients : List (Client M)
  pub panicked : Bool

-- `make(chan []byte, 16)`
abbrev pub capacity : ℕ
capacity = 16

-- What a client's goroutines, or the end of `broadcast`, may do next. `write` and `fail` are the
-- results of `WriteMessage`.
pub data Move : Type 0 where
  take write fail read_error : Move
  writer_unregister writer_close reader_unregister reader_close close_slow : Move

pub data Action (M : Type 0) : Type 0 where
  join : Action M
  broadcast : M → Action M
  move : ℕ → Move → Action M

module _ {M : Type 0} where
  -- `register`, and the two goroutines that `handleWS` starts.
  abbrev pub register : Client M
  register = record {
    is_registered = true;
    buffer = [];
    is_closed = false;
    is_alive = true;
    is_slow = false;
    writer = ranging;
    reader = reading;
    written = [];
    unwritten = [];
    offered = [];
    has_dropped = false;
  }

  -- `send <- msg`, and what `broadcast` does where the channel is full.
  accept : M → Client M → Client M
  accept msg c = record c { buffer = c.buffer ++ msg ∷ []; offered = c.offered ++ msg ∷ [] }

  refuse : M → Client M → Client M
  refuse msg c = record c { is_slow = true; offered = c.offered ++ msg ∷ []; has_dropped = true }

  -- The turn of one client in the loop of `broadcast`.
  pub offer : M → Client M → Client M
  unfolding accept refuse
  offer msg c =
      if c.is_registered
      then (if ltb (length c.buffer) capacity then accept msg c else refuse msg c)
      else c

  -- Whether that turn panics.
  abbrev pub offer_panics : Client M → Bool
  offer_panics c = if c.is_registered then c.is_closed else false

  -- `unregister`, and whether it panics.
  pub unregister : Client M → Client M
  unregister c = record c {
    is_registered = false;
    is_closed = if c.is_registered then true else c.is_closed;
  }

  -- A receive of `range send`: it ends the loop where the channel is closed and empty.
  receive : List M → Client M → Option (Client M)
  receive [] c = if c.is_closed then some (record c { writer = unregistering }) else none
  receive (msg ∷ rest) c =
      some (record c { buffer = rest; unwritten = msg ∷ []; writer = writing msg })

  -- The deferred calls of the writer are `unregister` and `conn.Close`.
  writer_moves : Writer M → Move → Client M → Option (Client M)
  unfolding unregister receive
  writer_moves ranging take c = receive c.buffer c
  writer_moves (writing msg) write c =
      if c.is_alive
      then some (record c { writer = ranging; written = c.written ++ msg ∷ []; unwritten = [] })
      else none
  writer_moves (writing msg) fail c = some (record c { writer = unregistering })
  writer_moves unregistering writer_unregister c = some (record (unregister c) { writer = closing })
  writer_moves closing writer_close c = some (record c { writer = ended; is_alive = false })
  writer_moves _ _ c = none

  reader_moves : Reader → Move → Client M → Option (Client M)
  unfolding unregister
  reader_moves reading read_error c = some (record c { reader = unregistering })
  reader_moves unregistering reader_unregister c = some (record (unregister c) { reader = closing })
  reader_moves closing reader_close c = some (record c { reader = ended; is_alive = false })
  reader_moves _ _ c = none

  -- One move of one client.
  pub client_moves : Move → Client M → Option (Client M)
  unfolding writer_moves reader_moves
  client_moves close_slow c =
      if c.is_slow then some (record c { is_slow = false; is_alive = false }) else none
  client_moves read_error c = reader_moves c.reader read_error c
  client_moves reader_unregister c = reader_moves c.reader reader_unregister c
  client_moves reader_close c = reader_moves c.reader reader_close c
  client_moves m c = writer_moves c.writer m c

  -- Whether it panics: `close` of a closed channel.
  abbrev pub move_panics : Move → Client M → Bool
  move_panics writer_unregister c = offer_panics c
  move_panics reader_unregister c = offer_panics c
  move_panics m c = false

  -- The i-th client makes a move; the result is `none` where there is no such client or move.
  pub move_at : ℕ → Move → List (Client M) → Option (Bool × List (Client M))
  unfolding client_moves
  move_at i m [] = none
  move_at zero m (c ∷ cs) = Option.map (λ d. (move_panics m c, d ∷ cs)) (client_moves m c)
  move_at (suc i) m (c ∷ cs) = Option.map (λ (p, ds). (p, c ∷ ds)) (move_at i m cs)

  unfoldable pub act : Action M → State M → Option (State M)
  unfolding offer move_at
  act join s = some (record s { clients = register ∷ s.clients })
  act (broadcast msg) s = some (record s {
    clients = map (offer msg) s.clients;
    panicked = s.panicked || any offer_panics s.clients;
  })
  act (move i m) s =
      Option.map (λ (p, cs). record s { clients = cs; panicked = s.panicked || p })
        (move_at i m s.clients)

  -- `newHub`
  abbrev pub new_hub : State M
  new_hub = record { clients = []; panicked = false }

  -- The states that the hub reaches.
  pub data Reach : State M → Type 0 where
    here : Reach new_hub
    next : {s t : State M} (a : Action M) → Reach s → act a s ≡ some t → Reach t
