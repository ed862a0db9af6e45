-- ===== src/Process.antt =====
-- The life of a process under stampede/apps, from the `errgroup` of its `main` on: the goroutines of
-- the group, the signal that `shutdown.Context` waits for, and the exit. A move that is not possible
-- gives `none`.
pub mod Sound
pub mod Ends
mod Tests
use mathlib.Core.Option
use tf_man.Prelude.{
  ℕ, zero, suc, ◌≡◌, Bool, true, false, not, ◌&&◌, ◌||◌, Option, none, some, List, [], ◌∷◌, map,
  any, is_some, if◌then◌else◌,
}

-- What `g.Go` starts: `ListenAndServe`, the goroutine that shuts the server down, a loop that ends
-- with the context of the group (the relay of an outbox, the subscription), and `Run` of a consumer
-- with the context of the process.
pub data Member : Type 0 where
  server stopper background consumer : Member

-- `shutting`: in `Shutdown`.
pub data Phase : Type 0 where
  running shutting returned : Phase

pub data Failure : Type 0 where
  server_failed shutdown_failed run_failed : Failure

-- The ends of the calls that the goroutines wait for: `ListenAndServe` fails or is closed, the context
-- of the group is done, `Shutdown` meets its deadline or not.
pub data Move : Type 0 where
  finish fail begin : Move

pub data Action : Type 0 where
  signal : Action
  move : ℕ → Move → Action

-- `failure` is the error that the group keeps, the first one. `closed`: `Shutdown` was called.
pub record State : Type 0 where
  pub signalled : Bool
  pub failure : Option Failure
  pub closed : Bool
  pub members : List (Member × Phase)

-- `gCtx.Done()`
abbrev pub group_done : State → Bool
group_done s = s.signalled || is_some s.failure

-- What a goroutine around `Run` makes of the error, by whether the context of the process is done.
abbrev pub run_result : Bool → Option Failure
run_result cancelled = if cancelled then none else some run_failed

-- A goroutine's next phase, its error, and whether it calls `Shutdown`. `Run` returns the error of its
-- context, once that is done.
pub member_moves : Member → Phase → Move → State → Option (Phase × Option Failure × Bool)
member_moves server running finish s = if s.closed then some (returned, none, false) else none
member_moves server running fail s =
    if s.closed then none else some (returned, some server_failed, false)
member_moves stopper running begin s = if group_done s then some (shutting, none, true) else none
member_moves stopper shutting finish s = some (returned, none, false)
member_moves stopper shutting fail s = some (returned, some shutdown_failed, false)
member_moves background running finish s =
    if group_done s then some (returned, none, false) else none
member_moves consumer running finish s =
    if s.signalled then some (returned, run_result s.signalled, false) else none
member_moves _ _ _ s = none

-- The i-th goroutine makes a move.
pub move_at :
    ℕ
    → Move
    → State
    → List (Member × Phase)
    → Option (Option Failure × Bool × List (Member × Phase))
unfolding member_moves
move_at i v s [] = none
move_at zero v s ((m, p) ∷ ms) =
    Option.map (λ (q, f, c). (f, c, (m, q) ∷ ms)) (member_moves m p v s)
move_at (suc i) v s (m ∷ ms) = Option.map (λ (f, c, rest). (f, c, m ∷ rest)) (move_at i v s ms)

-- The group keeps its first error.
abbrev pub first : Option Failure → Option Failure → Option Failure
first none f = f
first (some e) f = some e

unfoldable pub act : Action → State → Option State
unfolding move_at
act signal s = some (record s { signalled = true })
act (move i v) s =
    Option.map
      (λ (f, c, ms). record s { failure = first s.failure f; closed = s.closed || c; members = ms })
      (move_at i v s s.members)

abbrev pub start : List Member → State
start members = record {
  signalled = false;
  failure = none;
  closed = false;
  members = map (λ m. (m, running)) members;
}

-- The states that the process reaches.
pub data Reach (members : List Member) : State → Type 0 where
  here : Reach members (start members)
  next : {s t : State} (a : Action) → Reach members s → act a s ≡ some t → Reach members t

abbrev pub is_returned : Phase → Bool
is_returned returned = true
is_returned _ = false

-- `g.Wait` returns once every goroutine did; the status with which `main` then ends.
abbrev pub exit_status : State → Option ℕ
exit_status s =
    if any (λ (_, p). not (is_returned p)) s.members
    then none
    else some (if is_some s.failure then 1 else 0)

abbrev pub inventory_service : List Member
inventory_service = server ∷ stopper ∷ []

abbrev pub order_service : List Member
order_service = consumer ∷ background ∷ server ∷ stopper ∷ []

abbrev pub catalog_service : List Member
catalog_service = background ∷ server ∷ stopper ∷ []

abbrev pub edge_gateway : List Member
edge_gateway = background ∷ server ∷ stopper ∷ []

abbrev pub payment_worker : List Member
payment_worker = server ∷ stopper ∷ consumer ∷ []

abbrev pub fraud_detector : List Member
fraud_detector = server ∷ stopper ∷ consumer ∷ []

abbrev pub notification_worker : List Member
notification_worker = server ∷ stopper ∷ consumer ∷ []
