-- ===== src/Consumer.antt =====
-- stampede/apps/internal/sqsconsumer/consumer.go: `Run`, as a machine whose moves the context, SQS, the
-- clock and the scheduler of goroutines choose. A move that is not possible gives `none`.
pub mod Sound
pub mod Stops
pub mod World
pub mod Zero
mod Tests
use tf_man.Prelude.{
  ℕ, zero, suc, ◌+◌, ◌≡◌, Bool, true, false, Option, none, some, List, [], ◌∷◌, length, leb, ltb,
  any, pick, ◌==◌, if◌then◌else◌,
}
use tf_man.Net.{Answer, succeeded, applied}
use tf_man.Health.{Tracker, mark_healthy}

-- `types.Message`: the number stands for its receipt.
pub record Queued (B : Type 0) : Type 0 where
  pub receipt : ℕ
  pub body : B

-- Where the loop of `Run` stands: before the `select` at its top, in `ReceiveMessage`, in the pause
-- after an error, in `range out.Messages` with the messages that are left, in `wg.Wait`, after it.
pub data Loop (B : Type 0) : Type 0 where
  polling receiving pausing waiting returned : Loop B
  spawning : List (Queued B) → Loop B

-- `running` and `deleting` are the goroutines whose handler has not returned, and those that go on to
-- `DeleteMessage`; each of both holds a slot of `sem`. `stored` is what SQS has, and `arrived` and
-- `finished` record the messages that ever came, and those whose handler returned nil.
pub record State (B W : Type 0) : Type 0 where
  pub loop : Loop B
  pub cancelled : Bool
  pub running : List (Queued B)
  pub deleting : List (Queued B)
  pub tracker : Option Tracker
  pub world : W
  pub stored : List (Queued B)
  pub arrived : List (Queued B)
  pub finished : List (Queued B)

pub data Action (B E : Type 0) : Type 0 where
  cancel check receive_error resume spawn poll_again stop : Action B E
  arrive : Queued B → Action B E
  receive : ℕ → List (Queued B) → Action B E
  handle : ℕ → E → Action B E
  delete : ℕ → Answer → Action B E

abbrev pub has : {B : Type 0} → ℕ → List (Queued B) → Bool
has r ms = any (λ m. m.receipt == r) ms

-- The messages of a batch that have no goroutine yet.
abbrev pub unspawned : {B : Type 0} → Loop B → List (Queued B)
unspawned (spawning ms) = ms
unspawned _ = []

-- `MaxNumberOfMessages`
abbrev pub max_messages : ℕ
max_messages = 10

module _ {B : Type 0} where
  -- `DeleteMessage`
  pub remove : ℕ → List (Queued B) → List (Queued B)
  remove r [] = []
  remove r (m ∷ ms) = let rest = remove r ms in if m.receipt == r then rest else m ∷ rest

module _ {B W E : Type 0} (concurrency : ℕ) (handler : E → Queued B → W → Bool × W) where
  -- The goroutine of a message after its handler, with whether that returned nil.
  after_handler : Queued B → List (Queued B) → Bool × W → State B W → State B W
  after_handler m rest (false, w) s = record s { running = rest; world = w }
  after_handler m rest (true, w) s = record s {
    running = rest;
    deleting = m ∷ s.deleting;
    finished = m ∷ s.finished;
    world = w;
  }

  after_delete : Queued B → List (Queued B) → Answer → State B W → State B W
  after_delete m rest answer s = record s {
    deleting = rest;
    stored = if applied answer then remove m.receipt s.stored else s.stored;
  }

  -- The moves of the loop, by where it stands.
  on_check : Loop B → State B W → Option (State B W)
  on_check polling s = some (record s { loop = if s.cancelled then waiting else receiving })
  on_check _ s = none

  on_receive : Loop B → ℕ → List (Queued B) → State B W → Option (State B W)
  on_receive receiving now ms s =
      if leb (length ms) max_messages
      then some (record s {
        loop = spawning ms;
        tracker = elim s.tracker [ none ↦ none | some t ↦ some (mark_healthy now t) ];
      })
      else none
  on_receive _ now ms s = none

  on_receive_error : Loop B → State B W → Option (State B W)
  on_receive_error receiving s = some (record s { loop = if s.cancelled then waiting else pausing })
  on_receive_error _ s = none

  -- The timer ends the pause.
  on_resume : Loop B → State B W → Option (State B W)
  on_resume pausing s = some (record s { loop = polling })
  on_resume _ s = none

  on_spawn : Loop B → State B W → Option (State B W)
  on_spawn (spawning (m ∷ ms)) s =
      if ltb (length s.running + length s.deleting) concurrency
      then some (record s { loop = spawning ms; running = m ∷ s.running })
      else none
  on_spawn _ s = none

  on_poll_again : Loop B → State B W → Option (State B W)
  on_poll_again (spawning []) s = some (record s { loop = polling })
  on_poll_again _ s = none

  -- `wg.Wait` returns once no goroutine is left; a cancelled context ends the pause.
  on_stop : Loop B → State B W → Option (State B W)
  on_stop waiting s =
      if leb (length s.running + length s.deleting) 0
      then some (record s { loop = returned })
      else none
  on_stop pausing s = if s.cancelled then some (record s { loop = waiting }) else none
  on_stop _ s = none

  -- The goroutine that was picked goes on.
  pub go_on :
      Option (Queued B × List (Queued B))
      → (Queued B → List (Queued B) → State B W)
      → Option (State B W)
  go_on none f = none
  go_on (some (m, rest)) f = some (f m rest)

  unfoldable pub act : Action B E → State B W → Option (State B W)
  unfolding go_on after_handler after_delete on_check on_receive on_receive_error on_resume on_spawn
      on_poll_again on_stop
  act cancel s = some (record s { cancelled = true })
  act (arrive m) s = some (record s { stored = m ∷ s.stored; arrived = m ∷ s.arrived })
  act check s = on_check s.loop s
  act (receive now ms) s = on_receive s.loop now ms s
  act receive_error s = on_receive_error s.loop s
  act resume s = on_resume s.loop s
  act spawn s = on_spawn s.loop s
  act poll_again s = on_poll_again s.loop s
  act (handle i e) s =
      go_on (pick i s.running) λ m rest. after_handler m rest (handler e m s.world) s
  act (delete i answer) s = go_on (pick i s.deleting) λ m rest. after_delete m rest answer s
  act stop s = on_stop s.loop s

  -- The states that a run from `s` reaches.
  pub data Reach (s : State B W) : State B W → Type 0 where
    here : Reach s s
    next : {t u : State B W} (a : Action B E) → Reach s t → act a t ≡ some u → Reach s u

-- `Run` when it is called.
abbrev pub start : {B W : Type 0} → Option Tracker → W → State B W
start tracker world = record {
  loop = polling;
  cancelled = false;
  running = [];
  deleting = [];
  tracker = tracker;
  world = world;
  stored = [];
  arrived = [];
  finished = [];
}
