-- ===== src/Outbox/Relay.antt =====
-- One round of a relay: a transaction that takes the oldest free unpublished row, delivers it, marks
-- it and commits; and the batch of rounds that every tick runs.
pub mod Progress
pub mod Sent
pub mod Keeps
use tf_man.Prelude.{
  ℕ, zero, suc, ◌+◌, Bool, true, false, Option, none, some, List, [], ◌∷◌, not, if◌then◌else◌,
}
use tf_man.Net.{Answer, done, refused, lost}
use tf_man.Outbox.Table.{Row, list_unpublished_outbox_events, mark_outbox_event_published}

pub data RelayError : Type 0 where
  begin_failed list_failed deliver_failed mark_failed commit_failed : RelayError

-- What PostgreSQL and the receiver answer in one round.
pub record Round : Type 0 where
  pub begins : Bool
  pub lists : Bool
  pub is_locked : ℕ → Bool
  pub deliver : Answer
  pub marks : Bool
  pub commit : Answer

-- The committed rows, and what the receiver got.
pub record Outbox (P K : Type 0) : Type 0 where
  pub rows : List (Row P)
  pub sink : K

module _ {P K : Type 0} (deliver : Answer → ℕ → P → K → Bool × K) where
  -- `tx.Commit`, over the rows that the transaction leaves and those before it.
  committed : Answer → List (Row P) → List (Row P) → K → Bool × Option RelayError × Outbox P K
  committed done marked rows sink = (true, none, record { rows = marked; sink = sink })
  committed refused marked rows sink =
      (true, some commit_failed, record { rows = rows; sink = sink })
  committed lost marked rows sink =
      (true, some commit_failed, record { rows = marked; sink = sink })

  -- After the delivery: mark the row and commit.
  finish : Round → Row P → Bool × K → List (Row P) → Bool × Option RelayError × Outbox P K
  unfolding committed
  finish env row (ok, sink) rows =
      if not ok
      then (true, some deliver_failed, record { rows = rows; sink = sink })
      else if not env.marks
      then (true, some mark_failed, record { rows = rows; sink = sink })
      else committed env.commit (mark_outbox_event_published row.id rows) rows sink

  work : Round → List (Row P) → Outbox P K → Bool × Option RelayError × Outbox P K
  unfolding finish
  work env [] s = (false, none, s)
  work env (row ∷ _) s = finish env row (deliver env.deliver row.id row.payload s.sink) s.rows

  -- Whether there was work, the error, and the state after the transaction.
  unfoldable pub relay_next : Round → Outbox P K → Bool × Option RelayError × Outbox P K
  unfolding work
  relay_next env s =
      if not env.begins
      then (false, some begin_failed, s)
      else if not env.lists
      then (false, some list_failed, s)
      else work env (list_unpublished_outbox_events env.is_locked 1 s.rows) s

  -- `for range n`, from the i-th round on: it ends early when there is no work. Errors are logged.
  unfoldable pub relay_rounds : (ℕ → Round) → ℕ → ℕ → Outbox P K → Outbox P K
  relay_rounds env zero i s = s
  relay_rounds env (suc n) i s =
      let (had_work, err, t) = relay_next (env i) s in
      let rest = relay_rounds env n (i + 1) t in if had_work then rest else t

  unfoldable pub relay_batch : (ℕ → Round) → Outbox P K → Outbox P K
  relay_batch env s = relay_rounds env 20 0 s

  -- The loop of `runOutboxRelay`, which runs a batch at every tick until its context is done: a list
  -- with the answers for each tick.
  unfoldable pub relay_ticks : List (ℕ → Round) → Outbox P K → Outbox P K
  relay_ticks [] s = s
  relay_ticks (env ∷ ticks) s = relay_ticks ticks (relay_batch env s)
