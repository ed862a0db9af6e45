-- ===== src/Outbox/Relay/Keeps.antt =====
-- What a round of a relay may do to its state, for invariants of the outbox and its receiver.
use mathlib.Core.List.{Memᴰ}
use tf_man.Prelude.{ℕ, Bool, true, false, inl, inr, List, Bool-cases}
use tf_man.Net.{Answer, done, refused, lost}
use tf_man.Outbox.Table.{Row, mark_outbox_event_published}
use tf_man.Outbox.Table.Pick.{Pick, nothing, oldest, list-Pick}
use tf_man.Outbox.Relay.{Round, Outbox, committed, finish, work, relay_next}

module _ {P K : Type 0} (deliver : Answer → ℕ → P → K → Bool × K) (Q : List (Row P) → K → Type 0)
    (marked : (id : ℕ) (rows : List (Row P)) (sink : K)
      → Q rows sink
      → Q (mark_outbox_event_published id rows) sink)
    (delivered : (a : Answer) (row : Row P) (rows : List (Row P)) (sink : K)
      → Memᴰ row rows
      → Q rows sink
      → Q rows (deliver a row.id row.payload sink).1) where
  abbrev Holds : Outbox P K → Type 0
  Holds s = Q s.rows s.sink

  committed-Holds :
      (a : Answer) (id : ℕ) (rows : List (Row P)) (sink : K)
      → Q rows sink
      → Holds (committed deliver a (mark_outbox_event_published id rows) rows sink).2
  unfolding committed
  committed-Holds done id rows sink h = marked id rows sink h
  committed-Holds refused id rows sink h = h
  committed-Holds lost id rows sink h = marked id rows sink h

  finish-Holds :
      (env : Round) (row : Row P) (ok : Bool) (rows : List (Row P)) (sink : K)
      → Q rows sink
      → Holds (finish deliver env row (ok, sink) rows).2
  unfolding finish
  finish-Holds env row false rows sink h = h
  finish-Holds env row true rows sink h = elim (Bool-cases env.marks) [
    | inl e ↦ simp e (committed-Holds env.commit row.id rows sink h)
    | inr e ↦ simp e h
  ]

  work-Holds :
      (env : Round) (s : Outbox P K) {l : List (Row P)}
      → Pick env.is_locked s.rows l
      → Holds s
      → Holds (work deliver env l s).2
  unfolding work
  work-Holds env s (nothing none_free) h = h
  work-Holds env s (oldest row m free least) h =
      let (ok, sink) = deliver env.deliver row.id row.payload s.sink in
      finish-Holds env row ok s.rows sink (delivered env.deliver row s.rows s.sink m h)

  -- What marking a row keeps, and delivering one of the rows keeps, every round keeps.
  pub relay_next-Holds :
      (env : Round) (s : Outbox P K) → Holds s → Holds (relay_next deliver env s).2
  unfolding relay_next
  relay_next-Holds env s h = elim (Bool-cases env.begins) [
    | inl e ↦ simp e (elim (Bool-cases env.lists) [
      | inl f ↦ simp f (work-Holds env s (list-Pick env.is_locked s.rows) h)
      | inr f ↦ simp f h
    ])
    | inr e ↦ simp e h
  ]
