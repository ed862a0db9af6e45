-- ===== src/Outbox/Relay/Progress.antt =====
-- What a relay achieves while nothing fails.
use mathlib.Core.List.{Memᴰ}
use tf_man.Prelude.{
  ℕ, zero, suc, ◌+◌, ◌-◌, ◌*◌, length, Bool, true, false, ◌≡◌, refl, inl, inr, Option, none, List,
  [], ◌∷◌, All, All-mem, Bool-cases, arith,
}
use tf_man.Net.{Answer, done}
use tf_man.Outbox.Table.{Row, mark_outbox_event_published}
use tf_man.Outbox.Table.Pick.{IsFree, Pick, nothing, oldest, list-Pick}
use tf_man.Outbox.Table.Rows.{HasDistinctIds, mark-HasDistinctIds, mark-All, pending, pending-mark}
use tf_man.Outbox.Relay.{
  Round, Outbox, RelayError, work, relay_next, relay_rounds, relay_batch, relay_ticks,
}

-- A round in which PostgreSQL and the receiver do what they are asked, and no row is locked.
pub record IsSmooth (env : Round) : Type 0 where
  pub begins : env.begins ≡ true
  pub lists : env.lists ≡ true
  pub unlocked : (id : ℕ) → env.is_locked id ≡ false
  pub delivers : env.deliver ≡ done
  pub marks : env.marks ≡ true
  pub commits : env.commit ≡ done

module _ {P K : Type 0} (deliver : Answer → ℕ → P → K → Bool × K) where
  -- Rows that the receiver takes when it is reached.
  abbrev pub IsDeliverable : List (Row P) → Type 0
  IsDeliverable rows = All (λ r. (k : K) → (deliver done r.id r.payload k).0 ≡ true) rows

  mark-IsDeliverable :
      (id : ℕ) (rows : List (Row P))
      → IsDeliverable rows
      → IsDeliverable (mark_outbox_event_published id rows)
  mark-IsDeliverable id rows h = mark-All (λ i p. (k : K) → (deliver done i p k).0 ≡ true) id rows h

  pending-zero :
      (is_locked : ℕ → Bool) (rows : List (Row P))
      → ((id : ℕ) → is_locked id ≡ false)
      → All (λ r. ¬ IsFree is_locked r) rows
      → pending rows ≡ 0
  unfolding pending
  pending-zero is_locked [] u h = refl
  pending-zero is_locked (r ∷ rows) u (f, h) = elim (Bool-cases r.published) [
    | inl e ↦ rw e (pending-zero is_locked rows u h)
    | inr e ↦ absurd (f (e, u r.id))
  ]

  -- The two outcomes of a smooth round.
  pub data Progress (s : Outbox P K) (r : Bool × Option RelayError × Outbox P K) : Type 0 where
    idle : pending s.rows ≡ 0 → r ≡ (false, none, s) → Progress s r
    sent :
        (row : Row P) (sink : K)
        → Memᴰ row s.rows
        → row.published ≡ false
        → r ≡ (true, none, record { rows = mark_outbox_event_published row.id s.rows; sink = sink })
        → Progress s r

  work-Progress :
      (env : Round) (s : Outbox P K) {l : List (Row P)}
      → IsSmooth env
      → IsDeliverable s.rows
      → Pick env.is_locked s.rows l
      → Progress s (work deliver env l s)
  unfolding work
  work-Progress env s smooth d (nothing none_free) =
      idle (pending-zero env.is_locked s.rows smooth.unlocked none_free) refl
  work-Progress env s smooth d (oldest row m free least) =
      sent row (deliver done row.id row.payload s.sink).1 m free.0 (
        simp
          (
            smooth.delivers,
            smooth.marks,
            smooth.commits,
            All-mem (λ r. (k : K) → (deliver done r.id r.payload k).0 ≡ true) s.rows d m s.sink,
          )
          refl)

  pub relay_next-Progress :
      (env : Round) (s : Outbox P K)
      → IsSmooth env
      → IsDeliverable s.rows
      → Progress s (relay_next deliver env s)
  unfolding relay_next
  relay_next-Progress env s smooth d =
      simp (smooth.begins, smooth.lists)
        (work-Progress env s smooth d (list-Pick env.is_locked s.rows))

  module _ (env : ℕ → Round) (smooth : (i : ℕ) → IsSmooth (env i)) where
    -- The rows after rounds in which nothing fails.
    record Drained (n : ℕ) (s t : Outbox P K) : Type 0 where
      left : pending t.rows ≡ pending s.rows - n
      distinct : HasDistinctIds t.rows
      deliverable : IsDeliverable t.rows

    relay_rounds-Drained :
        (n i : ℕ) (s : Outbox P K)
        → HasDistinctIds s.rows
        → IsDeliverable s.rows
        → Drained n s (relay_rounds deliver env n i s)
    unfolding relay_rounds
    relay_rounds-Drained zero i s h d = record { left = omega arith; distinct = h; deliverable = d }
    relay_rounds-Drained (suc n) i s h d = elim (relay_next-Progress (env i) s (smooth i) d) [
      | idle none_left e ↦
          rw e (record { left = omega (arith, none_left); distinct = h; deliverable = d })
      | sent row sink m waits e ↦
          let t : Outbox P K = record {
            rows = mark_outbox_event_published row.id s.rows;
            sink = sink;
          } in
          let rest =
            relay_rounds-Drained n (i + 1) t (mark-HasDistinctIds row.id s.rows h)
              (mark-IsDeliverable row.id s.rows d) in
          rw e (record {
            left = omega (arith, pending-mark s.rows h m waits, rest.left);
            distinct = rest.distinct;
            deliverable = rest.deliverable;
          })
    ]

    relay_batch-Drained :
        (s : Outbox P K)
        → HasDistinctIds s.rows
        → IsDeliverable s.rows
        → Drained 20 s (relay_batch deliver env s)
    unfolding relay_batch
    relay_batch-Drained s h d = relay_rounds-Drained 20 0 s h d

  -- While nothing fails, no row is locked and every waiting payload can be delivered, each tick
  -- publishes 20 of the waiting rows, or all where there are fewer.
  pub pending-relay_ticks :
      (ticks : List (ℕ → Round)) (s : Outbox P K)
      → All (λ env. (i : ℕ) → IsSmooth (env i)) ticks
      → HasDistinctIds s.rows
      → IsDeliverable s.rows
      → pending (relay_ticks deliver ticks s).rows ≡ pending s.rows - 20 * length ticks
  unfolding relay_ticks
  pending-relay_ticks [] s all_smooth h d = omega arith
  pending-relay_ticks (env ∷ ticks) s (smooth, all_smooth) h d =
      let one = relay_batch-Drained env smooth s h d in
      omega (
        arith,
        one.left,
        pending-relay_ticks ticks (relay_batch deliver env s) all_smooth one.distinct
            one.deliverable,
      )
