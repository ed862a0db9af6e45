-- ===== src/Worker/Payment/Threads/Race.antt =====
-- Two deliveries of one message at the same time.
use tf_man.Prelude.{
  String, Bool, true, false, ◌≡◌, refl, ap, Option, none, some, List, [], ◌∷◌, pick, Bool-cases,
  inl, inr, is_some, pos, str_eq_refl,
}
use tf_man.Net.{done, refused}
use tf_man.Redis.{Redis}
use tf_man.Events.{Event, publish, type_order_placed}
use tf_man.Worker.Dedup.{seen, unclaim, claim_ttl}
use tf_man.Worker.Dedup.Claims.{set_nx-claims}
use tf_man.Worker.Payment.{publish_failed, Delivery, dedup_key}
use tf_man.Worker.Payment.Retry.{IsReleased, seen_free}
use tf_man.Worker.Payment.Threads.{
  Stage, claiming, publishing, releasing, ended, Thread, Threads, Action, deliver, call, arrived,
  looked, published, call_of, called, act,
}

module _ (redis : Redis) where
  open redis use {Db, value, set_nx, del, set_nx_fresh, value-set_nx, value-del}

  -- Steps one after another.
  pub data Runs : Threads Db → List Action → Threads Db → Type 0 where
    nil : {s : Threads Db} → Runs s [] s
    cons :
        {s t u : Threads Db} {rest : List Action} (a : Action)
        → act redis a s ≡ some t
        → Runs t rest u
        → Runs s (a ∷ rest) u

  seen_claimed :
      (key : String) (db : Db)
      → is_some (value key db) ≡ true
      → seen redis done key db ≡ (some true, (set_nx key (pos 1) claim_ttl db).1)
  unfolding seen
  seen_claimed key db held = rw (set_nx_fresh key (pos 1) claim_ttl db, held) refl

  -- A state with other threads in front.
  abbrev with_threads : Threads Db → Db → List Thread → Threads Db
  with_threads s db threads = record s { db = db; threads = threads }

  abbrev at : String → Stage → Thread
  at id stage = record { id = id; stage = stage }

  delivers :
      (id : String) (event : Event) (s : Threads Db)
      → event.event_type ≡ type_order_placed
      → act redis (deliver id (some event)) s
        ≡ some (record s { threads = at id (claiming event) ∷ s.threads })
  unfolding act arrived
  delivers id event s placed = rw placed refl

  looks :
      (d : Delivery) (id : String) (event : Event) (rest : List Thread) (s : Threads Db)
      (r : Option Bool × Db)
      → seen redis d.seen (dedup_key id) s.db ≡ r
      → call_of redis (claiming event) id d rest s
        ≡ some (with_threads s r.1 (at id (looked event r.0) ∷ rest))
  unfolding call_of
  looks d id event rest s r e =
      ap (λ (x : Option Bool × Db). some (with_threads s x.1 (at id (looked event x.0) ∷ rest))) e

  publishes_nothing :
      (d : Delivery) (id : String) (event : Event) (rest : List Thread) (s : Threads Db)
      → d.publish ≡ refused
      → call_of redis (publishing event) id d rest s
        ≡ some (record s { threads = at id (releasing event) ∷ rest })
  unfolding call_of publish published
  publishes_nothing d id event rest s e = elim (Bool-cases d.marshals) [
    | inl m ↦ simp (m, e) refl
    | inr m ↦ simp (m, e) refl
  ]

  releases :
      (d : Delivery) (id : String) (event : Event) (rest : List Thread) (s : Threads Db)
      → d.unclaim ≡ done
      → call_of redis (releasing event) id d rest s
        ≡ some
            (with_threads s (del (dedup_key id) s.db) (at id (ended (some publish_failed)) ∷ rest))
  unfolding call_of unclaim
  releases d id event rest s e = simp e refl

  -- A message is delivered twice at the same time. The second delivery finds the claim of the first
  -- and ends without an error, so that the consumer deletes the message; then SNS refuses the
  -- publication of the first, which releases its claim and ends in an error. The message is handled,
  -- nothing was paid, and no claim is left.
  pub payment_lost :
      (d : Delivery) (id : String) (event : Event) (s : Threads Db)
      → IsReleased d
      → event.event_type ≡ type_order_placed
      → value (dedup_key id) s.db ≡ none
      → (t : Threads Db) × Runs s
          (deliver id (some event)
            ∷ (call 0 d ∷ (deliver id (some event) ∷ (call 0 d ∷ (call 1 d ∷ (call 0 d ∷ []))))))
          t
        × (t.topic ≡ s.topic)
        × (t.paid ≡ s.paid)
        × (value (dedup_key id) t.db ≡ none)
        × (t.threads
            ≡ record { id = id; stage = ended (some publish_failed) }
              ∷ (record { id = id; stage = ended none } ∷ s.threads))
  unfolding act pick called looked
  payment_lost d id event s r placed free =
      let key = dedup_key id in
      let once = (set_nx key (pos 1) claim_ttl s.db).1 in
      let twice = (set_nx key (pos 1) claim_ttl once).1 in
      let first = at id (publishing event) in
      let second = at id (ended none) in
      let s1 : Threads Db = record s { threads = at id (claiming event) ∷ s.threads } in
      let s2 = with_threads s once (first ∷ s.threads) in
      let s3 = with_threads s once (at id (claiming event) ∷ (first ∷ s.threads)) in
      let s4 = with_threads s twice (second ∷ (first ∷ s.threads)) in
      let s5 = with_threads s twice (at id (releasing event) ∷ (second ∷ s.threads)) in
      let s6 =
        with_threads s (del key twice)
          (at id (ended (some publish_failed)) ∷ (second ∷ s.threads)) in
      let free_look : seen redis d.seen key s.db ≡ (some false, once) =
        rw r.seen (seen_free redis key s.db free) in
      let claimed_look : seen redis d.seen key once ≡ (some true, twice) =
        rw r.seen (seen_claimed key once (set_nx-claims redis key s.db)) in
      (
        s6,
        cons _ (delivers id event s placed) (
            cons _ (looks d id event s.threads s1 _ free_look) (
              cons _ (delivers id event s2 placed) (
                cons _ (looks d id event (first ∷ s.threads) s3 _ claimed_look) (
                  cons _ (publishes_nothing d id event (second ∷ s.threads) s4 r.publish)
                    (cons _ (releases d id event (second ∷ s.threads) s5 r.unclaim) nil))))),
        refl,
        refl,
        simp (value-del, str_eq_refl) refl,
        refl,
      )
