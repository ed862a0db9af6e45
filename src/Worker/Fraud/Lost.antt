-- ===== src/Worker/Fraud/Lost.antt =====
-- The alert of the fraud detector whose publication fails, and the deliveries after it.
use tf_man.Prelude.{
  String, false, ◌≡◌, refl, ap, ◌∙◌, Option, none, some, List, ℤ, ◌+ℤ◌, pos, leb_ℤ, str_eq, is_some,
  Bool-cases, inl, inr,
}
use tf_man.Net.{done, refused}
use tf_man.Redis.{Redis, or_zero}
use tf_man.Events.{Event, publish, type_fraud_flagged}
use tf_man.Worker.Dedup.{claim_ttl, seen}
use tf_man.Worker.Dedup.Claims.{IsClaimed, set_nx-claims}
use tf_man.Worker.Fraud.Claims.{
  counter_ne_dedup, dedup_ne_counter, deliver_all, deliver_all-IsClaimed, claimed_is_silent,
}
use tf_man.Worker.Fraud.{
  FraudError, publish_failed, Detector, Delivery, State, dedup_key, counter_key, is_one, judge,
  start_window, count_event, after_seen, handle,
}

module _ (redis : Redis) (d : Detector) where
  open redis use {
    Db, value, set_nx, incr, expire, set_nx_fresh, value-set_nx, value-incr, value-expire,
    incr_result,
  }

  -- The count that the next event of a user brings.
  abbrev pub next_count : Event → State Db → ℤ
  next_count event s = or_zero (value (counter_key event.user_id) s.db) +ℤ pos 1

  -- A run that ends in a failed publication: nothing reaches the topic, the claims stay.
  abbrev Failed : String → State Db → Option FraudError × State Db → Type 0
  Failed id s r =
      (r.0 ≡ some publish_failed)
      × (r.1.topic ≡ s.topic)
      × (value (dedup_key id) r.1.db ≡ value (dedup_key id) s.db)

  judge_fails :
      (v : Delivery) (event : Event) (count : ℤ) (s : State Db)
      → v.publish ≡ refused
      → leb_ℤ count d.threshold ≡ false
      → judge redis d v event count s ≡ (some publish_failed, s)
  unfolding judge publish
  judge_fails v event count s p high = elim (Bool-cases v.marshals) [
    | inl e ↦ simp (high, p, e) refl
    | inr e ↦ simp (high, p, e) refl
  ]

  start_window-Failed :
      (v : Delivery) (id : String) (event : Event) (count : ℤ) (s : State Db)
      → v.expire ≡ done
      → v.publish ≡ refused
      → leb_ℤ count d.threshold ≡ false
      → Failed id s (start_window redis d v event count s)
  unfolding start_window
  start_window-Failed v id event count s x p high = elim (Bool-cases (is_one count)) [
    | inl e ↦
        simp
          (
            e,
            x,
            judge_fails v event count
                (record s { db = expire (counter_key event.user_id) d.window s.db }) p high,
          )
          (
            refl,
            refl,
            value-expire (dedup_key id) (counter_key event.user_id) d.window s.db
                (counter_ne_dedup event.user_id id),
          )
    | inr e ↦ simp (e, judge_fails v event count s p high) (refl, refl, refl)
  ]

  count_event-Failed :
      (v : Delivery) (id : String) (event : Event) (s : State Db)
      → v.incr ≡ done
      → v.expire ≡ done
      → v.publish ≡ refused
      → leb_ℤ (next_count event s) d.threshold ≡ false
      → Failed id s (count_event redis d v event s)
  unfolding count_event
  count_event-Failed v id event s i x p high =
      let t : State Db = record s { db = (incr (counter_key event.user_id) s.db).1 } in
      let (err, topic, claims) =
        start_window-Failed v id event (incr (counter_key event.user_id) s.db).0 t x p
          (rw (incr_result (counter_key event.user_id) s.db) high) in
      simp (i, count_event)
        (
          err,
          topic,
          claims
              ∙ (value-incr (dedup_key id) (counter_key event.user_id) s.db
                  ∙ rw (counter_ne_dedup event.user_id id) refl),
        )

  seen_free :
      (key : String) (db : Db)
      → value key db ≡ none
      → seen redis done key db ≡ (some false, (set_nx key (pos 1) claim_ttl db).1)
  unfolding seen
  seen_free key db free = rw (set_nx_fresh key (pos 1) claim_ttl db, free) refl

  pub handle_free :
      (v : Delivery) (id : String) (event : Event) (s : State Db)
      → str_eq event.event_type type_fraud_flagged ≡ false
      → value (dedup_key id) s.db ≡ none
      → v.seen ≡ done
      → handle redis d v id (some event) s
        ≡ after_seen redis d v event s.topic
            (some false, (set_nx (dedup_key id) (pos 1) claim_ttl s.db).1)
  unfolding handle
  handle_free v id event s other free k = simp (other, k, seen_free (dedup_key id) s.db free) refl

  after_seen-Failed :
      (v : Delivery) (id : String) (event : Event) (s : State Db)
      → v.incr ≡ done
      → v.expire ≡ done
      → v.publish ≡ refused
      → leb_ℤ (next_count event s) d.threshold ≡ false
      → let r =
          after_seen redis d v event s.topic
            (some false, (set_nx (dedup_key id) (pos 1) claim_ttl s.db).1) in
        (r.0 ≡ some publish_failed) × (r.1.topic ≡ s.topic) × IsClaimed redis (dedup_key id) r.1.db
  unfolding after_seen
  after_seen-Failed v id event s i x p high =
      let t : State Db = record s { db = (set_nx (dedup_key id) (pos 1) claim_ttl s.db).1 } in
      let same : value (counter_key event.user_id) t.db ≡ value (counter_key event.user_id) s.db =
        value-set_nx (counter_key event.user_id) (dedup_key id) (pos 1) claim_ttl s.db
        ∙ rw (dedup_ne_counter id event.user_id) refl in
      let (err, topic, claims) = count_event-Failed v id event t i x p (rw same high) in
      (err, topic, ap is_some claims ∙ set_nx-claims redis (dedup_key id) s.db)

  -- An event that lifts its user over the threshold, whose message is not claimed and whose alert SNS
  -- refuses while Redis answers, ends in an error that sends the message back to the queue and puts
  -- nothing on the topic. But the claim on the message is kept: whatever deliveries of any messages
  -- follow, the message is claimed after them, and its next delivery puts nothing on the topic.
  pub alert_lost :
      (v : Delivery) (id : String) (event : Event) (s : State Db)
      → str_eq event.event_type type_fraud_flagged ≡ false
      → value (dedup_key id) s.db ≡ none
      → v.seen ≡ done
      → v.incr ≡ done
      → v.expire ≡ done
      → v.publish ≡ refused
      → leb_ℤ (next_count event s) d.threshold ≡ false
      → let (err, t) = handle redis d v id (some event) s in
        (err ≡ some publish_failed)
        × (t.topic ≡ s.topic)
        × ((calls : List (Delivery × String × Option Event)) (again : Delivery) (m : Option Event)
            → let u = deliver_all redis d calls t in
              IsClaimed redis (dedup_key id) u.db
              × ((handle redis d again id m u).1.topic ≡ u.topic))
  alert_lost v id event s other free k i x p high =
      let (err, topic, claimed) = after_seen-Failed v id event s i x p high in
      let ran = handle_free v id event s other free k in
      let holds =
        ap (λ (r : Option FraudError × State Db). is_some (value (dedup_key id) r.1.db)) ran
        ∙ claimed in
      (
        ap (λ (r : Option FraudError × State Db). r.0) ran ∙ err,
        ap (λ (r : Option FraudError × State Db). r.1.topic) ran ∙ topic,
        λ calls again m.
            let kept = deliver_all-IsClaimed redis d id calls _ holds in
            (kept, claimed_is_silent redis d again id m _ kept),
      )
