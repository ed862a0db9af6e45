-- ===== src/Worker/Notification/Once.antt =====
-- What the deduplication of the notification worker grants, and what it loses.
use tf_man.Prelude.{
  Bool, true, false, ◌≡◌, ◌≢◌, refl, String, Option, none, some, ◌+++◌, is_some, pos, ℤ, not, arith,
  List, [], ◌∷◌,
}
use tf_man.Net.{Answer, done, refused, lost}
use tf_man.Redis.{Redis}
use tf_man.Events.{Event}
use tf_man.Worker.Dedup.{seen, claim_ttl}
use tf_man.Worker.Dedup.Claims.{IsClaimed, Looked, seen-Looked, set_nx-claims}
use tf_man.Worker.Notification.{Notification, State, after_seen, handle}

module _ (redis : Redis) where
  abbrev key : String → String
  key id = "notification:seen:" +++ id

  claimed_is_silent :
      (a : Answer) (id : String) (event : Event) (s : State redis)
      → IsClaimed redis (key id) s.db
      → (handle redis a id (some event) s).1.sent ≡ s.sent
  unfolding handle
  claimed_is_silent a id event s h =
      silent (seen redis a (key id) s.db) (seen-Looked redis a (key id) s.db)
    where
      clash : {o : Option ℤ} → is_some o ≡ true → o ≡ none → ⊥
      clash p q = ground arith

      silent :
          (r : Option Bool × redis.Db)
          → Looked redis (key id) s.db r
          → (after_seen redis event s.sent r).1.sent ≡ s.sent
      silent (none, db) l = refl
      silent (some true, db) l = refl
      silent (some false, db) l = absurd (clash h (l.was_free refl))

  handle-claims :
      (a : Answer) (id : String) (event : Event) (s : State redis)
      → a ≢ refused
      → IsClaimed redis (key id) (handle redis a id (some event) s).1.db
  unfolding handle seen
  handle-claims refused id event s h = absurd (h refl)
  handle-claims lost id event s h = set_nx-claims redis (key id) s.db
  handle-claims done id event s h =
      kept (redis.set_nx (key id) (pos 1) claim_ttl s.db).0
        (redis.set_nx (key id) (pos 1) claim_ttl s.db).1 (set_nx-claims redis (key id) s.db)
    where
      kept :
          (fresh : Bool) (db : redis.Db)
          → IsClaimed redis (key id) db
          → IsClaimed redis (key id) (after_seen redis event s.sent (some (not fresh), db)).1.db
      kept true db c = c
      kept false db c = c

  -- The state after a row of deliveries.
  pub deliver_all : List (Answer × String × Option Event) → State redis → State redis
  deliver_all [] s = s
  deliver_all ((a, id, m) ∷ rest) s = deliver_all rest (handle redis a id m s).1

  after_seen-IsClaimed :
      (j : String) (event : Event) (sent : List Notification) (r : Option Bool × redis.Db)
      → IsClaimed redis j r.1
      → IsClaimed redis j (after_seen redis event sent r).1.db
  unfolding after_seen
  after_seen-IsClaimed j event sent (none, db) h = h
  after_seen-IsClaimed j event sent (some true, db) h = h
  after_seen-IsClaimed j event sent (some false, db) h = h

  handle-IsClaimed :
      (j id : String) (a : Answer) (m : Option Event) (s : State redis)
      → IsClaimed redis j s.db
      → IsClaimed redis j (handle redis a id m s).1.db
  unfolding handle
  handle-IsClaimed j id a none s h = h
  handle-IsClaimed j id a (some event) s h =
      after_seen-IsClaimed j event s.sent _ ((seen-Looked redis a (key id) s.db).keeps j h)

  deliver_all-IsClaimed :
      (j : String) (calls : List (Answer × String × Option Event)) (s : State redis)
      → IsClaimed redis j s.db
      → IsClaimed redis j (deliver_all calls s).db
  unfolding deliver_all
  deliver_all-IsClaimed j [] s h = h
  deliver_all-IsClaimed j ((a, id, m) ∷ rest) s h =
      deliver_all-IsClaimed j rest _ (handle-IsClaimed j id a m s h)

  -- Once Redis carried out the check for a message, also where the worker got an error, no later
  -- delivery of the message notifies anyone, whatever messages are delivered in between, this one too,
  -- and whatever Redis answers to them.
  pub handle_once :
      (a again : Answer) (id : String) (event : Event) (m : Option Event) (s : State redis)
      → (between : List (Answer × String × Option Event)) → a ≢ refused
      → let t = deliver_all between (handle redis a id (some event) s).1 in
        (handle redis again id m t).1.sent ≡ t.sent
  unfolding handle
  handle_once a again id event m s between h =
      let t = deliver_all between (handle redis a id (some event) s).1 in
      silent m t (deliver_all-IsClaimed (key id) between _ (handle-claims a id event s h))
    where
      silent :
          (m : Option Event) (t : State redis)
          → IsClaimed redis (key id) t.db
          → (handle redis again id m t).1.sent ≡ t.sent
      silent none t c = refl
      silent (some later) t c = claimed_is_silent again id later t c
