-- ===== src/Worker/Payment/Retry.antt =====
-- What a redelivery achieves after a publication that failed.
use tf_man.Prelude.{String, true, false, ◌≡◌, refl, none, some, pos}
use tf_man.Net.{done, refused}
use tf_man.Redis.{Redis}
use tf_man.Events.{publish}
use tf_man.Worker.Dedup.{seen, unclaim, claim_ttl}
use tf_man.Worker.Payment.{Delivery}

-- A delivery in which nothing fails.
pub record IsGood (d : Delivery) : Type 0 where
  pub seen : d.seen ≡ done
  pub marshals : d.marshals ≡ true
  pub publish : d.publish ≡ done

-- One whose publication fails and whose claim is released.
pub record IsReleased (d : Delivery) : Type 0 where
  pub seen : d.seen ≡ done
  pub publish : d.publish ≡ refused
  pub unclaim : d.unclaim ≡ done

module _ (redis : Redis) where
  open redis use {Db, value, set_nx, del, set_nx_fresh, value-set_nx, value-del}

  pub seen_free :
      (key : String) (db : Db)
      → value key db ≡ none
      → seen redis done key db ≡ (some false, (set_nx key (pos 1) claim_ttl db).1)
  unfolding seen
  seen_free key db free = rw (set_nx_fresh key (pos 1) claim_ttl db, free) refl
