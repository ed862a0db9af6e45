-- ===== src/Worker/Dedup.antt =====
-- stampede/apps/internal/dedup/dedup.go: a message is claimed by a key in Redis.
pub mod Claims
use tf_man.Prelude.{ℕ, String, Bool, true, false, not, Option, none, some, ℤ, pos}
use tf_man.Net.{Answer, done, refused, lost}
use tf_man.Redis.{Redis}

-- 24 hours, in seconds.
abbrev pub claim_ttl : ℕ
claim_ttl = 86400

module _ (redis : Redis) where
  open redis use {Db, set_nx, del}

  -- `none` is an error; else whether the key was there.
  unfoldable pub seen : Answer → String → Db → Option Bool × Db
  seen done key db =
      let (fresh, after) = set_nx key (pos 1) claim_ttl db in (some (not fresh), after)
  seen refused key db = (none, db)
  seen lost key db = (none, (set_nx key (pos 1) claim_ttl db).1)

  -- Whether there was no error.
  unfoldable pub unclaim : Answer → String → Db → Bool × Db
  unclaim done key db = (true, del key db)
  unclaim refused key db = (false, db)
  unclaim lost key db = (false, del key db)
