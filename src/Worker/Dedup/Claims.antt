-- ===== src/Worker/Dedup/Claims.antt =====
-- Claims: who holds one after `Seen` and `Unclaim`.
use tf_man.Prelude.{
  String, Bool, true, false, not, ◌≡◌, refl, Option, none, some, pos, str_eq, str_eq_refl, is_some,
  none_of_is_some, Bool-cases, inl, inr, arith,
}
use tf_man.Net.{Answer, done, refused, lost}
use tf_man.Redis.{Redis}
use tf_man.Worker.Dedup.{claim_ttl, seen, unclaim}

module _ (redis : Redis) where
  open redis use {Db, value, set_nx, del, set_nx_fresh, value-set_nx, value-del}

  -- The key is in Redis.
  abbrev pub IsClaimed : String → Db → Type 0
  IsClaimed key db = is_some (value key db) ≡ true

  -- No claim is lost, and who hears that the key was not there holds the claim.
  pub record Looked (key : String) (db : Db) (r : Option Bool × Db) : Type 0 where
    pub keeps : (j : String) → IsClaimed j db → IsClaimed j r.1
    pub was_free : r.0 ≡ some false → value key db ≡ none
    pub is_claimed : r.0 ≡ some false → IsClaimed key r.1
    pub was_claimed : r.0 ≡ some true → IsClaimed key db

  set_nx-keeps :
      (key : String) (db : Db) (j : String)
      → IsClaimed j db
      → IsClaimed j (set_nx key (pos 1) claim_ttl db).1
  set_nx-keeps key db j h =
      rw (value-set_nx j key (pos 1) claim_ttl db)
        (elim (Bool-cases (str_eq key j)) [ inl e ↦ rw e refl | inr e ↦ rw e h ])

  pub set_nx-claims : (key : String) (db : Db) → IsClaimed key (set_nx key (pos 1) claim_ttl db).1
  set_nx-claims key db = simp (value-set_nx, str_eq_refl)

  free_of_fresh : (b : Bool) (o : Option Bool) → o ≡ some (not (not b)) → o ≡ some false → b ≡ false
  free_of_fresh b o e h = ground arith

  claimed_of_stale :
      (b : Bool) (o : Option Bool) → o ≡ some (not (not b)) → o ≡ some true → b ≡ true
  claimed_of_stale b o e h = ground arith

  pub seen-Looked : (a : Answer) (key : String) (db : Db) → Looked key db (seen redis a key db)
  unfolding seen
  seen-Looked done key db = record {
    keeps = set_nx-keeps key db;
    was_free = λ h. none_of_is_some _ (
        free_of_fresh (is_some (value key db)) _ (rw (set_nx_fresh key (pos 1) claim_ttl db) refl)
          h);
    is_claimed = λ h. set_nx-claims key db;
    was_claimed = λ h.
        claimed_of_stale (is_some (value key db)) _
          (rw (set_nx_fresh key (pos 1) claim_ttl db) refl) h;
  }
  seen-Looked refused key db = record {
    keeps = λ j h. h;
    was_free = λ h. cc;
    is_claimed = λ h. cc;
    was_claimed = λ h. cc;
  }
  seen-Looked lost key db = record {
    keeps = set_nx-keeps key db;
    was_free = λ h. cc;
    is_claimed = λ h. cc;
    was_claimed = λ h. cc;
  }

  -- Releasing one claim keeps the others.
  pub unclaim-keeps :
      (a : Answer) (key : String) (db : Db) (j : String)
      → str_eq key j ≡ false
      → IsClaimed j db
      → IsClaimed j (unclaim redis a key db).1
  unfolding unclaim
  unclaim-keeps done key db j e h = rw (value-del j key db, e) h
  unclaim-keeps refused key db j e h = h
  unclaim-keeps lost key db j e h = rw (value-del j key db, e) h
