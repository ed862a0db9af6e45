-- ===== src/Redis.antt =====
-- The Redis server that the services call, as an interface: the commands that they use, and the
-- documented effect of each on the integer that a key holds and on its time to live. The passing of
-- time, which removes keys whose time to live is over, is no command and no part of it.
use tf_man.Prelude.{
  ℕ, String, ◌≡◌, Bool, Option, none, some, ℤ, pos, ◌+ℤ◌, ◌-ℤ◌, ◌≤◌, ◌≤ℤ◌, false, str_eq, is_some,
  or_else, not, if◌then◌else◌,
}

-- The number that a missing key stands for in `INCR` and `DECRBY`.
abbrev pub or_zero : Option ℤ → ℤ
or_zero o = or_else o (pos 0)

pub record Redis : Type 1 where
  pub Db : Type 0
  -- `GET`, read as an integer: `none` where the key does not exist
  pub value : String → Db → Option ℤ
  -- seconds that the key has to live when it is written; `none` where it does not expire
  pub ttl : String → Db → Option ℕ
  pub set : String → ℤ → Option ℕ → Db → Db
  pub set_nx : String → ℤ → ℕ → Db → Bool × Db
  pub del : String → Db → Db
  pub incr : String → Db → ℤ × Db
  pub decr_by : String → ℤ → Db → ℤ × Db
  pub expire : String → ℤ → Db → Db
  -- `tonumber` of a script: the double that is nearest to an integer, and the integer that
  -- `cjson.encode` prints for a reply
  pub to_number : ℤ → ℤ
  pub printed : ℤ → ℤ
  pub to_number_exact : (n : ℕ) → n ≤ 9007199254740992 → to_number (pos n) ≡ pos n
  pub to_number_mono : (a b : ℤ) → a ≤ℤ b → to_number a ≤ℤ to_number b
  pub value-set :
      (j k : String) (v : ℤ) (t : Option ℕ) (db : Db)
      → value j (set k v t db) ≡ (if str_eq k j then some v else value j db)
  pub ttl-set :
      (j k : String) (v : ℤ) (t : Option ℕ) (db : Db)
      → ttl j (set k v t db) ≡ (if str_eq k j then t else ttl j db)
  pub set_nx_fresh :
      (k : String) (v : ℤ) (t : ℕ) (db : Db) → (set_nx k v t db).0 ≡ not (is_some (value k db))
  pub value-set_nx :
      (j k : String) (v : ℤ) (t : ℕ) (db : Db)
      → value j (set_nx k v t db).1
        ≡ (if str_eq k j then some (or_else (value k db) v) else value j db)
  pub ttl-set_nx :
      (j k : String) (v : ℤ) (t : ℕ) (db : Db)
      → ttl j (set_nx k v t db).1
        ≡ (if str_eq k j then (if is_some (value k db) then ttl j db else some t) else ttl j db)
  pub value-del :
      (j k : String) (db : Db) → value j (del k db) ≡ (if str_eq k j then none else value j db)
  pub incr_result : (k : String) (db : Db) → (incr k db).0 ≡ or_zero (value k db) +ℤ pos 1
  pub value-incr :
      (j k : String) (db : Db)
      → value j (incr k db).1
        ≡ (if str_eq k j then some (or_zero (value k db) +ℤ pos 1) else value j db)
  pub ttl-incr : (j k : String) (db : Db) → ttl j (incr k db).1 ≡ ttl j db
  pub decr_by_result :
      (k : String) (n : ℤ) (db : Db) → (decr_by k n db).0 ≡ or_zero (value k db) -ℤ n
  pub value-decr_by :
      (j k : String) (n : ℤ) (db : Db)
      → value j (decr_by k n db).1
        ≡ (if str_eq k j then some (or_zero (value k db) -ℤ n) else value j db)
  -- `EXPIRE` of a key, with whatever number of seconds, leaves the other keys alone; with 0 or less it
  -- deletes its key.
  pub value-expire :
      (j k : String) (t : ℤ) (db : Db) → str_eq k j ≡ false → value j (expire k t db) ≡ value j db
  pub ttl-expire :
      (j k : String) (t : ℤ) (db : Db) → str_eq k j ≡ false → ttl j (expire k t db) ≡ ttl j db
