-- ===== src/Tests.antt =====
-- Concrete values for the parameters of the models.
use tf_man.Prelude.{
  ℕ, String, zero, suc, ◌≡◌, refl, sym, ap, not, Option, none, some, ℤ, pos, ◌+ℤ◌, ◌-ℤ◌, str_eq,
  is_some, leb_ℤ, or_else, if◌then◌else◌,
}
use tf_man.Redis.{Redis, or_zero}
use tf_man.Events.{Event, Codec}
use tf_man.Order.Handlers.{Uuid}

pub record Store : Type 0 where
  pub values : String → Option ℤ
  pub ttls : String → Option ℕ

abbrev pub empty_store : Store
empty_store = record { values = λ _. none; ttls = λ _. none }

abbrev put : {A : Type 0} → String → A → (String → A) → String → A
put k a f j = if str_eq k j then a else f j

-- The seconds of an `EXPIRE`, where these are more than 0.
abbrev pub lifetime : ℤ → Option ℕ
lifetime (pos (suc n)) = some (suc n)
lifetime z = none

-- Redis as a function from keys.
abbrev pub memory : Redis
memory = record {
  Db = Store;
  value = λ k db. db.values k;
  ttl = λ k db. db.ttls k;
  set = λ k v t db. record { values = put k (some v) db.values; ttls = put k t db.ttls };
  set_nx = λ k v t db. (
    not (is_some (db.values k)),
    record {
      values = put k (some (or_else (db.values k) v)) db.values;
      ttls = λ j.
          if str_eq k j then (if is_some (db.values k) then db.ttls j else some t) else db.ttls j;
    },
  );
  del = λ k db. record { values = put k none db.values; ttls = put k none db.ttls };
  incr = λ k db. (
    or_zero (db.values k) +ℤ pos 1,
    record db { values = put k (some (or_zero (db.values k) +ℤ pos 1)) db.values },
  );
  decr_by = λ k n db. (
    or_zero (db.values k) -ℤ n,
    record db { values = put k (some (or_zero (db.values k) -ℤ n)) db.values },
  );
  expire = λ k t db. record {
    values =
        λ j. if str_eq k j then (if leb_ℤ t (pos 0) then none else db.values j) else db.values j;
    ttls =
        λ j. if str_eq k j then (if is_some (db.values k) then lifetime t else none) else db.ttls j;
  };
  to_number = λ n. n;
  printed = λ n. n;
  to_number_exact = λ n h. refl;
  to_number_mono = λ a b h. h;
  value-set = λ j k v t db. refl;
  ttl-set = λ j k v t db. refl;
  set_nx_fresh = λ k v t db. refl;
  value-set_nx = λ j k v t db. refl;
  ttl-set_nx = λ j k v t db. refl;
  value-del = λ j k db. refl;
  incr_result = λ k db. refl;
  value-incr = λ j k db. refl;
  ttl-incr = λ j k db. refl;
  decr_by_result = λ k n db. refl;
  value-decr_by = λ j k n db. refl;
  value-expire = λ j k t db e. rw e refl;
  ttl-expire = λ j k t db e. rw e refl;
}

abbrev pub plain_codec : Codec
plain_codec = record {
  Payload = Event;
  marshal = λ e. some e;
  unmarshal = λ e. some e;
  decoded = λ e. e;
  round_trip = λ e p h. sym h;
  type-decoded = λ e. refl;
  order_id-decoded = λ e. refl;
  marshal-decoded = λ e p h. refl;
}

-- One UUID, spelled "u7".
abbrev pub one_uuid : Uuid
one_uuid = record { parse = λ s. if str_eq s "u7" then some 7 else none; print = λ _. "u7" }

-- UUIDs as numbers of strokes.
abbrev strokes : ℕ → String
strokes zero = ""
strokes (suc n) = String.◌∷◌ "i" (strokes n)

abbrev count : String → ℕ
count String.[] = zero
count (String.◌∷◌ c s) = suc (count s)

abbrev pub tally : Uuid
tally = record { parse = λ s. some (count s); print = strokes }

count-strokes : (n : ℕ) → count (strokes n) ≡ n
count-strokes zero = refl
count-strokes (suc n) = ap suc (count-strokes n)

pub tally-parse : (n : ℕ) → tally.parse (tally.print n) ≡ some n
tally-parse n = ap some (count-strokes n)
