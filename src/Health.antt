-- ===== src/Health.antt =====
-- stampede/apps/internal/health/health.go: the tracker behind `/healthz` of a worker. The clock counts
-- nanoseconds and does not run backwards. And `/healthz` of a service, by the answer to its ping.
use tf_man.Prelude.{ℕ, Bool, ◌-◌, ltb, if◌then◌else◌}
use tf_man.Net.{Reply, bare}

pub record Tracker : Type 0 where
  pub last : ℕ

unfoldable pub mark_healthy : ℕ → Tracker → Tracker
mark_healthy now t = record { last = now }

abbrev pub new_tracker : ℕ → Tracker
new_tracker now = record { last = now }

-- The reply of `Handler(maxAge)` at a time that is not before the last mark.
unfoldable pub healthz : ℕ → ℕ → Tracker → Reply (Unit {0})
healthz max_age now t = if ltb max_age (now - t.last) then bare 503 else bare 200

pub ping_healthz : Bool → Reply (Unit {0})
ping_healthz answers = if answers then bare 200 else bare 503
