-- ===== src/Sentry/Tests.antt =====
-- Events for the lambdas.
use mathlib.Core.List.{Memᴰ}
use tf_man.Prelude.{true, ◌≡◌, refl, none, some, List, [], ◌∷◌, pos}
use tf_man.Net.{done}
use tf_man.Sentry.Guardrail
use tf_man.Sentry.Guardrail.{IpPermission, CloudTrailDetail, revoked, revoke}
use tf_man.Sentry.Guardrail.Revoked.{Opens, handler_revokes}
use tf_man.Sentry.SelfHealer

abbrev ssh : IpPermission
ssh = record {
  protocol = "tcp";
  from_port = some (pos 22);
  to_port = some (pos 22);
  ranges = "10.0.0.0/8" ∷ "0.0.0.0/0" ∷ [];
}

abbrev inner : IpPermission
inner = record ssh { ranges = "10.0.0.0/8" ∷ [] }

abbrev opened : CloudTrailDetail
opened = record {
  event_name = "AuthorizeSecurityGroupIngress";
  group_id = "sg-1";
  permissions = inner ∷ ssh ∷ [];
  arn = "ann";
}

handler_revokes_example :
    (rules : List IpPermission) × Memᴰ
      (revoke "sg-1" rules)
      (Guardrail.handler "" true revoked (some opened)).1
    × ((rule : IpPermission) × Memᴰ rule rules × Opens ssh rule)
    × ((rule : IpPermission)
        → Memᴰ rule rules
        → (other : IpPermission) × Memᴰ other opened.permissions × Opens other rule)
handler_revokes_example =
    handler_revokes "" revoked opened ssh refl (Memᴰ.tail (Memᴰ.head refl))
      (Memᴰ.tail (Memᴰ.head refl))

healed : (SelfHealer.handler (some (pos 3)) true (some (pos 1 ∷ [])) done (pos 1)).0 ≡ none
unfolding SelfHealer.handler
healed = refl
