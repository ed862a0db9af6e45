-- ===== src/Sentry/Guardrail.antt =====
-- sentry/lambdas/guardrail/main.go: the handler that revokes ingress rules open to every address.
pub mod Revoked
use tf_man.Prelude.{
  ℕ, String, Bool, true, false, Option, none, some, List, [], ◌∷◌, ℤ, str_eq, if◌then◌else◌,
}

abbrev pub open_cidr : String
open_cidr = "0.0.0.0/0"

-- `ipPermissionItem`, and `IpPermission` of the EC2 client: a protocol, ports and the ranges' CIDRs.
pub record IpPermission : Type 0 where
  pub protocol : String
  pub from_port : Option ℤ
  pub to_port : Option ℤ
  pub ranges : List String

pub record CloudTrailDetail : Type 0 where
  pub event_name : String
  pub group_id : String
  pub permissions : List IpPermission
  pub arn : String

-- How `RevokeSecurityGroupIngress` ends: `not_found` is the API's "InvalidPermission.NotFound".
pub data Revocation : Type 0 where
  revoked not_found revoke_error : Revocation

pub data GuardrailError : Type 0 where
  parse_failed config_failed revoke_failed : GuardrailError

-- The requests that the handler sends: to EC2 a group with permissions, to SNS the group and the ARN
-- of a message.
pub data Request : Type 0 where
  revoke : String → List IpPermission → Request
  notify : String → String → Request

open_ranges : List String → List String
open_ranges [] = []
open_ranges (cidr ∷ cidrs) =
    let rest = open_ranges cidrs in if str_eq cidr open_cidr then open_cidr ∷ rest else rest

-- The permission that is put on the list for an item whose open ranges are given.
add_offending : IpPermission → List String → List IpPermission → List IpPermission
add_offending item [] rest = rest
add_offending item (cidr ∷ cidrs) rest = record item { ranges = cidr ∷ cidrs } ∷ rest

pub offending : List IpPermission → List IpPermission
unfolding add_offending
offending [] = []
offending (item ∷ items) = add_offending item (open_ranges item.ranges) (offending items)

-- What follows the revocation: an error, and the requests sent. `topic_arn` is the environment's; a
-- failed publication is only logged.
after_revoke :
    String
    → CloudTrailDetail
    → List IpPermission
    → Revocation
    → Option GuardrailError × List Request
after_revoke topic_arn detail perms revoked = (
  none,
  revoke detail.group_id perms
      ∷ (if str_eq topic_arn "" then [] else notify detail.group_id detail.arn ∷ []),
)
after_revoke topic_arn detail perms not_found = (none, revoke detail.group_id perms ∷ [])
after_revoke topic_arn detail perms revoke_error =
    (some revoke_failed, revoke detail.group_id perms ∷ [])

act :
    String
    → Bool
    → Revocation
    → CloudTrailDetail
    → List IpPermission
    → Option GuardrailError × List Request
unfolding after_revoke
act topic_arn loads answer detail [] = (none, [])
act topic_arn loads answer detail (perm ∷ perms) =
    if loads then after_revoke topic_arn detail (perm ∷ perms) answer else (some config_failed, [])

-- `none` for the detail is a parse error; `loads` is whether the AWS configuration loads.
pub handler :
    String → Bool → Revocation → Option CloudTrailDetail → Option GuardrailError × List Request
unfolding act
handler topic_arn loads answer none = (some parse_failed, [])
handler topic_arn loads answer (some detail) =
    if str_eq detail.group_id ""
    then (none, [])
    else act topic_arn loads answer detail (offending detail.permissions)
