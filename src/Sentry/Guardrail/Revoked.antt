-- ===== src/Sentry/Guardrail/Revoked.antt =====
-- Which ingress rules the guardrail revokes.
use mathlib.Core.List.{Memᴰ}
use tf_man.Prelude.{
  ◌⊎◌, String, true, false, ◌≡◌, refl, sym, subst, some, List, [], ◌∷◌, All, str_eq, str_eq_iff,
  Bool-cases, inl, inr,
}
use tf_man.Sentry.Guardrail.{
  IpPermission, CloudTrailDetail, Revocation, revoked, not_found, revoke_error, revoke, open_cidr,
  open_ranges, add_offending, offending, after_revoke, act, handler,
}

-- The rule is the part of an item of the event that is open to every address: the item's protocol and
-- ports, with the open range only, which the item has too.
pub record Opens (item rule : IpPermission) : Type 0 where
  pub protocol : rule.protocol ≡ item.protocol
  pub from_port : rule.from_port ≡ item.from_port
  pub to_port : rule.to_port ≡ item.to_port
  pub ranges : All (λ cidr. cidr ≡ open_cidr) rule.ranges
  pub names : Memᴰ open_cidr rule.ranges
  pub is_open : Memᴰ open_cidr item.ranges

open_ranges-All : (cidrs : List String) → All (λ cidr. cidr ≡ open_cidr) (open_ranges cidrs)
unfolding open_ranges
open_ranges-All [] = tt
open_ranges-All (cidr ∷ cidrs) = elim (Bool-cases (str_eq cidr open_cidr)) [
  | inl e ↦ rw e (refl, open_ranges-All cidrs)
  | inr e ↦ rw e (open_ranges-All cidrs)
]

open_ranges-mem :
    (cidr : String) (cidrs : List String) → Memᴰ cidr (open_ranges cidrs) → Memᴰ cidr cidrs
unfolding open_ranges
open_ranges-mem x [] m = m
open_ranges-mem x (cidr ∷ cidrs) m = elim (Bool-cases (str_eq cidr open_cidr)) [
  | inl e ↦ elim (rw e at m) [
    | Memᴰ.head q ↦ Memᴰ.head (rw q (sym ((str_eq_iff cidr open_cidr).0 e)))
    | Memᴰ.tail k ↦ Memᴰ.tail (open_ranges-mem x cidrs k)
  ]
  | inr e ↦ Memᴰ.tail (open_ranges-mem x cidrs (rw e at m))
]

mem-open_ranges : (cidrs : List String) → Memᴰ open_cidr cidrs → Memᴰ open_cidr (open_ranges cidrs)
unfolding open_ranges
mem-open_ranges [] m = elim m [ ]
mem-open_ranges (cidr ∷ cidrs) (Memᴰ.head q) = rw (← q) (Memᴰ.head refl)
mem-open_ranges (cidr ∷ cidrs) (Memᴰ.tail k) = elim (Bool-cases (str_eq cidr open_cidr)) [
  | inl e ↦ rw e (Memᴰ.tail (mem-open_ranges cidrs k))
  | inr e ↦ rw e (mem-open_ranges cidrs k)
]

rule-Opens :
    (item : IpPermission) (cidr : String) (cidrs : List String)
    → All (λ x. x ≡ open_cidr) (cidr ∷ cidrs)
    → Memᴰ open_cidr item.ranges
    → Opens item (record item { ranges = cidr ∷ cidrs })
rule-Opens item cidr cidrs (e, all) h = record {
  protocol = refl;
  from_port = refl;
  to_port = refl;
  ranges = (e, all);
  names = Memᴰ.head (sym e);
  is_open = h;
}

add-Opens :
    (item rule : IpPermission) (cidrs : List String) (rest : List IpPermission)
    → All (λ x. x ≡ open_cidr) cidrs
    → ((x : String) → Memᴰ x cidrs → Memᴰ x item.ranges)
    → Memᴰ rule (add_offending item cidrs rest)
    → Opens item rule ⊎ Memᴰ rule rest
unfolding add_offending
add-Opens item rule [] rest all keeps m = inr m
add-Opens item rule (cidr ∷ cidrs) rest (e, all) keeps (Memᴰ.head q) = inl (
    subst (Opens item) (sym q)
      (rule-Opens item cidr cidrs (e, all) (keeps open_cidr (Memᴰ.head (sym e)))))
add-Opens item rule (cidr ∷ cidrs) rest all keeps (Memᴰ.tail m) = inr m

add-keeps :
    (item rule : IpPermission) (cidrs : List String) (rest : List IpPermission)
    → Memᴰ rule rest
    → Memᴰ rule (add_offending item cidrs rest)
unfolding add_offending
add-keeps item rule [] rest m = m
add-keeps item rule (cidr ∷ cidrs) rest m = Memᴰ.tail m

add-has :
    (item : IpPermission) (cidrs : List String) (rest : List IpPermission)
    → All (λ x. x ≡ open_cidr) cidrs
    → Memᴰ open_cidr item.ranges
    → Memᴰ open_cidr cidrs
    → (rule : IpPermission) × Memᴰ rule (add_offending item cidrs rest) × Opens item rule
unfolding add_offending
add-has item [] rest all h m = elim m [ ]
add-has item (cidr ∷ cidrs) rest all h m =
    (record item { ranges = cidr ∷ cidrs }, Memᴰ.head refl, rule-Opens item cidr cidrs all h)

-- A rule on the list opens an item.
offending-Opens :
    (items : List IpPermission) (rule : IpPermission)
    → Memᴰ rule (offending items)
    → (item : IpPermission) × Memᴰ item items × Opens item rule
unfolding offending
offending-Opens [] rule m = elim m [ ]
offending-Opens (item ∷ items) rule m =
    elim (add-Opens item rule (open_ranges item.ranges) (offending items)
      (open_ranges-All item.ranges) (λ x k. open_ranges-mem x item.ranges k) m) [
        | inl o ↦ (item, Memᴰ.head refl, o)
        | inr k ↦ let (other, n, o) = offending-Opens items rule k in (other, Memᴰ.tail n, o)
      ]

-- An item with an open range has its rule on the list.
offending-has :
    (items : List IpPermission) (item : IpPermission)
    → Memᴰ item items
    → Memᴰ open_cidr item.ranges
    → (rule : IpPermission) × Memᴰ rule (offending items) × Opens item rule
unfolding offending
offending-has [] item m h = elim m [ ]
offending-has (first ∷ items) item (Memᴰ.head q) h =
    let (rule, m, o) =
      add-has first (open_ranges first.ranges) (offending items) (open_ranges-All first.ranges)
        (rw (← q) h) (mem-open_ranges first.ranges (rw (← q) h)) in
    (rule, m, rw q o)
offending-has (first ∷ items) item (Memᴰ.tail k) h =
    let (rule, m, o) = offending-has items item k h in
    (rule, add-keeps first rule (open_ranges first.ranges) (offending items) m, o)

act_revokes :
    (topic_arn : String) (answer : Revocation) (detail : CloudTrailDetail) (rule : IpPermission)
    (rules : List IpPermission)
    → Memᴰ rule rules
    → Memᴰ (revoke detail.group_id rules) (act topic_arn true answer detail rules).1
unfolding act after_revoke
act_revokes topic_arn answer detail rule [] m = elim m [ ]
act_revokes topic_arn revoked detail rule (x ∷ rules) m = Memᴰ.head refl
act_revokes topic_arn not_found detail rule (x ∷ rules) m = Memᴰ.head refl
act_revokes topic_arn revoke_error detail rule (x ∷ rules) m = Memᴰ.head refl

-- Where an item of the event allows the open range, the event names a group and the AWS configuration
-- loads, the handler asks to revoke rules of that group, whatever EC2 answers: one of them is the part
-- of the item with its protocol, its ports and the open range only, and each of them is such a part of
-- an item of the event that allows the open range.
pub handler_revokes :
    (topic_arn : String) (answer : Revocation) (detail : CloudTrailDetail) (item : IpPermission)
    → str_eq detail.group_id "" ≡ false
    → Memᴰ item detail.permissions
    → Memᴰ open_cidr item.ranges
    → (rules : List IpPermission) × Memᴰ
        (revoke detail.group_id rules)
        (handler topic_arn true answer (some detail)).1
      × ((rule : IpPermission) × Memᴰ rule rules × Opens item rule)
      × ((rule : IpPermission)
          → Memᴰ rule rules
          → (other : IpPermission) × Memᴰ other detail.permissions × Opens other rule)
unfolding handler
handler_revokes topic_arn answer detail item named m h =
    let has = offending-has detail.permissions item m h in
    (
      offending detail.permissions,
      rw named (act_revokes topic_arn answer detail has.0 (offending detail.permissions) has.1),
      has,
      λ rule k. offending-Opens detail.permissions rule k,
    )
