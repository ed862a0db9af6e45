-- ===== src/Sentry/Reaper.antt =====
-- sentry/lambdas/reaper/main.go: the handler that flags volumes and addresses that nothing uses, and
-- deletes those that were flagged long enough ago. Times and durations count nanoseconds.
pub mod Grace
mod Tests
use tf_man.Prelude.{
  ℕ, ◌^◌, ◌-◌, String, ◌≡◌, Bool, true, false, Option, none, some, List, [], ◌∷◌, ◌++◌, ℤ, pos,
  negsuc, ◌+ℤ◌, ◌-ℤ◌, ◌≤ℤ◌, ltb_ℤ, int64, times, str_eq, if◌then◌else◌,
}

abbrev pub flag_tag_key : String
flag_tag_key = "sentry-flagged-at"

abbrev pub Tags : Type 0
Tags = List (String × String)

-- `time.RFC3339`, which goes down to seconds: a time that was written is read as the start of its
-- second.
pub record Clock : Type 0 where
  pub format : ℤ → String
  pub parse : String → Option ℤ
  pub round_trip :
      (t : ℤ) → (u : ℤ) × (parse (format t) ≡ some u) × (u ≤ℤ t) × (t ≤ℤ u +ℤ pos 999999999)

pub record Volume : Type 0 where
  pub id : String
  pub tags : Tags

pub record Address : Type 0 where
  pub allocation_id : String
  pub association_id : String
  pub tags : Tags

pub data Kind : Type 0 where
  ebs_volume eip : Kind

-- The requests that the reaper sends: `CreateTags`, `DeleteVolume` or `ReleaseAddress`, and `Publish`.
pub data Request : Type 0 where
  flag : String → String → Request
  delete : Kind → String → Request
  publish : Kind → String → Request

pub data ReaperError : Type 0 where
  bad_grace config_failed : ReaperError

-- `topic_arn` and the parsed GRACE_PERIOD_SECONDS are the environment's; `now` is the time at which a
-- resource is swept, and `deletes` whether the deletion of one is reported to work.
pub record Env : Type 0 where
  pub topic_arn : String
  pub grace_seconds : Option ℤ
  pub loads : Bool
  pub now : String → ℤ
  pub deletes : String → Bool
  pub volumes : Option (List Volume)
  pub addresses : Option (List Address)

-- `time.Duration(n) * time.Second`
pub grace_period : ℤ → ℤ
grace_period n = int64 (times 1000000000 n)

abbrev pub max_duration : ℤ
max_duration = pos (2 ^ 63 - 1)

abbrev pub min_duration : ℤ
min_duration = negsuc (2 ^ 63 - 1)

-- `t.Sub(u)`, which stops at the bounds of a duration.
pub saturate : ℤ → ℤ
saturate d =
    if ltb_ℤ d min_duration then min_duration else if ltb_ℤ max_duration d then max_duration else d

-- The value of the first tag with the key.
pub find_flag_tag : Tags → Option String
find_flag_tag [] = none
find_flag_tag ((key, value) ∷ tags) =
    if str_eq key flag_tag_key then some value else find_flag_tag tags

module _ (clock : Clock) where
  -- A successful deletion is announced, where there is a topic.
  notify : Env → Kind → String → List Request
  notify env kind id = if str_eq env.topic_arn "" then [] else publish kind id ∷ []

  reap : Env → Kind → String → List Request
  unfolding notify
  reap env kind id = delete kind id ∷ (if env.deletes id then notify env kind id else [])

  -- What follows the reading of the flag's time.
  judge : Env → ℤ → Kind → String → Option ℤ → List Request
  unfolding reap saturate
  judge env grace kind id none = []
  judge env grace kind id (some flagged_at) =
      if ltb_ℤ (saturate (env.now id -ℤ flagged_at)) grace then [] else reap env kind id

  on_flag : Env → ℤ → Kind → String → Option String → List Request
  unfolding judge
  on_flag env grace kind id none = flag id (clock.format (env.now id)) ∷ []
  on_flag env grace kind id (some value) = judge env grace kind id (clock.parse value)

  pub sweep : Env → ℤ → Kind → String → Tags → List Request
  unfolding on_flag find_flag_tag
  sweep env grace kind id tags = on_flag env grace kind id (find_flag_tag tags)

  sweep_volumes : Env → ℤ → List Volume → List Request
  sweep_volumes env grace [] = []
  sweep_volumes env grace (v ∷ volumes) =
      sweep env grace ebs_volume v.id v.tags ++ sweep_volumes env grace volumes

  -- Addresses in use, and those without an allocation, are passed over.
  sweep_address : Env → ℤ → Address → List Request
  sweep_address env grace a =
      if str_eq a.association_id ""
      then (if str_eq a.allocation_id "" then [] else sweep env grace eip a.allocation_id a.tags)
      else []

  sweep_addresses : Env → ℤ → List Address → List Request
  unfolding sweep_address
  sweep_addresses env grace [] = []
  sweep_addresses env grace (a ∷ addresses) =
      sweep_address env grace a ++ sweep_addresses env grace addresses

  -- A list that EC2 does not give is an error that is only logged.
  abbrev given : {A : Type 0} → (List A → List Request) → Option (List A) → List Request
  given f none = []
  given f (some xs) = f xs

  with_grace : Env → ℤ → Option ReaperError × List Request
  unfolding sweep_volumes sweep_addresses
  with_grace env grace = (
    none,
    given (sweep_volumes env grace) env.volumes ++ given (sweep_addresses env grace) env.addresses,
  )

  on_seconds : Env → Option ℤ → Option ReaperError × List Request
  unfolding with_grace grace_period
  on_seconds env none = (some bad_grace, [])
  on_seconds env (some n) =
      if env.loads then with_grace env (grace_period n) else (some config_failed, [])

  pub handler : Env → Option ReaperError × List Request
  unfolding on_seconds
  handler env = on_seconds env env.grace_seconds
