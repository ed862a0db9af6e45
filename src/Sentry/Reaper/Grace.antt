-- ===== src/Sentry/Reaper/Grace.antt =====
-- The grace period: nothing is deleted before it is over.
use mathlib.Core.List.{Memᴰ}
use tf_man.Prelude.{
  ℕ, ◌*◌, ◌^◌, ◌<◌, String, ◌≡◌, refl, sym, ◌∙◌, true, false, Option, none, some, List, [], ◌∷◌,
  All, All-append, ℤ, pos, ◌+ℤ◌, ◌-ℤ◌, ◌≤ℤ◌, ltb_ℤ, int64-pos_iff, int_laws, +ℤ_parts, -ℤ_parts,
  str_eq, str_eq_iff, if◌then◌else◌, if_cases, Option-cases, inl, inr, arith,
}
use tf_man.Sentry.Reaper.{
  Clock, Tags, Volume, Address, Kind, ebs_volume, eip, Request, flag, delete, Env, grace_period,
  saturate, find_flag_tag, flag_tag_key, notify, judge, on_flag, sweep, sweep_volumes,
  sweep_address, sweep_addresses, given, with_grace, on_seconds, handler,
}

saturate-lt : (d : ℤ) (g : ℕ) → g < 2 ^ 63 → ltb_ℤ (saturate d) (pos g) ≡ ltb_ℤ d (pos g)
unfolding saturate
saturate-lt d g h = ground arith

grace_lem : (n : ℕ) → n * 1000000000 < 2 ^ 63 → grace_period (pos n) ≡ pos (1000000000 * n)
unfolding grace_period
grace_lem n h = (int64-pos_iff (1000000000 * n)).1 (omega arith)

le_of_ltb : (a b : ℤ) → ltb_ℤ a b ≡ false → b ≤ℤ a
le_of_ltb a b e = ground arith

over :
    (now flagged_at : ℤ) (g : ℕ)
    → ltb_ℤ (now -ℤ flagged_at) (pos g) ≡ false
    → flagged_at +ℤ pos g ≤ℤ now
over now flagged_at g e = omega (int_laws, le_of_ltb (now -ℤ flagged_at) (pos g) e)

module _ (clock : Clock) (env : Env) (g : ℕ) (small : g < 2 ^ 63) where
  -- The resource that a deletion names, with its tags, as EC2 described it: a volume, or an address
  -- that is associated with nothing.
  abbrev pub Found : Kind → String → Tags → Type 0
  Found ebs_volume id tags =
      (v : Volume) × (vs : List Volume) × (env.volumes ≡ some vs)
      × Memᴰ v vs
      × (v.id ≡ id)
      × (v.tags ≡ tags)
  Found eip id tags =
      (a : Address) × (addresses : List Address) × (env.addresses ≡ some addresses)
      × Memᴰ a addresses
      × (a.allocation_id ≡ id)
      × (a.tags ≡ tags)
      × (a.association_id ≡ "")

  -- A deletion is of such a resource, flagged at a time since which the grace period is over.
  abbrev pub IsJustified : Request → Type 0
  IsJustified (delete kind id) =
      (tags : Tags) × Found kind id tags
      × ((value : String) × (find_flag_tag tags ≡ some value)
          × ((t : ℤ) × (clock.parse value ≡ some t) × (t +ℤ pos g ≤ℤ env.now id)))
  IsJustified _ = Unit {0}

  notify-IsJustified : (kind : Kind) (id : String) → All IsJustified (notify clock env kind id)
  unfolding notify
  notify-IsJustified kind id =
      if_cases (All IsJustified) (str_eq env.topic_arn "") (λ _. tt) (λ _. (tt, tt))

  sweep-IsJustified :
      (kind : Kind) (id : String) (tags : Tags)
      → Found kind id tags
      → All IsJustified (sweep clock env (pos g) kind id tags)
  unfolding sweep
  sweep-IsJustified kind id tags found = elim (Option-cases (find_flag_tag tags)) [
    | inl e ↦ rw (e, on_flag) (tt, tt)
    | inr (value, e) ↦ elim (Option-cases (clock.parse value)) [
      | inl f ↦ rw (e, on_flag) (rw (f, judge) tt)
      | inr (t, f) ↦
          rw (e, on_flag)
            (rw (f, judge)
              (if_cases (All IsJustified) (ltb_ℤ (saturate (env.now id -ℤ t)) (pos g)) (λ _. tt)
                λ late. (
                  (
                    tags,
                    found,
                    (
                      value,
                      e,
                      (
                        t,
                        f,
                        over (env.now id) t g (sym (saturate-lt (env.now id -ℤ t) g small) ∙ late),
                      ),
                    ),
                  ),
                  if_cases (All IsJustified) (env.deletes id) (λ _. notify-IsJustified kind id)
                      (λ _. tt),
                )))
    ]
  ]

  sweep_volumes-IsJustified :
      (vs volumes : List Volume)
      → env.volumes ≡ some volumes
      → ((v : Volume) → Memᴰ v vs → Memᴰ v volumes)
      → All IsJustified (sweep_volumes clock env (pos g) vs)
  unfolding sweep_volumes
  sweep_volumes-IsJustified [] volumes e within = tt
  sweep_volumes-IsJustified (v ∷ vs) volumes e within =
      All-append IsJustified (sweep clock env (pos g) ebs_volume v.id v.tags) _
        (sweep-IsJustified ebs_volume v.id v.tags
          (v, volumes, e, within v (Memᴰ.head refl), refl, refl))
        (sweep_volumes-IsJustified vs volumes e λ u m. within u (Memᴰ.tail m))

  sweep_address-IsJustified :
      (a : Address) (addresses : List Address)
      → env.addresses ≡ some addresses
      → Memᴰ a addresses
      → All IsJustified (sweep_address clock env (pos g) a)
  unfolding sweep_address
  sweep_address-IsJustified a addresses e m =
      if_cases (All IsJustified) (str_eq a.association_id "")
        (λ free.
          if_cases (All IsJustified) (str_eq a.allocation_id "") (λ _. tt)
            λ _.
              sweep-IsJustified eip a.allocation_id a.tags
                (a, addresses, e, m, refl, refl, (str_eq_iff a.association_id "").0 free))
        (λ _. tt)

  sweep_addresses-IsJustified :
      (rest addresses : List Address)
      → env.addresses ≡ some addresses
      → ((a : Address) → Memᴰ a rest → Memᴰ a addresses)
      → All IsJustified (sweep_addresses clock env (pos g) rest)
  unfolding sweep_addresses
  sweep_addresses-IsJustified [] addresses e within = tt
  sweep_addresses-IsJustified (a ∷ rest) addresses e within =
      All-append IsJustified (sweep_address clock env (pos g) a) _
        (sweep_address-IsJustified a addresses e (within a (Memᴰ.head refl)))
        (sweep_addresses-IsJustified rest addresses e λ u m. within u (Memᴰ.tail m))

  given-IsJustified :
      {A : Type 0} (f : List A → List Request) (o : Option (List A))
      → ((xs : List A) → o ≡ some xs → All IsJustified (f xs))
      → All IsJustified (given clock f o)
  given-IsJustified f none h = tt
  given-IsJustified f (some xs) h = h xs refl

  with_grace-IsJustified : All IsJustified (with_grace clock env (pos g)).1
  unfolding with_grace
  with_grace-IsJustified =
      All-append IsJustified (given clock (sweep_volumes clock env (pos g)) env.volumes) _
        (given-IsJustified (sweep_volumes clock env (pos g)) env.volumes
          λ xs e. sweep_volumes-IsJustified xs xs e λ v m. m)
        (given-IsJustified (sweep_addresses clock env (pos g)) env.addresses
          λ xs e. sweep_addresses-IsJustified xs xs e λ a m. m)

-- With a grace period of whole seconds that fits into a duration, the reaper deletes nothing but
-- volumes and unassociated addresses that EC2 described with a flag, at least the grace period after
-- the time that the flag says.
pub handler_waits :
    (clock : Clock) (env : Env) (n : ℕ) (small : 1000000000 * n < 2 ^ 63)
    → env.grace_seconds ≡ some (pos n)
    → All (IsJustified clock env (1000000000 * n) small) (handler clock env).1
unfolding handler
handler_waits clock env n small e =
    rw (e, on_seconds)
      (if_cases
        (λ (r : Option _ × List Request). All (IsJustified clock env (1000000000 * n) small) r.1)
        env.loads
        (λ _.
          rw (grace_lem n (omega arith)) (with_grace-IsJustified clock env (1000000000 * n) small))
        (λ _. tt))

not_over :
    (now flagged_at : ℤ) (g : ℕ)
    → now +ℤ pos 1 ≤ℤ flagged_at +ℤ pos g
    → ltb_ℤ (now -ℤ flagged_at) (pos g) ≡ true
not_over now flagged_at g h =
    ground (arith, +ℤ_parts now (pos 1), +ℤ_parts flagged_at (pos g), -ℤ_parts now flagged_at)

is_over :
    (now flagged_at : ℤ) (g : ℕ)
    → flagged_at +ℤ pos g ≤ℤ now
    → ltb_ℤ (now -ℤ flagged_at) (pos g) ≡ false
is_over now flagged_at g h = ground (arith, +ℤ_parts flagged_at (pos g), -ℤ_parts now flagged_at)

-- A resource without a flag is flagged with the time. With that flag, a sweep after the grace period
-- deletes it, and a sweep that comes a second or more before its end does nothing.
sweep-sweep :
    (clock : Clock) (env later : Env) (g : ℕ) (kind : Kind) (id : String) (tags : Tags)
    → g < 2 ^ 63
    → find_flag_tag tags ≡ none
    → let value = clock.format (env.now id) in
      let next = sweep clock later (pos g) kind id ((flag_tag_key, value) ∷ tags) in
      (sweep clock env (pos g) kind id tags ≡ flag id value ∷ [])
      × (env.now id +ℤ pos g ≤ℤ later.now id
          → (rest : List Request) × (next ≡ delete kind id ∷ rest))
      × (later.now id +ℤ pos 1000000000 ≤ℤ env.now id +ℤ pos g → next ≡ [])
unfolding sweep find_flag_tag
sweep-sweep clock env later g kind id tags small none_yet =
    let (u, read, before, within) = clock.round_trip (env.now id) in
    let early = saturate-lt (later.now id -ℤ u) g small in
    (
      rw (none_yet, on_flag) refl,
      λ past. (
        (if later.deletes id then notify clock later kind id else []),
        rw (read, judge)
            (rw (early, is_over (later.now id) u g (omega (int_laws, past, before))) refl),
      ),
      λ soon.
          rw (read, judge)
            (rw (early, not_over (later.now id) u g (omega (int_laws, soon, within))) refl),
    )
