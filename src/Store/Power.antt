-- ===== src/Store/Power.antt =====
-- internal/api/handlers.go: the requests on the settings (`Power`),
-- and what is read back of them. `writes` says whether the database takes a write.
use we_sync.Base.{
  ℕ, Bool, true, false, ◌&&◌, ◌||◌, List, [], Option, none, some, String, or_else, if◌then◌else◌,
  ◌is◌, ℤ, pos, is_pos, ◌≡◌, refl, sym, ap, ◌∙◌, arith, Bool-cases, inl, inr, is_iff, suc, not_both,
  subst,
}
use we_sync.Mobile.Decision.{PowerSettings}
use we_sync.Api.Pairing.{Status, no_content, bad_request, server_error}
use we_sync.Store.{Settings, get_power_settings, set_power_settings, strings_of}

abbrev pub is_trigger : String → Bool
is_trigger t = (t is "periodic") || (t is "scheduled") || (t is "on_change_poll")

abbrev pub is_network : String → Bool
is_network n = (n is "any") || (n is "any_wifi") || (n is "trusted_wifi")

-- What `Power` makes of the body of a PUT.
unfoldable pub normalise : PowerSettings → PowerSettings
normalise p = record p {
  sync_trigger =
      if is_trigger p.sync_trigger
      then p.sync_trigger
      else (if (p.sync_trigger is "on_change") || (p.sync_trigger is "live")
          then "on_change_poll"
          else "periodic");
  network_mode = if is_network p.network_mode then p.network_mode else "any_wifi";
  periodic_minutes = if is_pos p.periodic_minutes then p.periodic_minutes else pos 120;
}

module _ (encode : List String → String) (decode : String → Option (List String)) where
  unfoldable pub put_power : Bool → Option PowerSettings → Settings → Settings × Status
  unfolding set_power_settings normalise
  put_power writes none r = (r, bad_request)
  put_power writes (some p) r =
      if writes
      then (set_power_settings encode decode (normalise p) r, no_content)
      else (r, server_error)

-- Settings that the gate can rely on.
abbrev pub is_valid : PowerSettings → Bool
is_valid p =
    is_trigger p.sync_trigger
    && is_network p.network_mode
    && is_pos p.periodic_minutes
    && is_pos p.on_change_poll_minutes

-- The migration of `GetPowerSettings`.
abbrev migrated : String → String
migrated t = if (t is "") || (t is "live") || (t is "on_change") then "on_change_poll" else t

-- Each valid trigger stays as it is, and so does a network mode.
trigger_kept : (t : String) → is_trigger t ≡ true → migrated t ≡ t
unfolding ◌is◌
trigger_kept t h = elim (Bool-cases (t is "periodic")) [
  | inl e ↦ subst (λ s. migrated s ≡ s) (sym ((is_iff t "periodic").0 e)) refl
  | inr e ↦ elim (Bool-cases (t is "scheduled")) [
    | inl f ↦ subst (λ s. migrated s ≡ s) (sym ((is_iff t "scheduled").0 f)) refl
    | inr f ↦
        subst (λ s. migrated s ≡ s)
          (sym ((is_iff t "on_change_poll").0 (third (t is "periodic") (t is "scheduled") _ e f h)))
          refl
  ]
]
  where
    third : (x y z : Bool) → x ≡ false → y ≡ false → (x || y || z) ≡ true → z ≡ true
    third x y z p q k = ground (arith, p, q, k)

abbrev named : String → String
named n = if n is "" then "any_wifi" else n

network_kept : (n : String) → is_network n ≡ true → named n ≡ n
unfolding ◌is◌
network_kept n h = elim (Bool-cases (n is "")) [
  | inl e ↦ absurd (not_both h (ap is_network ((is_iff n "").0 e)))
  | inr e ↦ ap (λ b. if b then "any_wifi" else n) e
]

normal_trigger : (p : PowerSettings) → is_trigger (normalise p).sync_trigger ≡ true
unfolding normalise ◌is◌
normal_trigger p = elim (Bool-cases (is_trigger p.sync_trigger)) [
  | inl e ↦ rw (e, normalise) e
  | inr e ↦ elim (Bool-cases ((p.sync_trigger is "on_change") || (p.sync_trigger is "live"))) [
    | inl f ↦ rw (e, f, normalise) refl
    | inr f ↦ rw (e, f, normalise) refl
  ]
]

normal_network : (p : PowerSettings) → is_network (normalise p).network_mode ≡ true
unfolding normalise ◌is◌
normal_network p = elim (Bool-cases (is_network p.network_mode)) [
  | inl e ↦ rw (e, normalise) e
  | inr e ↦ rw (e, normalise) refl
]

module _ (encode : List String → String) (decode : String → Option (List String)) where
  abbrev stored : PowerSettings → Settings → Option PowerSettings
  stored p r =
      get_power_settings encode decode (some (set_power_settings encode decode (normalise p) r))

  abbrev positive_or : ℤ → ℤ → ℤ
  positive_or d i = if is_pos i then i else d

  positive : (d : ℕ) (i : ℤ) → is_pos (positive_or (pos (suc d)) i) ≡ true
  positive d i = elim (Bool-cases (is_pos i)) [
    | inl e ↦ ap (λ b. is_pos (if b then i else pos (suc d))) e ∙ e
    | inr e ↦ ap (λ b. is_pos (if b then i else pos (suc d))) e ∙ ground arith
  ]

  -- What is read back of normalised settings.
  read_lem :
      (p : PowerSettings) (r : Settings)
      → get_power_settings encode decode (some (set_power_settings encode decode p r))
        ≡ some (record p {
          sync_trigger = migrated p.sync_trigger;
          network_mode = named p.network_mode;
          periodic_minutes = positive_or (pos 240) p.periodic_minutes;
          on_change_poll_minutes = positive_or (pos 30) p.on_change_poll_minutes;
          scheduled_times = strings_of encode decode (encode p.scheduled_times);
          trusted_ssids = strings_of encode decode (encode p.trusted_ssids);
        })
  unfolding get_power_settings set_power_settings
  read_lem p r = refl

  strings_back :
      (l : List String)
      → decode (encode l) ≡ some l
      → (encode l is "") ≡ false
      → strings_of encode decode (encode l) ≡ l
  strings_back l back full =
      ap (λ b. if b then [] else or_else [] (decode (encode l))) full ∙ ap (or_else []) back

-- After a PUT of power settings that the database takes, whatever their values, GET answers settings
-- with one of the three triggers, one of the three network modes, and intervals of at least a minute.
pub put_power-IsValid :
    (encode : List String → String) (decode : String → Option (List String)) (p : PowerSettings)
    (r : Settings)
    → (q : PowerSettings) × ((get_power_settings encode decode
            (some (put_power encode decode true (some p) r).0)
          ≡ some q)
        × (is_valid q ≡ true))
unfolding put_power
put_power-IsValid encode decode p r =
    let n : PowerSettings = normalise p in
    let q : PowerSettings = record n {
      sync_trigger = migrated n.sync_trigger;
      network_mode = named n.network_mode;
      periodic_minutes = positive_or encode decode (pos 240) n.periodic_minutes;
      on_change_poll_minutes = positive_or encode decode (pos 30) n.on_change_poll_minutes;
      scheduled_times = strings_of encode decode (encode n.scheduled_times);
      trusted_ssids = strings_of encode decode (encode n.trusted_ssids);
    } in
    (
      q,
      (
        read_lem encode decode n r,
        four (is_trigger (migrated n.sync_trigger)) (is_network (named n.network_mode)) _ _
            (ap is_trigger (trigger_kept n.sync_trigger (normal_trigger p)) ∙ normal_trigger p)
            (ap is_network (network_kept n.network_mode (normal_network p)) ∙ normal_network p)
            (positive encode decode 239 n.periodic_minutes)
            (positive encode decode 29 n.on_change_poll_minutes),
      ),
    )
  where
    four : (w x y z : Bool) → w ≡ true → x ≡ true → y ≡ true → z ≡ true → (w && x && y && z) ≡ true
    four w x y z a b c d = ground (arith, a, b, c, d)

-- A PUT of valid power settings that the database takes, followed by a GET, answers the settings
-- themselves, if the encodings of its two lists decode to them and are not empty.
pub put_power_back :
    (encode : List String → String) (decode : String → Option (List String))
    → (p : PowerSettings) (r : Settings)
    → decode (encode p.scheduled_times) ≡ some p.scheduled_times
    → (encode p.scheduled_times is "") ≡ false
    → decode (encode p.trusted_ssids) ≡ some p.trusted_ssids
    → (encode p.trusted_ssids is "") ≡ false
    → is_trigger p.sync_trigger ≡ true
    → is_network p.network_mode ≡ true
    → is_pos p.periodic_minutes ≡ true
    → is_pos p.on_change_poll_minutes ≡ true
    → get_power_settings encode decode (some (put_power encode decode true (some p) r).0) ≡ some p
unfolding put_power
put_power_back encode decode p r back full back' full' t n m c =
    ap (λ q. get_power_settings encode decode (some (set_power_settings encode decode q r)))
      (normal p t n m)
    ∙ read_lem encode decode p r
    ∙ same p (trigger_kept p.sync_trigger t) (network_kept p.network_mode n) m c
        (strings_back encode decode p.scheduled_times back full)
        (strings_back encode decode p.trusted_ssids back' full')
  where
    normal :
        (p : PowerSettings)
        → is_trigger p.sync_trigger ≡ true
        → is_network p.network_mode ≡ true
        → is_pos p.periodic_minutes ≡ true
        → normalise p ≡ p
    normal p t n m = unfold normalise in rw (t, n, m) refl

    same :
        (p : PowerSettings)
        → migrated p.sync_trigger ≡ p.sync_trigger
        → named p.network_mode ≡ p.network_mode
        → is_pos p.periodic_minutes ≡ true
        → is_pos p.on_change_poll_minutes ≡ true
        → strings_of encode decode (encode p.scheduled_times) ≡ p.scheduled_times
        → strings_of encode decode (encode p.trusted_ssids) ≡ p.trusted_ssids
        → ◌≡◌ {A = Option PowerSettings}
            (some (record p {
              sync_trigger = migrated p.sync_trigger;
              network_mode = named p.network_mode;
              periodic_minutes = positive_or encode decode (pos 240) p.periodic_minutes;
              on_change_poll_minutes = positive_or encode decode (pos 30) p.on_change_poll_minutes;
              scheduled_times = strings_of encode decode (encode p.scheduled_times);
              trusted_ssids = strings_of encode decode (encode p.trusted_ssids);
            }))
            (some p)
    same p t n m c s k = rw (t, n, m, c, s, k) refl
