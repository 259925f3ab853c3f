-- ===== src/Hmc/Boot/Found.antt =====
-- The storage volume that a partition is booted from (_get_svol_uri, hypervisors/hmc/hmc.py).
use tessia_baselib.Prelude.{
  ◌≡◌, refl, ap, subst, ◌∙◌, ◌⊎◌, inl, inr, true, false, Option, none, some, List, [], ◌∷◌, Text,
  lit, lower, text_eq, text_eq→≡, if◌then◌else◌,
}
use tessia_baselib.Python.{Error, returned, Method, pure, lift, or_raise, ◌>>=◌, ◌>>◌}
use tessia_baselib.Python.Rules.{
  Triple, Triple-pure, Triple-raise, Triple-if, Triple-option, Triple-bind, Triple-call,
  Triple-lift, Triple-weaken, Triple-strengthen,
}
use tessia_baselib.Hmc.Client.{Client, text}
use tessia_baselib.Hmc.Boot.{BootParams, subscript, find_volume, find_in_groups, get_svol_uri}

or_raise-some : (o : Option Text) (x : Error) (a : Text) → or_raise o x ≡ returned a → o ≡ some a
or_raise-some none x a e = cc
or_raise-some (some b) x a e = cc

module _ (z : Client) where
  abbrev Anywhere : z.World → Type 0
  Anywhere w = Unit

  abbrev AnyError : Error → z.World → Type 0
  AnyError e w = Unit

  -- The volume had a value under a key.
  abbrev pub Had : z.Volume → Text → Text → Type 0
  Had v key value =
      (w : z.World) × (w' : z.World) × (z.volume_property v key w ≡ (returned (some value), w'))

  -- The volume was for booting, or was made so.
  abbrev pub ForBoot : z.Volume → Type 0
  ForBoot v =
      ((usage : Text) × Had v (lit "usage") usage × (text_eq usage (lit "boot") ≡ true))
      ⊎ ((w : z.World) × (w' : z.World) × (z.update_volume v ((lit "usage", text (lit "boot")) ∷ [])
              w
            ≡ (returned tt, w')))

  -- `uri` was read last, from a volume for booting that has the wanted value under the key, up to case.
  pub record Found (key wanted uri : Text) (w' : z.World) : Type 0 where
    pub volume : z.Volume
    pub value : Text
    pub had : Had volume key value
    pub same : lower value ≡ lower wanted
    pub for_boot : ForBoot volume
    pub before : z.World
    pub read : z.element_uri volume before ≡ (returned uri, w')

  abbrev Maybe : Text → Text → Option Text → z.World → Type 0
  Maybe key wanted none w = Unit
  Maybe key wanted (some uri) w = Found key wanted uri w

  any_state :
      {A : Type 0} {P : z.World → Type 0} {m : Method z.World A} {Q : A → z.World → Type 0}
      → Triple Anywhere m Q AnyError
      → Triple P m Q AnyError
  any_state {m = m} h = Triple-strengthen m h λ w k. tt

  make_boot :
      (v : z.Volume) (usage : Text)
      → Had v (lit "usage") usage
      → Triple Anywhere
          (if text_eq usage (lit "boot")
            then pure tt
            else z.update_volume v ((lit "usage", text (lit "boot")) ∷ []))
          (λ u w. ForBoot v)
          AnyError
  make_boot v usage h =
      Triple-if (text_eq usage (lit "boot")) (pure tt) _
        (λ y. Triple-pure tt λ w k. inl (usage, h, y))
        (λ n. Triple-weaken _ (Triple-call _ λ e s s' p k. tt) λ u w k. inr (k.0, w, k.2))

  chosen :
      (v : z.Volume) (key wanted value : Text)
      → Had v key value
      → lower value ≡ lower wanted
      → Triple Anywhere
          (do
            used ← z.volume_property v (lit "usage")
            usage ← lift (subscript used "usage")
            if text_eq usage (lit "boot")
                then pure tt
                else z.update_volume v ((lit "usage", text (lit "boot")) ∷ [])
            uri ← z.element_uri v
            pure (some uri))
          (Maybe key wanted)
          AnyError
  unfolding subscript
  chosen v key wanted value h same =
      Triple-bind _ _ (Triple-call (z.volume_property v (lit "usage")) λ e s s' p k. tt) λ used.
        Triple-lift (or_raise used _) _
          (λ usage e. record {
            at = λ w k.
                (with_usage usage
                    (k.0, w, k.2 ∙ ap (λ o. (returned o, w)) (or_raise-some used _ usage e))).at
                  w tt;
          })
          (λ e s h k. tt)
    where
      with_usage :
          (usage : Text)
          → Had v (lit "usage") usage
          → Triple Anywhere
              (do
                if text_eq usage (lit "boot")
                    then pure tt
                    else z.update_volume v ((lit "usage", text (lit "boot")) ∷ [])
                uri ← z.element_uri v
                pure (some uri))
              (Maybe key wanted)
              AnyError
      with_usage usage u = Triple-bind _ _ (make_boot v usage u) λ x. record {
        at = λ w b.
            (Triple-bind {P = Anywhere} _ _ (Triple-call (z.element_uri v) λ e s s' p k. tt) λ uri.
                Triple-pure (some uri) λ w' k. record {
                  volume = v;
                  value = value;
                  had = h;
                  same = same;
                  for_boot = b;
                  before = k.0;
                  read = k.2;
                }).at
              w tt;
      }

  find_volume-Found :
      (key wanted : Text) (vs : List z.Volume)
      → Triple Anywhere (find_volume z key wanted vs) (Maybe key wanted) AnyError
  unfolding find_volume
  find_volume-Found key wanted [] = Triple-pure none λ w k. tt
  find_volume-Found key wanted (v ∷ vs) =
      Triple-bind _ _ (Triple-call (z.volume_property v key) λ e s s' p k. tt) λ found.
        Triple-option found (find_volume z key wanted vs) _
          (λ e. any_state (find_volume-Found key wanted vs))
          λ value e.
            Triple-if (text_eq (lower value) (lower wanted)) _ (find_volume z key wanted vs)
              (λ y. record {
                at = λ w k.
                    (chosen v key wanted value (k.0, w, k.2 ∙ ap (λ o. (returned o, w)) e)
                        (text_eq→≡ _ _ y)).at
                      w tt;
              })
              (λ n. any_state (find_volume-Found key wanted vs))

  find_in_groups-Found :
      (type key wanted : Text) (gs : List z.Group)
      → Triple Anywhere (find_in_groups z type key wanted gs) (Found key wanted) AnyError
  unfolding find_in_groups
  find_in_groups-Found type key wanted [] = Triple-raise _ λ w k. tt
  find_in_groups-Found type key wanted (g ∷ gs) =
      Triple-bind _ _ (Triple-call (z.group_type g) λ e s s' p k. tt) λ actual.
        Triple-if (text_eq (lower actual) type) _ (find_in_groups z type key wanted gs)
          (λ y. Triple-bind _ _ (Triple-call (z.volumes g) λ e s s' p k. tt) λ volumes.
            Triple-bind _ _ (Triple-strengthen _ (find_volume-Found key wanted volumes) λ w k. tt)
              λ found.
                Triple-option found (find_in_groups z type key wanted gs) pure
                  (λ e. any_state (find_in_groups-Found type key wanted gs))
                  λ uri e. Triple-pure uri λ w k. subst (λ o. Maybe key wanted o w) e k)
          (λ n. any_state (find_in_groups-Found type key wanted gs))

  -- The key of a volume and the value that it is to have, by the method of the boot.
  abbrev pub Wanted : BootParams → Text → Text → Type 0
  Wanted boot key value =
      ((text_eq boot.boot_method (lit "scsi") ≡ true)
        × (boot.uuid ≡ some value)
        × (key ≡ lit "uuid"))
      ⊎ ((text_eq boot.boot_method (lit "scsi") ≡ false)
          × (boot.devicenr ≡ some value)
          × (key ≡ lit "device-number"))

  -- When _get_svol_uri returns, what it returns was read last, from a volume that has the wanted uuid
  -- (scsi) or device number (otherwise), up to case, and that was for booting or was made so.
  pub get_svol_uri-Found :
      (p : z.Partition) (boot : BootParams)
      → Triple Anywhere
          (get_svol_uri z p boot)
          (λ uri w.
            (key : Text) × (wanted : Text) × Wanted boot key wanted × Found key wanted uri w)
          AnyError
  unfolding get_svol_uri subscript
  get_svol_uri-Found p boot =
      Triple-if (text_eq boot.boot_method (lit "scsi")) _ _
        (λ y.
          Triple-lift (or_raise boot.uuid _) _
            (λ wanted e.
              Triple-bind _ _ (Triple-call (z.storage_groups p) λ e s s' p k. tt) λ groups.
                Triple-strengthen _
                  (Triple-weaken _ (find_in_groups-Found (lit "fcp") (lit "uuid") wanted groups)
                    λ uri w k.
                      (lit "uuid", wanted, inl (y, or_raise-some boot.uuid _ wanted e, refl), k))
                  λ w k. tt)
            (λ e s h k. tt))
        (λ n.
          Triple-lift (or_raise boot.devicenr _) _
            (λ wanted e.
              Triple-bind _ _ (Triple-call (z.storage_groups p) λ e s s' p k. tt) λ groups.
                Triple-strengthen _
                  (Triple-weaken _
                    (find_in_groups-Found (lit "fc") (lit "device-number") wanted groups)
                    λ uri w k. (
                      lit "device-number",
                      wanted,
                      inr (n, or_raise-some boot.devicenr _ wanted e, refl),
                      k,
                    ))
                  λ w k. tt)
            (λ e s h k. tt))
