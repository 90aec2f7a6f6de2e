-- ===== src/Config/Laws.antt =====
-- What a validated configuration promises to the parts that read it.
use linker_agent.Prelude.{◌≡◌, Bool, false, ◌||◌, Option, none, some, Text, codes, arith}
use linker_agent.Matchers.{Float, validate_recipe, less_i64}
use linker_agent.Config.{
  StripeSource, MatcherRecipe, Config, ok, ◌>>=◌, validate_and_migrate_export, validate_stripe,
  validate_privacy, validate_heartbeat, validate_command_polling, has_negative,
  validate_matcher_recipe, validate, recipe_of,
}
use linker_agent.Config.Sections.{
  OnOk, OnOk-then, ok_lem, OnOk-ok, unless, IsGiven, IsGiven-cons, IsGiven-or_text, ValidPrivacy,
  privacy_lem, ValidStripe, stripe_lem, OnStripe, ValidExport, export_lem, ValidHeartbeat,
  heartbeat_lem, ValidPolling, polling_lem,
}

module _ (f : Float) where
  open f use {F}

  abbrev pub ValidRecipe : MatcherRecipe F → Type 0
  ValidRecipe r =
      (validate_recipe f (recipe_of r) ≡ none) × (has_negative f (recipe_of r).weights ≡ false)

  recipe_valid :
      (r : MatcherRecipe F)
      → IsGiven r.name
      → IsGiven r.version
      → (f.less r.threshold f.nought || f.less f.one r.threshold) ≡ false
      → less_i64 r.temporal_window_sec 0 ≡ false
      → (f.less r.sku_overlap_min f.nought || f.less f.one r.sku_overlap_min) ≡ false
      → has_negative f (recipe_of r).weights ≡ false
      → OnOk ValidRecipe (ok r)
  unfolding validate_recipe recipe_of
  recipe_valid r name version threshold window overlap weights =
      OnOk-ok ValidRecipe r (ground (arith, name, version, threshold, window, overlap), weights)

  recipe_lem : (r : MatcherRecipe F) → OnOk ValidRecipe (validate_matcher_recipe f r)
  unfolding validate_matcher_recipe recipe_of
  recipe_lem r = unless ValidRecipe _ _ _ (λ threshold. unless ValidRecipe _ _ _ (λ window.
      unless ValidRecipe _ _ _ (λ overlap. unless ValidRecipe _ _ _ (λ weights.
        recipe_valid _ (IsGiven-or_text r.name (codes "default") (IsGiven-cons _ _))
          (IsGiven-or_text r.version (codes "v1") (IsGiven-cons _ _)) threshold window overlap
          weights))))

  -- What the parts that read the configuration rely on.
  pub record Validated (valid_cidr : Text → Bool) (c : Config F) : Type 0 where
    pub privacy : ValidPrivacy c.privacy
    pub stripe : OnStripe valid_cidr c.stripe
    pub export : ValidExport c.export
    pub recipe : ValidRecipe c.recipe
    pub heartbeat : ValidHeartbeat c.cdp_base_url c.heartbeat
    pub polling : ValidPolling c.polling

  sources_lem :
      (valid_cidr : Text → Bool) (o : Option StripeSource)
      → OnOk
          (OnStripe valid_cidr)
          (elim o [ none ↦ ok none | some s ↦ validate_stripe valid_cidr s >>= λ s'. ok (some s') ])
  sources_lem valid_cidr none = OnOk-ok (OnStripe valid_cidr) none tt
  sources_lem valid_cidr (some s) =
      OnOk-then (ValidStripe valid_cidr) (OnStripe valid_cidr) (validate_stripe valid_cidr s) _
        (stripe_lem valid_cidr s) (λ s' valid. OnOk-ok (OnStripe valid_cidr) (some s') valid)

  valid_lem :
      (valid_cidr : Text → Bool) (c : Config F)
      → OnOk (Validated valid_cidr) (validate f valid_cidr c)
  unfolding validate
  valid_lem valid_cidr c =
      let V = Validated valid_cidr in
      unless V _ _ _ (λ addr.
        OnOk-then ValidPrivacy V (validate_privacy c.privacy) _ (privacy_lem c.privacy) (λ p hp.
          OnOk-then (OnStripe valid_cidr) V _ _ (sources_lem valid_cidr c.stripe) (λ s hs.
            OnOk-then ValidExport V (validate_and_migrate_export c.export) _ (export_lem c.export)
              (λ e he.
                OnOk-then ValidRecipe V (validate_matcher_recipe f c.recipe) _ (recipe_lem c.recipe)
                  (λ r hr.
                    OnOk-then (ValidHeartbeat c.cdp_base_url) V
                      (validate_heartbeat c.heartbeat c.cdp_base_url) _
                      (heartbeat_lem c.heartbeat c.cdp_base_url)
                      (λ h hh.
                        OnOk-then ValidPolling V (validate_command_polling c.polling) _
                          (polling_lem c.polling)
                          (λ q hq. OnOk-ok V _ (record {
                            privacy = hp;
                            stripe = hs;
                            export = he;
                            recipe = hr;
                            heartbeat = hh;
                            polling = hq;
                          }))))))))

-- A configuration that the validation accepts, with the defaults that it has set: the mode is strict or standard,
-- identifiers are made synthetic with a salt unless they are to be passed through, Stripe's source has a key, a positive rate, and a webhook that is
-- enabled only with a secret, a path from the root and ranges of addresses that can be parsed, edges can be exported,
-- the recipe is one that the matchers accept and has no negative weight, and heartbeats and polling are enabled only
-- with a secret, heartbeats also only with an address.
pub validate_lem :
    (f : Float) (valid_cidr : Text → Bool) (c c' : Config f.F)
    → validate f valid_cidr c ≡ ok c'
    → Validated f valid_cidr c'
validate_lem f valid_cidr c c' e =
    ok_lem (Validated f valid_cidr) (validate f valid_cidr c) c' e (valid_lem f valid_cidr c)
