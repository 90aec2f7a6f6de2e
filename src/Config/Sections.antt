-- ===== src/Config/Sections.antt =====
-- What the validation of each section promises.
use linker_agent.Prelude.{
  ℕ, ◌≡◌, refl, sym, subst, ◌⊎◌, inl, inr, Bool, true, false, not, ◌&&◌, List, [], ◌∷◌, Option,
  none, some, Text, codes, eq_text, eq_text_refl, eq_text→eq, has_prefix, if◌then◌else◌, lookup,
  is_nonpos, ℤ, pos, Bool-cases, arith,
}
use linker_agent.Exporter.Options.{has_http, value_of, validate_stream}
use linker_agent.Config.{
  Error, StripeWebhook, StripeSource, Privacy, Export, Heartbeat, CommandPolling, Result, ok, err,
  ◌>>=◌, refuse, put, put_default, or_text, all_valid, check_http, check_file,
  validate_and_migrate_export, validate_stripe_webhook, validate_stripe, validate_privacy,
  validate_heartbeat, validate_command_polling,
}

-- What holds of a result, if there is one.
unfoldable pub OnOk {ℓ κ} : {A : Type ℓ} → (A → Type κ) → Result A → Type κ
OnOk P (ok a) = P a
OnOk P (err e) = Unit

pub OnOk-then {ℓ κ ρ μ} :
    {A : Type ℓ} {B : Type κ} (P : A → Type ρ) (Q : B → Type μ) (r : Result A) (k : A → Result B)
    → OnOk P r
    → ((a : A) → P a → OnOk Q (k a))
    → OnOk Q (r >>= k)
unfolding OnOk
OnOk-then P Q (ok a) k p each = each a p
OnOk-then P Q (err e) k p each = tt

pub ok_lem {ℓ κ} : {A : Type ℓ} (P : A → Type κ) (r : Result A) (a : A) → r ≡ ok a → OnOk P r → P a
unfolding OnOk
ok_lem P r a e h = subst (λ r. OnOk P r) e h

pub OnOk-ok {ℓ κ} : {A : Type ℓ} (P : A → Type κ) (a : A) → P a → OnOk P (ok a)
unfolding OnOk
OnOk-ok P a p = p

-- A test that refuses is known to fail after it.
pub unless {ℓ κ} :
    {A : Type ℓ} (P : A → Type κ) (b : Bool) (e : Error) (r : Result A)
    → (b ≡ false → OnOk P r)
    → OnOk P (refuse b e r)
unfolding OnOk refuse
unless P true e r k = tt
unless P false e r k = k refl

pub either {ℓ κ} :
    {A : Type ℓ} (P : A → Type κ) (b : Bool) (r r' : Result A)
    → (b ≡ true → OnOk P r)
    → (b ≡ false → OnOk P r')
    → OnOk P (if b then r else r')
either P true r r' one other = one refl
either P false r r' one other = other refl

-- The text is given.
abbrev pub IsGiven : Text → Type 0
IsGiven t = eq_text t [] ≡ false

pub IsGiven-cons : (x : ℕ) (t : Text) → IsGiven (x ∷ t)
unfolding eq_text
IsGiven-cons x t = refl

pub IsGiven-or_text : (t d : Text) → IsGiven d → IsGiven (or_text t d)
IsGiven-or_text t d h = elim (Bool-cases (eq_text t [])) [ inl e ↦ rw e h | inr e ↦ rw e e ]

abbrev pub ValidPrivacy : Privacy → Type 0
ValidPrivacy p =
    ((p.mode ≡ codes "strict") ⊎ (p.mode ≡ codes "standard"))
    × ((p.id_mode ≡ codes "passthrough") ⊎ ((p.id_mode ≡ codes "strict") × IsGiven p.tenant_salt))

pub privacy_lem : (p : Privacy) → OnOk ValidPrivacy (validate_privacy p)
unfolding validate_privacy
privacy_lem p = unless ValidPrivacy _ _ _ (λ mode. unless ValidPrivacy _ _ _ (λ id_mode.
    unless ValidPrivacy _ _ _ (λ salt.
      unless ValidPrivacy _ _ _ (λ legacy. OnOk-ok ValidPrivacy _ (modes mode, ids id_mode salt)))))
  where
    modes :
        (not (eq_text p.mode (codes "strict")) && not (eq_text p.mode (codes "standard"))) ≡ false
        → (p.mode ≡ codes "strict") ⊎ (p.mode ≡ codes "standard")
    modes h = elim (Bool-cases (eq_text p.mode (codes "strict"))) [
      | inl same ↦ inl (eq_text→eq _ _ same)
      | inr other ↦ inr (eq_text→eq _ _ (ground (arith, h, other)))
    ]

    m : Text
    m = or_text p.id_mode (codes "strict")

    ids :
        (not (eq_text m (codes "strict")) && not (eq_text m (codes "passthrough"))) ≡ false
        → (eq_text m (codes "strict") && eq_text p.tenant_salt []) ≡ false
        → (m ≡ codes "passthrough") ⊎ ((m ≡ codes "strict") × IsGiven p.tenant_salt)
    ids h salt = elim (Bool-cases (eq_text m (codes "strict"))) [
      | inl same ↦ inr (eq_text→eq _ _ same, ground (arith, salt, same))
      | inr other ↦ inl (eq_text→eq _ _ (ground (arith, h, other)))
    ]

abbrev pub ValidWebhook : (Text → Bool) → StripeWebhook → Type 0
ValidWebhook valid_cidr w =
    (w.enabled ≡ true)
    → IsGiven w.signing_secret
      × (has_prefix (codes "/") w.path ≡ true)
      × (all_valid valid_cidr w.allowed_ip_ranges ≡ true)

pub webhook_lem :
    (valid_cidr : Text → Bool) (w : StripeWebhook)
    → OnOk (ValidWebhook valid_cidr) (validate_stripe_webhook valid_cidr w)
unfolding validate_stripe_webhook
webhook_lem valid_cidr w =
    either (ValidWebhook valid_cidr) (not w.enabled) (ok w) _
      (λ off. OnOk-ok (ValidWebhook valid_cidr) w (λ on. absurd (ground (arith, on, off))))
      (λ on. unless (ValidWebhook valid_cidr) _ _ _ (λ secret.
        unless (ValidWebhook valid_cidr) _ _ _ (λ path.
          unless (ValidWebhook valid_cidr) _ _ _ (λ ranges.
            OnOk-ok (ValidWebhook valid_cidr) _
              (λ _. (secret, ground (arith, path), ground (arith, ranges)))))))

abbrev pub ValidStripe : (Text → Bool) → StripeSource → Type 0
ValidStripe valid_cidr s =
    IsGiven s.api_key
    × (is_nonpos s.max_requests_per_second ≡ false)
    × ValidWebhook valid_cidr s.webhook

pub stripe_lem :
    (valid_cidr : Text → Bool) (s : StripeSource)
    → OnOk (ValidStripe valid_cidr) (validate_stripe valid_cidr s)
unfolding validate_stripe
stripe_lem valid_cidr s = unless (ValidStripe valid_cidr) _ _ _ (λ key.
    OnOk-then (ValidWebhook valid_cidr) (ValidStripe valid_cidr)
      (validate_stripe_webhook valid_cidr s.webhook) _ (webhook_lem valid_cidr s.webhook)
      (λ webhook valid.
        OnOk-ok (ValidStripe valid_cidr) _ (key, positive s.max_requests_per_second, valid)))
  where
    positive : (z : ℤ) → is_nonpos (if is_nonpos z then pos 8 else z) ≡ false
    positive z = elim (Bool-cases (is_nonpos z)) [ inl low ↦ rw low refl | inr high ↦ rw high high ]

abbrev pub OnStripe : (Text → Bool) → Option StripeSource → Type 0
OnStripe valid_cidr none = Unit
OnStripe valid_cidr (some s) = ValidStripe valid_cidr s

abbrev pub ValidExport : Export → Type 0
ValidExport e = validate_stream e.cfg (codes "edges") ≡ none

pub value_of-put : (key v : Text) (m : List (Text × Text)) → value_of (put key v m) key ≡ v
unfolding value_of put lookup
value_of-put key v [] = ground (arith, eq_text_refl key)
value_of-put key v ((k, w) ∷ es) = elim (Bool-cases (eq_text key k)) [
  | inl same ↦ ground (arith, same)
  | inr other ↦ ground (arith, other, value_of-put key v es)
]

pub IsGiven-put_default :
    (key v : Text) (m : List (Text × Text))
    → IsGiven v
    → IsGiven (value_of (put_default key v m) key)
IsGiven-put_default key v m h = elim (Bool-cases (eq_text (value_of m key) [])) [
  | inl none_ ↦ rw none_ (subst IsGiven (sym (value_of-put key v m)) h)
  | inr there ↦ rw there there
]

-- Whether the stream of edges has a route, where it needs one.
abbrev pub HasRoute : Export → Type 0
HasRoute e = (has_http e.cfg.mode && eq_text (value_of e.cfg.routes (codes "edges")) []) ≡ false

pub http_lem : (e : Export) → OnOk HasRoute (check_http e)
unfolding check_http
http_lem e =
    either HasRoute (not (has_http e.cfg.mode)) (ok e) _
      (λ off. OnOk-ok HasRoute e (ground (arith, off)))
      (λ on. unless HasRoute _ _ _ (λ url. OnOk-ok HasRoute _ (
        ground (
          arith,
          IsGiven-put_default (codes "edges") (codes "/ingest/edges") e.cfg.routes
              (IsGiven-cons _ _),
        ))))

pub file_lem : (e : Export) → HasRoute e → OnOk ValidExport (check_file e)
unfolding check_file validate_stream
file_lem e route =
    unless ValidExport _ _ _ (λ path. OnOk-ok ValidExport e (ground (arith, route, path)))

pub export_lem : (e : Export) → OnOk ValidExport (validate_and_migrate_export e)
unfolding validate_and_migrate_export
export_lem e =
    unless ValidExport _ _ _
      (λ mode. OnOk-then HasRoute ValidExport (check_http _) _ (http_lem _) (λ e'. file_lem e'))

abbrev pub ValidHeartbeat : Text → Heartbeat → Type 0
ValidHeartbeat url h =
    (h.enabled ≡ true) → (IsGiven h.endpoint ⊎ IsGiven url) × IsGiven h.signature_secret

pub heartbeat_lem :
    (h : Heartbeat) (url : Text) → OnOk (ValidHeartbeat url) (validate_heartbeat h url)
unfolding validate_heartbeat
heartbeat_lem h url = unless (ValidHeartbeat url) _ _ _ (λ endpoint.
    unless (ValidHeartbeat url) _ _ _ (λ secret.
      OnOk-ok (ValidHeartbeat url) _ (λ on. (given endpoint on, ground (arith, secret, on)))))
  where
    given :
        (h.enabled && (eq_text h.endpoint [] && eq_text url [])) ≡ false
        → h.enabled ≡ true
        → IsGiven h.endpoint ⊎ IsGiven url
    given e on = elim (Bool-cases (eq_text h.endpoint [])) [
      | inr there ↦ inl there
      | inl none_ ↦ inr (ground (arith, e, on, none_))
    ]

abbrev pub ValidPolling : CommandPolling → Type 0
ValidPolling p = (p.enabled ≡ true) → IsGiven p.signature_secret

pub polling_lem : (p : CommandPolling) → OnOk ValidPolling (validate_command_polling p)
unfolding validate_command_polling
polling_lem p =
    unless ValidPolling _ _ _ (λ secret. OnOk-ok ValidPolling _ (λ on. ground (arith, secret, on)))
