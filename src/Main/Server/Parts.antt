-- ===== src/Main/Server/Parts.antt =====
-- What the constructors of the parts say, on every way through them.
use linker_agent.Prelude.{
  ◌≡◌, refl, subst, ◌⊎◌, inl, inr, Bool, true, false, not, [], ◌∷◌, ◌++◌, Option, none, some, Text,
  codes, eq_text, eq_text→eq, if◌then◌else◌, ℤ, pos, Bool-cases, arith,
}
use linker_agent.Agent.{
  Agent, File, absent, unreadable, holds, Disk, load, new_manager, new_agent, chosen_mode, is_mode,
  set_shutdown_func, agent_id_required, organization_id_required, invalid_mode,
}
use linker_agent.Agent as Agent
use linker_agent.Config.{Heartbeat}
use linker_agent.Config.Sections.{IsGiven, IsGiven-cons}
use linker_agent.Exporter.Options.{Exporter, new_exporter}
use linker_agent.Exporter.Options as Options
use linker_agent.Heartbeat.Sender.{Sender, QueueMetrics, no_metrics, new_sender}
use linker_agent.Heartbeat.Sender as Sender
use linker_agent.Polling.{Poller, new_poller, url_required}
use linker_agent.Polling as Polling
use linker_agent.Webhook.{Handler, new_handler}
use linker_agent.Webhook.Worker.{new_worker}
use linker_agent.Main.Server.{Refusal, Start, started, refused, ◌>>=◌, heartbeat_endpoint}

-- What holds of the part, if it is made, and of the reason, if it is not.
unfoldable pub Post {ℓ} : {A : Type ℓ} → (A → Type 0) → (Refusal → Type 0) → Start A → Type 0
Post P Q (started a) = P a
Post P Q (refused r) = Q r

pub Post-then {ℓ κ} :
    {A : Type ℓ} {B : Type κ} (P : A → Type 0) (P' : B → Type 0) (Q : Refusal → Type 0)
    (r : Start A) (k : A → Start B)
    → Post P Q r
    → ((a : A) → P a → Post P' Q (k a))
    → Post P' Q (r >>= k)
unfolding Post
Post-then P P' Q (started a) k p each = each a p
Post-then P P' Q (refused r) k p each = p

pub Post-started {ℓ} :
    {A : Type ℓ} (P : A → Type 0) (Q : Refusal → Type 0) (a : A) → P a → Post P Q (started a)
unfolding Post
Post-started P Q a p = p

pub Post-refused {ℓ} :
    {A : Type ℓ} (P : A → Type 0) (Q : Refusal → Type 0) (r : Refusal) → Q r → Post P Q (refused r)
unfolding Post
Post-refused P Q r q = q

pub refused_lem {ℓ} :
    {A : Type ℓ} (P : A → Type 0) (Q : Refusal → Type 0) {s : Start A} (r : Refusal)
    → s ≡ refused r
    → Post P Q s
    → Q r
unfolding Post
refused_lem P Q r e h = subst (λ s. Post P Q s) e h

-- What `New` of the agent says.
unfoldable pub AgentPost : Agent.Config → Agent.Result Agent → Type 0
AgentPost cfg (Agent.ok a) = IsGiven cfg.agent_id × IsGiven cfg.organization_id
AgentPost cfg (Agent.err e) =
    ((e ≡ agent_id_required) × (cfg.agent_id ≡ []))
    ⊎ (((e ≡ organization_id_required) × (cfg.organization_id ≡ []))
        ⊎ ((e ≡ invalid_mode) × IsGiven (chosen_mode cfg) × (is_mode (chosen_mode cfg) ≡ false)))

pub AgentPost-ok :
    (cfg : Agent.Config) (a : Agent)
    → IsGiven cfg.agent_id
    → IsGiven cfg.organization_id
    → AgentPost cfg (Agent.ok a)
unfolding AgentPost
AgentPost-ok cfg a id org = (id, org)

pub AgentPost-err :
    (cfg : Agent.Config) (e : Agent.Error)
    → ((e ≡ agent_id_required) × (cfg.agent_id ≡ []))
      ⊎ (((e ≡ organization_id_required) × (cfg.organization_id ≡ []))
          ⊎ ((e ≡ invalid_mode) × IsGiven (chosen_mode cfg) × (is_mode (chosen_mode cfg) ≡ false)))
    → AgentPost cfg (Agent.err e)
unfolding AgentPost
AgentPost-err cfg e why = why

pub branch {ℓ} :
    {A : Type ℓ} (P : A → Type 0) (b : Bool) (x y : A)
    → (b ≡ true → P x)
    → (b ≡ false → P y)
    → P (if b then x else y)
branch P true x y one other = one refl
branch P false x y one other = other refl

pub strict-is_mode : is_mode (codes "strict") ≡ true
unfolding is_mode eq_text
strict-is_mode = refl

pub new_agent_lem : (cfg : Agent.Config) → AgentPost cfg (new_agent cfg)
unfolding new_agent
new_agent_lem cfg =
    branch (AgentPost cfg) (eq_text cfg.agent_id []) _ _
      (λ none_. AgentPost-err cfg agent_id_required (inl (refl, eq_text→eq _ _ none_)))
      (λ id.
        branch (AgentPost cfg) (eq_text cfg.organization_id []) _ _
          (λ none_.
            AgentPost-err cfg organization_id_required (inr (inl (refl, eq_text→eq _ _ none_))))
          (λ org.
            branch (AgentPost cfg) (not (is_mode mode)) _ _
              (λ bad.
                let (given, not_mode) = chosen bad in
                AgentPost-err cfg invalid_mode (inr (inr (refl, given, not_mode))))
              (λ _. AgentPost-ok cfg _ id org)))
  where
    mode : Text
    mode = if eq_text (chosen_mode cfg) [] then codes "strict" else chosen_mode cfg

    chosen :
        not (is_mode mode) ≡ true → IsGiven (chosen_mode cfg) × (is_mode (chosen_mode cfg) ≡ false)
    chosen bad = elim (Bool-cases (eq_text (chosen_mode cfg) [])) [
      | inl empty ↦ absurd (ground (arith, bad, empty, strict-is_mode))
      | inr given ↦ (given, ground (arith, bad, given))
    ]

pub exporter_none :
    (make_dirs : Bool) (cfg : Options.Config)
    → (new_exporter make_dirs cfg (codes "test-tenant-key") (pos 500)).0 ≡ none
    → make_dirs ≡ false
unfolding new_exporter eq_text
exporter_none make_dirs cfg e = ground (arith, e)

pub empty_given : (t : Text) → t ≡ [] → IsGiven t → ⊥
unfolding eq_text
empty_given [] e given = cc
empty_given (x ∷ t) e given = cc

pub worker_none :
    (key salt : Text) → IsGiven key → not (new_worker key salt true) ≡ true → salt ≡ []
unfolding new_worker
worker_none key salt given bad = eq_text→eq _ _ (ground (arith, given, bad))

pub new_handler-some :
    (enabled : Bool)
    → enabled ≡ true
    → (h : Handler) × (new_handler enabled true (pos 1000) ≡ some h)
unfolding new_handler
new_handler-some enabled on = rw on (_, refl)

unfoldable pub IsMade : Sender.Made → Type 0
IsMade (Sender.made s) = Unit
IsMade (Sender.refused e) = ⊥

pub IsMade-made : (s : Sender) → IsMade (Sender.made s)
unfolding IsMade
IsMade-made s = tt

pub new_sender-IsMade :
    (now : ℤ) (a : Agent) (endpoint : Text) (interval : ℤ) (secret : Text)
    (metrics : Option QueueMetrics)
    → IsGiven endpoint
    → IsGiven secret
    → IsMade (new_sender now a endpoint interval secret metrics)
unfolding new_sender
new_sender-IsMade now a endpoint interval secret metrics there given =
    branch IsMade (eq_text endpoint []) _ _ (λ none_. absurd (ground (arith, none_, there)))
      (λ _.
        branch IsMade (eq_text secret []) _ _ (λ none_. absurd (ground (arith, none_, given)))
          (λ _. IsMade-made _))

pub refused_never : (e : Sender.Error) → IsMade (Sender.refused e) → ⊥
unfolding IsMade
refused_never e made = made

unfoldable pub PollerPost : Text → Polling.Made Agent → Type 0
PollerPost url (Polling.made q) = Unit
PollerPost url (Polling.refused e) = (e ≡ url_required) × (url ≡ [])

pub PollerPost-made : (url : Text) (q : Poller Agent) → PollerPost url (Polling.made q)
unfolding PollerPost
PollerPost-made url q = tt

pub PollerPost-refused : (url : Text) → url ≡ [] → PollerPost url (Polling.refused url_required)
unfolding PollerPost
PollerPost-refused url none_ = (refl, none_)

pub refused_url :
    (url : Text) (e : Polling.ConfigError)
    → PollerPost url (Polling.refused e)
    → (e ≡ url_required) × (url ≡ [])
unfolding PollerPost
refused_url url e post = post

pub new_poller_lem :
    (url id org secret : Text) (interval timeout : ℤ)
    → IsGiven id
    → IsGiven org
    → IsGiven secret
    → PollerPost url (new_poller url id org secret interval timeout)
unfolding new_poller
new_poller_lem url id org secret interval timeout hid horg hsecret =
    let P = PollerPost url in
    branch P (eq_text url []) _ _ (λ none_. PollerPost-refused url (eq_text→eq _ _ none_))
      (λ _.
        branch P (eq_text id []) _ _ (λ none_. absurd (ground (arith, none_, hid)))
          (λ _.
            branch P (eq_text org []) _ _ (λ none_. absurd (ground (arith, none_, horg)))
              (λ _.
                branch P (eq_text secret []) _ _ (λ none_. absurd (ground (arith, none_, hsecret)))
                  (λ _. PollerPost-made url _))))

pub endpoint-IsGiven :
    (url : Text) (h : Heartbeat)
    → IsGiven h.endpoint ⊎ IsGiven url
    → IsGiven (heartbeat_endpoint url h)
unfolding heartbeat_endpoint
endpoint-IsGiven url h there = elim (Bool-cases (eq_text h.endpoint [])) [
  | inr given ↦ rw given given
  | inl none_ ↦ rw none_ (append url)
]
  where
    append : (u : Text) → IsGiven (u ++ codes "/api/agent/heartbeat")
    append [] = IsGiven-cons _ _
    append (x ∷ u) = IsGiven-cons _ _
