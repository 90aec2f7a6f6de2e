-- ===== src/Main/Server/Laws.antt =====
-- Why the webhook server refuses a validated configuration.
use linker_agent.Prelude.{
  ◌≡◌, refl, sym, ap, subst, ◌⊎◌, inl, inr, Bool, true, false, not, [], Option, none, some, Text,
  codes, eq_text, eq_text→eq, if◌then◌else◌, ℤ, pos, Bool-cases, arith,
}
use linker_agent.Agent.{
  Agent, File, absent, unreadable, holds, Disk, load, new_manager, new_agent, chosen_mode, is_mode,
  set_shutdown_func, agent_id_required, organization_id_required, invalid_mode,
}
use linker_agent.Agent as Agent
use linker_agent.Matchers.{Float}
use linker_agent.Config.{StripeSource, Heartbeat, CommandPolling, Config, validate}
use linker_agent.Config as Config
use linker_agent.Config.Sections.{IsGiven, ValidHeartbeat, ValidPolling, OnStripe}
use linker_agent.Config.Laws.{Validated, validate_lem}
use linker_agent.Exporter.Options.{Exporter, new_exporter}
use linker_agent.Exporter.Options as Options
use linker_agent.Heartbeat.Sender.{Sender, QueueMetrics, no_metrics, new_sender}
use linker_agent.Heartbeat.Sender as Sender
use linker_agent.Polling.{Poller, new_poller, url_required}
use linker_agent.Polling as Polling
use linker_agent.Webhook.{Handler}
use linker_agent.Webhook.Worker.{new_worker}
use linker_agent.Main.Server.{
  Refusal, no_logger, no_agent_id, state_failed, stripe_missing, webhook_disabled, worker_failed,
  handler_failed, agent_failed, exporter_failed, heartbeat_failed, poller_failed, started, refused,
  start_agent, enabled_stripe, start_exporter, start_handler, heartbeat_endpoint, start_heartbeat,
  start_poller, with_handlers, Server, System, start_parts, start_server,
}
use linker_agent.Main.Server.Parts.{
  Post, Post-then, Post-started, Post-refused, refused_lem, AgentPost, branch, strict-is_mode,
  new_agent_lem, exporter_none, empty_given, worker_none, new_handler-some, IsMade,
  new_sender-IsMade, refused_never, PollerPost, refused_url, new_poller_lem, endpoint-IsGiven,
}

-- The reasons that remain.
module _ {F : Type 0} (c : Config F) (id : Option Text) (file : File) (sys : System) where
  abbrev pub AgentDue : Agent.Error → Type 0
  AgentDue e =
      ((e ≡ agent_id_required) × (id ≡ some []))
      ⊎ (((e ≡ organization_id_required) × (c.organization_id ≡ []))
          ⊎ ((e ≡ invalid_mode)
              × (((c.privacy.mode ≡ codes "standard") × ((file ≡ absent) ⊎ (file ≡ holds [])))
                  ⊎ ((mode : Text) × (file ≡ holds mode) × (is_mode mode ≡ false)))))

  abbrev pub IsDue : Refusal → Type 0
  IsDue no_logger = sys.logger ≡ false
  IsDue no_agent_id = id ≡ none
  IsDue state_failed = (sys.state_dir ≡ false) ⊎ (file ≡ unreadable)
  IsDue stripe_missing = c.stripe ≡ none
  IsDue webhook_disabled = (s : StripeSource) × (c.stripe ≡ some s) × (s.webhook.enabled ≡ false)
  IsDue worker_failed = (c.privacy.id_mode ≡ codes "passthrough") × (c.privacy.tenant_salt ≡ [])
  IsDue handler_failed = ⊥
  IsDue (agent_failed e) = AgentDue e
  IsDue (exporter_failed e) = sys.export_dirs ≡ false
  IsDue (heartbeat_failed e) = ⊥
  IsDue (poller_failed e) = (e ≡ url_required) × (c.cdp_base_url ≡ [])

  module _ (privacy : (c.privacy.mode ≡ codes "strict") ⊎ (c.privacy.mode ≡ codes "standard")) where
    chosen_due :
        (mode : Text)
        → ((mode ≡ c.privacy.mode) × ((file ≡ absent) ⊎ (file ≡ holds []))) ⊎ (file ≡ holds mode)
        → is_mode mode ≡ false
        → AgentDue invalid_mode
    unfolding is_mode
    chosen_due mode (inl (same, here)) bad = elim privacy [
      | inl strict ↦
          absurd (ground (arith, ap is_mode same, ap is_mode strict, strict-is_mode, bad))
      | inr standard ↦ inr (inr (refl, inl (standard, here)))
    ]
    chosen_due mode (inr held) bad = inr (inr (refl, inr (mode, held, bad)))

-- The agent's identifier and organization are there, or one of the reasons holds.
module _ {F : Type 0} (c : Config F) (t : Text) (sys : System) where
  abbrev agent_config : Agent.Manager → Agent.Config
  agent_config m = record {
    agent_id = t;
    organization_id = c.organization_id;
    version = c.version;
    initial_mode = c.privacy.mode;
    state_manager = some m;
  }

  abbrev AgentReady : Agent → Type 0
  AgentReady a = IsGiven t × IsGiven c.organization_id

  made_lem :
      (privacy : (c.privacy.mode ≡ codes "strict") ⊎ (c.privacy.mode ≡ codes "standard"))
      (file : File) (m : Agent.Manager)
      → (((chosen_mode (agent_config m) ≡ c.privacy.mode) × ((file ≡ absent) ⊎ (file ≡ holds [])))
          ⊎ (file ≡ holds (chosen_mode (agent_config m))))
      → (r : Agent.Result Agent) → AgentPost (agent_config m) r
      → Post AgentReady
          (IsDue c (some t) file sys)
          (elim r [ Agent.err e ↦ refused (agent_failed e) | Agent.ok a ↦ started a ])
  unfolding Post AgentPost
  made_lem privacy file m from_ (Agent.ok a) post = post
  made_lem privacy file m from_ (Agent.err e) (inl (same, none_)) = inl (same, ap some none_)
  made_lem privacy file m from_ (Agent.err e) (inr (inl (same, none_))) = inr (inl (same, none_))
  made_lem privacy file m from_ (Agent.err e) (inr (inr (same, given, bad))) =
      subst (AgentDue c (some t) file sys) (sym same)
        (chosen_due c (some t) file sys privacy (chosen_mode (agent_config m)) from_ bad)

  agent_at :
      (privacy : (c.privacy.mode ≡ codes "strict") ⊎ (c.privacy.mode ≡ codes "standard"))
      (makes : Bool)
      → sys.state_dir ≡ makes
      → (file : File) → Post AgentReady (IsDue c (some t) file sys) (start_agent c t file makes)
  unfolding start_agent new_manager load eq_text chosen_mode
  agent_at privacy false e file =
      Post-refused AgentReady (IsDue c (some t) file sys) state_failed (inl e)
  agent_at privacy true e unreadable = Post-refused AgentReady _ state_failed (inr refl)
  agent_at privacy true e absent =
      let m : Agent.Manager = record { privacy_mode = []; file = absent } in
      made_lem privacy absent m (inl (refl, inl refl)) (new_agent (agent_config m))
        (new_agent_lem (agent_config m))
  agent_at privacy true e (holds mode) =
      let m : Agent.Manager = record { privacy_mode = mode; file = holds mode } in
      made_lem privacy (holds mode) m (held (Bool-cases (eq_text mode [])))
        (new_agent (agent_config m)) (new_agent_lem (agent_config m))
    where
      held :
          (eq_text mode [] ≡ true) ⊎ (eq_text mode [] ≡ false)
          → (((if eq_text mode [] then c.privacy.mode else mode) ≡ c.privacy.mode)
              × ((holds mode ≡ absent) ⊎ (holds mode ≡ holds [])))
            ⊎ (holds mode ≡ holds (if eq_text mode [] then c.privacy.mode else mode))
      held (inl empty) = inl (rw empty refl, inr (ap holds (eq_text→eq _ _ empty)))
      held (inr given) = inr (rw given refl)

module _ {F : Type 0} (c : Config F) (id : Option Text) (file : File) (sys : System) where
  abbrev Due : Refusal → Type 0
  Due = IsDue c id file sys

  enabled_lem :
      Post
        (λ (s : StripeSource). (c.stripe ≡ some s) × (s.webhook.enabled ≡ true))
        Due
        (enabled_stripe c.stripe)
  unfolding enabled_stripe
  enabled_lem = go c.stripe refl
    where
      go :
          (o : Option StripeSource)
          → c.stripe ≡ o
          → Post
              (λ (s : StripeSource). (c.stripe ≡ some s) × (s.webhook.enabled ≡ true))
              Due
              (enabled_stripe o)
      go none e = Post-refused _ Due stripe_missing e
      go (some s) e =
          let P : StripeSource → Type 0 = λ s. (c.stripe ≡ some s) × (s.webhook.enabled ≡ true) in
          branch (Post P Due) s.webhook.enabled _ _ (λ on. Post-started P Due s (e, on))
            (λ off. Post-refused P Due webhook_disabled (s, e, off))

  exporter_lem :
      (cfg : Options.Config)
      → Post (λ (x : Exporter). Unit {0}) Due (start_exporter sys.export_dirs cfg)
  unfolding start_exporter Post
  exporter_lem cfg =
      go (new_exporter sys.export_dirs cfg (codes "test-tenant-key") (pos 500))
        (exporter_none sys.export_dirs cfg)
    where
      go :
          (r : Option Exporter × Option Options.Error)
          → (r.0 ≡ none → sys.export_dirs ≡ false)
          → Post
              (λ (x : Exporter). Unit {0})
              Due
              (elim r.0 [ none ↦ refused (exporter_failed r.1) | some x' ↦ started x' ])
      go (none, e) why = why refl
      go (some x, e) why = tt

  handler_lem :
      (s : StripeSource)
      → s.webhook.enabled ≡ true
      → IsGiven s.api_key
      → (c.privacy.id_mode ≡ codes "passthrough")
        ⊎ ((c.privacy.id_mode ≡ codes "strict") × IsGiven c.privacy.tenant_salt)
      → Post (λ (h : Handler). Unit {0}) Due (start_handler s c.privacy.tenant_salt)
  unfolding start_handler
  handler_lem s on key salt =
      let U : Handler → Type 0 = λ h. Unit {0} in
      let (h, made) = new_handler-some s.webhook.enabled on in
      branch (Post U Due) (not (new_worker s.api_key c.privacy.tenant_salt true)) _ _
        (λ bad.
          Post-refused U Due worker_failed
            (due salt (worker_none s.api_key c.privacy.tenant_salt key bad)))
        (λ _.
          subst (λ r. Post U Due (elim r [ none ↦ refused handler_failed | some h ↦ started h ]))
            (sym made) (Post-started U Due h tt))
    where
      due :
          (c.privacy.id_mode ≡ codes "passthrough")
            ⊎ ((c.privacy.id_mode ≡ codes "strict") × IsGiven c.privacy.tenant_salt)
          → c.privacy.tenant_salt ≡ []
          → (c.privacy.id_mode ≡ codes "passthrough") × (c.privacy.tenant_salt ≡ [])
      due (inl pass) none_ = (pass, none_)
      due (inr (strict, given)) none_ = absurd (empty_given c.privacy.tenant_salt none_ given)

  heartbeat_lem :
      (now : ℤ) (a : Agent)
      → ValidHeartbeat c.cdp_base_url c.heartbeat
      → Post
          (λ (s : Option Sender). Unit {0})
          Due
          (start_heartbeat now a c.cdp_base_url c.heartbeat)
  unfolding start_heartbeat
  heartbeat_lem now a valid =
      let h = c.heartbeat in
      let U : Option Sender → Type 0 = λ s. Unit {0} in
      branch (Post U Due) (not h.enabled) _ _ (λ _. Post-started U Due none tt)
        (λ off.
          let (there, given) = valid (ground (arith, off)) in
          go
            (new_sender now a (heartbeat_endpoint c.cdp_base_url h) h.interval h.signature_secret
              (some no_metrics))
            (new_sender-IsMade now a _ _ _ _ (endpoint-IsGiven c.cdp_base_url h there) given))
    where
      go :
          (r : Sender.Made)
          → IsMade r
          → Post
              (λ (s : Option Sender). Unit {0})
              Due
              (elim r [
                | Sender.made s ↦ started (some s)
                | Sender.refused e ↦ refused (heartbeat_failed e)
              ])
      go (Sender.made s) made = Post-started (λ (s : Option Sender). Unit {0}) Due (some s) tt
      go (Sender.refused e) made = absurd (refused_never e made)

  poller_lem :
      (ready : Poller Agent → Poller Agent) (t : Text)
      → IsGiven t
      → IsGiven c.organization_id
      → ValidPolling c.polling
      → Post
          (λ (q : Option (Poller Agent)). Unit {0})
          Due
          (start_poller ready t c.organization_id c.cdp_base_url c.polling)
  unfolding start_poller
  poller_lem ready t id org valid =
      let p = c.polling in
      let U : Option (Poller Agent) → Type 0 = λ q. Unit {0} in
      branch (Post U Due) (not p.enabled) _ _ (λ _. Post-started U Due none tt)
        (λ off.
          go (new_poller c.cdp_base_url t c.organization_id p.signature_secret p.interval p.timeout)
            (new_poller_lem c.cdp_base_url t c.organization_id p.signature_secret p.interval
              p.timeout id org (valid (ground (arith, off)))))
    where
      go :
          (r : Polling.Made Agent)
          → PollerPost c.cdp_base_url r
          → Post
              (λ (q : Option (Poller Agent)). Unit {0})
              Due
              (elim r [
                | Polling.made q ↦ started (some (ready q))
                | Polling.refused e ↦ refused (poller_failed e)
              ])
      go (Polling.made q) post =
          Post-started (λ (q : Option (Poller Agent)). Unit {0}) Due (some (ready q)) tt
      go (Polling.refused e) post =
          Post-refused (λ (q : Option (Poller Agent)). Unit {0}) Due (poller_failed e)
            (refused_url c.cdp_base_url e post)

-- The parts in the order in which they are made.
server_lem :
    (f : Float) (valid_cidr : Text → Bool) (c : Config f.F) (error_text : Agent.Error → Text)
    (d : Disk) (t : Text) (file : File) (sys : System) (now : ℤ)
    → Validated f valid_cidr c
    → Post
        (λ (s : Server). Unit {0})
        (IsDue c (some t) file sys)
        (start_parts error_text d c (some t) file sys now)
unfolding start_parts
server_lem f valid_cidr c error_text d t file sys now v =
    let Q = IsDue c (some t) file sys in
    let S : Server → Type 0 = λ s. Unit {0} in
    let D : Option StripeSource → Type 0 = OnStripe valid_cidr in
    let (mode, salt) = v.privacy in
    Post-then (AgentReady c t sys) S Q (start_agent c t file sys.state_dir) _
      (agent_at c t sys mode sys.state_dir refl file)
      (λ a (id, org).
        Post-then (λ (s : StripeSource). (c.stripe ≡ some s) × (s.webhook.enabled ≡ true)) S Q
          (enabled_stripe c.stripe) _ (enabled_lem c (some t) file sys)
          (λ s (same, on).
            let (key, rate, webhook) = subst D same v.stripe in
            Post-then (λ (x : Exporter). Unit {0}) S Q (start_exporter sys.export_dirs c.export.cfg)
              _ (exporter_lem c (some t) file sys c.export.cfg)
              (λ x _.
                Post-then (λ (h : Handler). Unit {0}) S Q (start_handler s c.privacy.tenant_salt) _
                  (handler_lem c (some t) file sys s on key salt)
                  (λ h _.
                    Post-then (λ (q : Option Sender). Unit {0}) S Q
                      (start_heartbeat now (set_shutdown_func a) c.cdp_base_url c.heartbeat) _
                      (heartbeat_lem c (some t) file sys now (set_shutdown_func a) v.heartbeat)
                      (λ q _.
                        Post-then (λ (p : Option (Poller Agent)). Unit {0}) S Q
                          (start_poller (with_handlers error_text d) t c.organization_id
                            c.cdp_base_url c.polling)
                          _
                          (poller_lem c (some t) file sys (with_handlers error_text d) t id org
                            v.polling)
                          (λ p _. Post-started S Q _ tt))))))

-- The reasons for which the webhook server may end before it registers its routes, on a configuration that
-- Config.validate has let pass: the logger cannot be made; there is no agent identifier, or an empty one; the
-- organization is empty; the directory of the state file cannot be made, or the file cannot be read, holds no mode of
-- the agent, or holds none while the mode is the standard one; Stripe's source is missing or its webhook disabled; a
-- directory of the exporter cannot be made; identifiers are passed through without a salt; or commands are polled
-- without the base URL. Of the constructors' other errors none occurs, and heartbeats never refuse.
pub start_server_lem :
    (f : Float) (valid_cidr : Text → Bool) (c₀ c : Config f.F)
    → validate f valid_cidr c₀ ≡ Config.ok c
    → (error_text : Agent.Error → Text) (d : Disk) (id : Option Text) (file : File) (sys : System)
      (now : ℤ) (r : Refusal)
    → start_server error_text d c id file sys now ≡ refused r
    → IsDue c id file sys r
unfolding start_server start_parts
start_server_lem f valid_cidr c₀ c e error_text d id file sys now r stopped =
    refused_lem _ _ r stopped post
  where
    v : Validated f valid_cidr c
    v = validate_lem f valid_cidr c₀ c e

    parts :
        (id : Option Text)
        → Post
            (λ (s : Server). Unit {0})
            (IsDue c id file sys)
            (start_parts error_text d c id file sys now)
    parts none = Post-refused _ _ no_agent_id refl
    parts (some t) = server_lem f valid_cidr c error_text d t file sys now v

    post :
        Post
          (λ (s : Server). Unit {0})
          (IsDue c id file sys)
          (start_server error_text d c id file sys now)
    post =
        let S : Server → Type 0 = λ s. Unit {0} in
        branch (Post S (IsDue c id file sys)) (not sys.logger) _ _
          (λ bad. Post-refused S (IsDue c id file sys) no_logger (ground (arith, bad)))
          (λ _. parts id)
