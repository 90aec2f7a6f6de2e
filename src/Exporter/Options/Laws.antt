-- ===== src/Exporter/Options/Laws.antt =====
-- Where raw identifiers may be sent, and what an enqueue does to the streams.
use linker_agent.Prelude.{
  ◌≡◌, ◌≢◌, ◌↔◌, refl, sym, ap, ◌∙◌, subst, ◌⊎◌, inl, inr, Bool, true, false, not, ◌&&◌, List, [],
  ◌∷◌, ◌++◌, Option, none, some, Option-cases, Bool-cases, Text, codes, eq_text, eq_text_refl,
  eq_text→eq, eq_text_ne, if◌then◌else◌, lookup, arith,
}
use linker_agent.Exporter.{ExportQueue, push}
use linker_agent.Exporter.Options.{
  Error, passthrough_forbidden, undefined_stream, marshal_failed, Exporter, has_http, is_endpoint,
  connektn_endpoints, validate_passthrough, validate_stream, update, enqueue,
}

-- The base URLs of Connektn.
abbrev pub IsConnektn : Text → Type 0
IsConnektn url =
    (url ≡ codes "https://api.connektn.dev")
    ⊎ ((url ≡ codes "https://api.connektn.dev/")
        ⊎ ((url ≡ codes "https://api.connektn.io") ⊎ (url ≡ codes "https://api.connektn.io/")))

abbrev pub IsHttp : Text → Type 0
IsHttp mode = (mode ≡ codes "http") ⊎ (mode ≡ codes "both")

endpoint_here : (url e : Text) (es : List Text) → url ≡ e → is_endpoint url (e ∷ es) ≡ true
unfolding is_endpoint
endpoint_here url e es h = ground (arith, ap (eq_text url) h, eq_text_refl url, h)

endpoint_slash :
    (url e : Text) (es : List Text) → url ≡ e ++ codes "/" → is_endpoint url (e ∷ es) ≡ true
unfolding is_endpoint
endpoint_slash url e es h = ground (arith, h, eq_text_refl url)

endpoint_later :
    (url e : Text) (es : List Text) → is_endpoint url es ≡ true → is_endpoint url (e ∷ es) ≡ true
unfolding is_endpoint
endpoint_later url e es h = ground (arith, h)

endpoint_cases :
    (url e : Text) (es : List Text)
    → is_endpoint url (e ∷ es) ≡ true
    → (url ≡ e) ⊎ ((url ≡ e ++ codes "/") ⊎ (is_endpoint url es ≡ true))
unfolding is_endpoint
endpoint_cases url e es h = ground (arith, h, eq_text→eq url e, eq_text→eq url (e ++ codes "/"))

endpoint_none : (url : Text) → is_endpoint url [] ≡ false
unfolding is_endpoint
endpoint_none url = refl

is_endpoint_iff : (url : Text) → (is_endpoint url connektn_endpoints ≡ true) ↔ IsConnektn url
is_endpoint_iff url = (to, back)
  where
    dev : Text
    dev = codes "https://api.connektn.dev"

    io : Text
    io = codes "https://api.connektn.io"

    second : is_endpoint url (io ∷ []) ≡ true → IsConnektn url
    second h = elim (endpoint_cases url io [] h) [
      | inl e ↦ inr (inr (inl e))
      | inr (inl e) ↦ inr (inr (inr e))
      | inr (inr f) ↦ absurd (ground (arith, f, endpoint_none url))
    ]

    to : is_endpoint url connektn_endpoints ≡ true → IsConnektn url
    to h = elim (endpoint_cases url dev (io ∷ []) h) [
      | inl e ↦ inl e
      | inr (inl e) ↦ inr (inl e)
      | inr (inr f) ↦ second f
    ]

    back : IsConnektn url → is_endpoint url connektn_endpoints ≡ true
    back (inl e) = endpoint_here url dev (io ∷ []) e
    back (inr (inl e)) = endpoint_slash url dev (io ∷ []) e
    back (inr (inr (inl e))) = endpoint_later url dev (io ∷ []) (endpoint_here url io [] e)
    back (inr (inr (inr e))) = endpoint_later url dev (io ∷ []) (endpoint_slash url io [] e)

has_http-IsHttp : (mode : Text) → (has_http mode ≡ true) ↔ IsHttp mode
unfolding has_http
has_http-IsHttp mode =
    (λ h. ground (arith, h, eq_text→eq mode (codes "http"), eq_text→eq mode (codes "both")), back)
  where
    back : IsHttp mode → has_http mode ≡ true
    back (inl e) = ground (arith, subst (λ m. eq_text mode m ≡ true) e (eq_text_refl mode))
    back (inr e) = ground (arith, subst (λ m. eq_text mode m ≡ true) e (eq_text_refl mode))

validate_equation :
    (id_mode export_mode url : Text) (allow : Bool)
    → validate_passthrough id_mode allow export_mode url ≡ (
        if eq_text id_mode (codes "passthrough")
          && (has_http export_mode && (not (is_endpoint url connektn_endpoints) && not allow))
        then some passthrough_forbidden
        else none)
unfolding validate_passthrough has_http
validate_equation id_mode export_mode url allow = ground arith

four :
    (a b c d : Bool) (e : Error)
    → ((if a && (b && (not c && not d)) then some e else none) ≢ none)
      ↔ ((a ≡ true) × (b ≡ true) × (c ≡ false) × (d ≡ false))
four true true false false e = (λ h. (refl, refl, refl, refl), λ h n. absurd (cc))
four true true false true e = (λ h. absurd (h refl), λ h n. absurd (cc))
four true true true d e = (λ h. absurd (h refl), λ h n. absurd (cc))
four true false c d e = (λ h. absurd (h refl), λ h n. absurd (cc))
four false b c d e = (λ h. absurd (h refl), λ h n. absurd (cc))

-- The options are refused exactly if the identifiers are passed through, the export goes over HTTP to
-- a base URL that is none of Connektn's, and the configuration does not allow it.
pub validate_passthrough_iff :
    (id_mode export_mode url : Text) (allow : Bool)
    → (validate_passthrough id_mode allow export_mode url ≢ none) ↔ (
        (id_mode ≡ codes "passthrough") × IsHttp export_mode × (¬ IsConnektn url) × (allow ≡ false))
validate_passthrough_iff id_mode export_mode url allow = (to, back)
  where
    p : Text
    p = codes "passthrough"

    bits : (validate_passthrough id_mode allow export_mode url ≢ none) ↔ (
        (eq_text id_mode p ≡ true)
        × (has_http export_mode ≡ true)
        × (is_endpoint url connektn_endpoints ≡ false)
        × (allow ≡ false))
    bits = rw (validate_equation id_mode export_mode url allow) (
        four (eq_text id_mode p) (has_http export_mode) (is_endpoint url connektn_endpoints) allow
          passthrough_forbidden)

    to :
        validate_passthrough id_mode allow export_mode url ≢ none
        → (id_mode ≡ p) × IsHttp export_mode × (¬ IsConnektn url) × (allow ≡ false)
    to h =
        let (a, b, c, d) = bits.0 h in
        (
          eq_text→eq id_mode p a,
          (has_http-IsHttp export_mode).0 b,
          (λ k. absurd (ground (arith, c, (is_endpoint_iff url).1 k))),
          d,
        )

    back :
        (id_mode ≡ p) × IsHttp export_mode × (¬ IsConnektn url) × (allow ≡ false)
        → validate_passthrough id_mode allow export_mode url ≢ none
    back (a, b, c, d) = bits.1 (
      subst (λ m. eq_text id_mode m ≡ true) a (eq_text_refl id_mode),
      (has_http-IsHttp export_mode).1 b,
      elim (Bool-cases (is_endpoint url connektn_endpoints)) [
        | inl yes_ ↦ absurd (c ((is_endpoint_iff url).0 yes_))
        | inr no_ ↦ no_
      ],
      d,
    )

lookup-update :
    (key : Text) (q q' : ExportQueue) (es : List (Text × ExportQueue))
    → lookup key es ≡ some q
    → lookup key (update key q' es) ≡ some q'
unfolding lookup update
lookup-update key q q' [] h = absurd (cc)
lookup-update key q q' ((k, v) ∷ es) h = elim (Bool-cases (eq_text key k)) [
  | inl same ↦ ground (arith, same)
  | inr other ↦ ground (arith, other, h, lookup-update key q q' es)
]

lookup-update_other :
    (key other : Text) (q' : ExportQueue) (es : List (Text × ExportQueue))
    → other ≢ key
    → lookup other (update key q' es) ≡ lookup other es
unfolding lookup update
lookup-update_other key other q' [] n = refl
lookup-update_other key other q' ((k, v) ∷ es) n = elim (Bool-cases (eq_text key k)) [
  | inl same ↦ ground (arith, same, eq_text_ne other k (λ e. n (e ∙ sym (eq_text→eq key k same))))
  | inr no_ ↦ ground (arith, no_, lookup-update_other key other q' es n)
]

-- What an enqueue does.
abbrev pub Enqueued : Exporter → Text → Option Text → Exporter × Option Error → Type 0
Enqueued e stream payload (e', r) =
    ((r ≡ none)
      × (validate_stream e.cfg stream ≡ none)
      × ((q : ExportQueue) × ((bytes : Text) × ((lookup stream e.streams ≡ some q)
              × (payload ≡ some bytes)
              × (lookup stream e'.streams ≡ some (push q bytes)))))
      × ((other : Text) → other ≢ stream → lookup other e'.streams ≡ lookup other e.streams))
    ⊎ ((err : Error) × ((r ≡ some err) × (e' ≡ e)))

module _ (e : Exporter) (stream : Text) where
  enqueue_unknown :
      (payload : Option Text)
      → lookup stream e.streams ≡ none
      → enqueue e stream payload ≡ (e, some (undefined_stream stream))
  unfolding enqueue
  enqueue_unknown payload l = ground (arith, l)

  enqueue_invalid :
      (payload : Option Text) (q : ExportQueue) (err : Error)
      → lookup stream e.streams ≡ some q
      → validate_stream e.cfg stream ≡ some err
      → enqueue e stream payload ≡ (e, some err)
  unfolding enqueue
  enqueue_invalid payload q err l v = ground (arith, l, v)

  enqueue_unmarshalled :
      (q : ExportQueue)
      → lookup stream e.streams ≡ some q
      → validate_stream e.cfg stream ≡ none
      → enqueue e stream none ≡ (e, some (marshal_failed stream))
  unfolding enqueue
  enqueue_unmarshalled q l v = ground (arith, l, v)

  enqueue_pushed :
      (q : ExportQueue) (bytes : Text)
      → lookup stream e.streams ≡ some q
      → validate_stream e.cfg stream ≡ none
      → enqueue e stream (some bytes)
        ≡ (record e { streams = update stream (push q bytes) e.streams }, none)
  unfolding enqueue
  enqueue_pushed q bytes l v = ground (arith, l, v)

  -- Without an error the stream is known and has the routes that the mode needs, and its queue has taken
  -- the payload by `enqueue` of the queue while the other streams are as they were; with an error the
  -- exporter is as it was.
  pub enqueue_known : (payload : Option Text) → Enqueued e stream payload (enqueue e stream payload)
  enqueue_known payload = elim (Option-cases (lookup stream e.streams)) [
    | inl l ↦ rw (enqueue_unknown payload l) (inr (undefined_stream stream, (refl, refl)))
    | inr (q, l) ↦ elim (Option-cases (validate_stream e.cfg stream)) [
      | inr (err, v) ↦ rw (enqueue_invalid payload q err l v) (inr (err, (refl, refl)))
      | inl v ↦ sent q l v payload
    ]
  ]
    where
      sent :
          (q : ExportQueue)
          → lookup stream e.streams ≡ some q
          → validate_stream e.cfg stream ≡ none
          → (payload : Option Text) → Enqueued e stream payload (enqueue e stream payload)
      sent q l v none = rw (enqueue_unmarshalled q l v) (inr (marshal_failed stream, (refl, refl)))
      sent q l v (some bytes) = rw (enqueue_pushed q bytes l v) (
          inl (
            refl,
            v,
            (q, (bytes, (l, refl, lookup-update stream q (push q bytes) e.streams l))),
            λ other n. lookup-update_other stream other (push q bytes) e.streams n,
          ))
