-- ===== src/Heartbeat/Sender/Laws.antt =====
-- What sending a heartbeat does, and the round trip of a signed payload.
use linker_agent.Prelude.{
  ℕ, ◌+◌, ◌≤◌, ◌<◌, ◌≡◌, ◌≢◌, refl, sym, subst, inl, inr, ◌⊎◌, true, [], ◌∷◌, ◌++◌, Option, none,
  some, Text, eq_text_refl, eq_text_ne, length, Bool-cases, Option-cases, ℤ, arith,
}
use linker_agent.Heartbeat.{
  Primitives, Request, Response, network_error, response, Outside, Traffic, SignError, Signed,
  signature, unsigned, sign_request,
}
use linker_agent.Heartbeat.Sender.{
  Payload, Error, without_signature, sign, verify, Sender, payload_at, ready, failed, prepare,
  read_answer, send_heartbeat,
}

Signed-cases :
    (x : Signed) → ((t : Text) × (x ≡ signature t)) ⊎ ((e : SignError) × (x ≡ unsigned e))
Signed-cases (signature t) = inl (t, refl)
Signed-cases (unsigned e) = inr (e, refl)

-- A response of the 200s.
abbrev pub IsAccepted : Response → Type 0
IsAccepted network_error = ⊥
IsAccepted (response status body) = (200 ≤ status) × (status < 300)

read_answer_lem : (r : Response) → read_answer r ≡ none → IsAccepted r
unfolding read_answer
read_answer_lem network_error h = cc
read_answer_lem (response status body) h = ground (arith, h)

module _ (o : Outside) (uptime : ℕ → ℤ) (marshal : Payload → Option Text) where
  -- The request of a heartbeat: the endpoint, the payload of that time as its body, the payload's time in
  -- its header, and a signature of both with the secret.
  abbrev pub IsHeartbeat : Sender → ℕ → Request → Type 0
  IsHeartbeat s n r =
      (r.url ≡ s.endpoint)
      × (marshal (payload_at o uptime marshal s n) ≡ some r.body)
      × (r.timestamp ≡ (payload_at o uptime marshal s n).timestamp)
      × (sign_request o.primitives s.secret r.timestamp r.nonce r.body
          ≡ signature r.signature_header)

  abbrev pub IsSent : Traffic → Sender → Traffic → Type 0
  IsSent t s t' = (r : Request) × (t'.requests ≡ t.requests ++ r ∷ []) × IsHeartbeat s t.calls r

  abbrev IsPrepared : Sender → ℕ → Type 0
  IsPrepared s n =
      ((r : Request) × (prepare o uptime marshal s n ≡ ready r) × IsHeartbeat s n r)
      ⊎ ((e : Error) × (prepare o uptime marshal s n ≡ failed e))

  prepare_lem : (s : Sender) (n : ℕ) → IsPrepared s n
  unfolding prepare
  prepare_lem s n = elim (Option-cases (marshal (payload_at o uptime marshal s n))) [
    | inl m ↦ inr (Error.marshal_failed, ground (arith, m))
    | inr (body, m) ↦ elim (Option-cases (o.random n)) [
      | inl r ↦ inr (Error.nonce_failed, ground (arith, m, r))
      | inr (nonce, r) ↦
          elim (Signed-cases (
            sign_request o.primitives s.secret (payload_at o uptime marshal s n).timestamp nonce
              body)) [
                | inr (e, g) ↦ inr (Error.sign_failed e, ground (arith, m, r, g))
                | inl (text, g) ↦ elim (Bool-cases (o.valid_url s.endpoint)) [
                  | inr v ↦ inr (Error.request_failed, ground (arith, m, r, g, v))
                  | inl v ↦ inl (
                    record {
                      url = s.endpoint;
                      body = body;
                      timestamp = (payload_at o uptime marshal s n).timestamp;
                      nonce = nonce;
                      signature_header = text;
                    },
                    ground (arith, m, r, g, v),
                    (refl, m, refl, g),
                  )
                ]
              ]
    ]
  ]

  module _ (t : Traffic) (s : Sender) where
    abbrev outcome : (Traffic × Sender) × Option Error
    outcome = send_heartbeat o uptime marshal t s

    send_failed_lem :
        (e : Error)
        → prepare o uptime marshal s t.calls ≡ failed e
        → outcome ≡ ((record t { calls = t.calls + 2 }, s), some e)
    unfolding send_heartbeat
    send_failed_lem e p = ground (arith, p)

    send_refused_lem :
        (r : Request) (e : Error)
        → prepare o uptime marshal s t.calls ≡ ready r
        → read_answer (o.answer (length t.requests)) ≡ some e
        → outcome ≡ ((record { calls = t.calls + 2; requests = t.requests ++ r ∷ [] }, s), some e)
    unfolding send_heartbeat
    send_refused_lem r e p a = ground (arith, p, a)

    send_accepted_lem :
        (r : Request)
        → prepare o uptime marshal s t.calls ≡ ready r
        → read_answer (o.answer (length t.requests)) ≡ none
        → outcome ≡ (
          (
            record { calls = t.calls + 2; requests = t.requests ++ r ∷ [] },
            record s { last_flush = o.clock (t.calls + 1) },
          ),
          none,
        )
    unfolding send_heartbeat
    send_accepted_lem r p a = ground (arith, p, a)

    -- A heartbeat that arrived, or one that did not.
    abbrev pub Arrived : (Traffic × Sender) × Option Error → Type 0
    Arrived ((t', s'), e) =
        (e ≡ none)
        × IsSent t s t'
        × IsAccepted (o.answer (length t.requests))
        × (s' ≡ record s { last_flush = o.clock (t.calls + 1) })

    abbrev pub Missed : (Traffic × Sender) × Option Error → Type 0
    Missed ((t', s'), e) = (e ≢ none) × (s' ≡ s) × ((t'.requests ≡ t.requests) ⊎ IsSent t s t')

-- A heartbeat either arrives, without an error: then one request was sent, to the endpoint, with the payload of
-- that time and a signature of it, its answer has a status of the 200s, and only the time of the last flush is
-- set; or there is an error: then the sender is unchanged, and that request was sent or none.
pub send_heartbeat_lem :
    (o : Outside) (uptime : ℕ → ℤ) (marshal : Payload → Option Text) (t : Traffic) (s : Sender)
    → Arrived o uptime marshal t s (send_heartbeat o uptime marshal t s)
      ⊎ Missed o uptime marshal t s (send_heartbeat o uptime marshal t s)
send_heartbeat_lem o uptime marshal t s = elim (prepare_lem o uptime marshal s t.calls) [
  | inr (e, p) ↦ inr (
      subst (Missed o uptime marshal t s) (sym (send_failed_lem o uptime marshal t s e p))
        ((λ h. cc), refl, inl refl))
  | inl (r, p, is) ↦ elim (Option-cases (read_answer (o.answer (length t.requests)))) [
    | inr (e, a) ↦ inr (
        subst (Missed o uptime marshal t s) (sym (send_refused_lem o uptime marshal t s r e p a))
          ((λ h. cc), refl, inr (r, refl, is)))
    | inl a ↦ inl (
        subst (Arrived o uptime marshal t s) (sym (send_accepted_lem o uptime marshal t s r p a))
          (refl, (r, refl, is), read_answer_lem (o.answer (length t.requests)) a, refl))
  ]
]

-- A payload that can be marshalled without its signature verifies after it was signed with a secret that is not
-- empty, if base64 decodes what it encodes and the encoding of a MAC is not empty.
pub verify_signed :
    (k : Primitives) (marshal : Payload → Option Text) (p : Payload) (secret bytes : Text)
    → ((bs : Text) → k.decode_base64 (k.encode_base64 bs) ≡ some bs)
    → ((key bs : Text) → k.encode_base64 (k.hmac key bs) ≢ [])
    → secret ≢ []
    → marshal (without_signature p) ≡ some bytes
    → verify k marshal ((sign k marshal p secret).0) secret ≡ true
unfolding verify sign
verify_signed k marshal p secret bytes back full ne m = ground (
  arith,
  eq_text_ne secret [] ne,
  m,
  back (k.hmac secret bytes),
  eq_text_ne (k.encode_base64 (k.hmac secret bytes)) [] (full secret bytes),
  eq_text_refl (k.hmac secret bytes),
)
