-- ===== src/Exporter/Flush/Laws.antt =====
-- The attempts of a flush: how many there are, what they carry, and when they end.
use linker_agent.Prelude.{
  ℕ, zero, suc, ◌+◌, ◌-◌, ◌≤◌, ◌<◌, ◌≡◌, refl, sym, ap, ◌∙◌, subst, ◌⊎◌, inl, inr, Bool, true,
  false, ◌&&◌, List, [], ◌∷◌, ◌++◌, append_assoc, Option, none, some, Option-cases, Bool-cases,
  Text, codes, eq_text, if◌then◌else◌, length, length-append, leb, ltb, lookup, arith,
}
use linker_agent.Exporter.Options.{Config, has_http, has_file}
use linker_agent.Exporter.Flush.{
  Request, Response, network_error, status, Outside, World, ExportError, is_success, error_of,
  auth_token, request_to, send_stream, pause, send_loop, write_to_file, flush_stream,
}

-- The answers after which a batch is tried again: an error of the network, or a status from 500 on.
unfoldable pub is_retried : Response → Bool
is_retried network_error = true
is_retried (status code) = leb 500 code

error_of-cases :
    (r : Response)
    → ((error_of r ≡ none) × (is_retried r ≡ false))
      ⊎ ((e : ExportError) × ((error_of r ≡ some e) × (e.retryable ≡ is_retried r)))
unfolding error_of is_retried is_success
error_of-cases network_error = inr (_, (refl, refl))
error_of-cases (status code) = elim (Bool-cases (leb 200 code && ltb code 300)) [
  | inl good ↦ inl (ground (arith, good), ground (arith, good))
  | inr bad ↦
      inr (record { status_code = code; retryable = leb 500 code }, (ground (arith, bad), refl))
]

module _ (o : Outside) (cfg : Config) (tenant_key stream route payload : Text) where
  -- The request with the n-th random key.
  abbrev pub request : ℕ → Request
  request n = record {
    endpoint = cfg.base_url ++ route;
    authorization =
        if eq_text (auth_token o cfg tenant_key) []
        then []
        else codes "Bearer " ++ auth_token o cfg tenant_key;
    idempotency_key = o.uuid n;
    payload = payload;
  }

  -- Requests with the keys from the n-th on.
  unfoldable pub requests_from : (n count : ℕ) → List Request
  requests_from n zero = []
  requests_from n (suc count) = request n ∷ requests_from (suc n) count

  -- The attempts: between one and the number of rounds, all with the same body, each with a key of its
  -- own; every attempt but the last had an answer that is retried, and the last one had an answer that
  -- is not, or was the last round.
  abbrev pub Attempted : (rounds : ℕ) → List Request → List Request → Type 0
  Attempted rounds before after =
      (n : ℕ) × ((1 ≤ n)
        × (n ≤ rounds)
        × (after ≡ before ++ requests_from (length before) n)
        × ((i : ℕ) → i + 1 < n → is_retried (o.answer (length before + i)) ≡ true)
        × ((is_retried (o.answer (length before + n - 1)) ≡ false) ⊎ (n ≡ rounds)))

  module _ (r : lookup stream cfg.routes ≡ some route)
      (v : o.valid_url (cfg.base_url ++ route) ≡ true) where
    send_stream_lem :
        (w : World)
        → send_stream o cfg tenant_key w stream payload ≡ (
          record w { requests = w.requests ++ request (length w.requests) ∷ [] },
          error_of (o.answer (length w.requests)),
        )
    unfolding send_stream request_to
    send_stream_lem w = ground (arith, r, v)

    pause-requests :
        (attempt : ℕ) (w : World) → (pause o cfg tenant_key attempt w).requests ≡ w.requests
    unfolding pause
    pause-requests attempt w = ground arith

    one :
        (rounds : ℕ) (before after : List Request)
        → after ≡ before ++ request (length before) ∷ []
        → (is_retried (o.answer (length before)) ≡ false) ⊎ (1 ≡ suc rounds)
        → Attempted (suc rounds) before after
    unfolding requests_from
    one rounds before after e last = (
      1,
      (
        omega arith,
        omega arith,
        e,
        λ i lt. absurd (omega arith),
        elim last [
          | inl final ↦ inl (ap (λ k. is_retried (o.answer k)) (omega arith) ∙ final)
          | inr done ↦ inr done
        ],
      ),
    )

    more :
        (rounds : ℕ) (before after : List Request)
        → is_retried (o.answer (length before)) ≡ true
        → Attempted (suc rounds) (before ++ request (length before) ∷ []) after
        → Attempted (suc (suc rounds)) before after
    unfolding requests_from
    more rounds before after again (n, (a, b, e, all, last)) = (
      suc n,
      (
        omega arith,
        omega arith,
        e
            ∙ append_assoc before (request (length before) ∷ []) _
            ∙ ap (λ k. before ++ request (length before) ∷ requests_from k n) longer,
        earlier,
        elim last [
          | inl final ↦ inl (
              at (length (before ++ request (length before) ∷ []) + n - 1)
                (length before + suc n - 1) (omega (arith, longer)) final)
          | inr done ↦ inr (omega arith)
        ],
      ),
    )
      where
        longer : length (before ++ request (length before) ∷ []) ≡ suc (length before)
        longer = omega (arith, length-append before (request (length before) ∷ []))

        at :
            {b : Bool} (j k : ℕ) → j ≡ k → is_retried (o.answer j) ≡ b → is_retried (o.answer k) ≡ b
        at {b} j k same h = subst (λ i. is_retried (o.answer i) ≡ b) same h

        earlier : (i : ℕ) → i + 1 < suc n → is_retried (o.answer (length before + i)) ≡ true
        earlier zero lt = at (length before) (length before + 0) (omega arith) again
        earlier (suc i) lt =
            at (length (before ++ request (length before) ∷ []) + i) (length before + suc i)
              (omega (arith, longer)) (all i (omega arith))

    sent : ℕ → World → World
    sent attempt w =
        (send_stream o cfg tenant_key (pause o cfg tenant_key attempt w) stream payload).0

    failure : ℕ → World → Option ExportError
    failure attempt w =
        (send_stream o cfg tenant_key (pause o cfg tenant_key attempt w) stream payload).1

    sent-requests :
        (attempt : ℕ) (w : World)
        → (sent attempt w).requests ≡ w.requests ++ request (length w.requests) ∷ []
    unfolding sent
    sent-requests attempt w =
        ap (λ x. x.0.requests) (send_stream_lem (pause o cfg tenant_key attempt w))
        ∙ ap (λ l. l ++ request (length l) ∷ []) (pause-requests attempt w)

    failure-answer :
        (attempt : ℕ) (w : World) → failure attempt w ≡ error_of (o.answer (length w.requests))
    unfolding failure
    failure-answer attempt w =
        ap (λ x. x.1) (send_stream_lem (pause o cfg tenant_key attempt w))
        ∙ ap (λ l. error_of (o.answer (length l))) (pause-requests attempt w)

    loop_ends :
        (rounds attempt max : ℕ) (w : World)
        → (failure attempt w ≡ none)
          ⊎ ((e : ExportError) × ((failure attempt w ≡ some e)
                × ((ltb attempt max && e.retryable) ≡ false)))
        → send_loop o cfg tenant_key (suc rounds) attempt max w stream payload ≡ sent attempt w
    unfolding send_loop sent failure
    loop_ends rounds attempt max w (inl e) = ground (arith, e)
    loop_ends rounds attempt max w (inr (x, (e, final))) = ground (arith, e, final)

    loop_again :
        (rounds attempt max : ℕ) (w : World) (e : ExportError)
        → failure attempt w ≡ some e
        → (ltb attempt max && e.retryable) ≡ true
        → send_loop o cfg tenant_key (suc rounds) attempt max w stream payload
          ≡ send_loop o cfg tenant_key rounds (suc attempt) max (sent attempt w) stream payload
    unfolding send_loop sent failure
    loop_again rounds attempt max w e f again = ground (arith, f, again)

    ended :
        (rounds attempt max : ℕ) (w : World)
        → send_loop o cfg tenant_key (suc rounds) attempt max w stream payload ≡ sent attempt w
        → (is_retried (o.answer (length w.requests)) ≡ false) ⊎ (1 ≡ suc rounds)
        → Attempted
            (suc rounds)
            w.requests
            (send_loop o cfg tenant_key (suc rounds) attempt max w stream payload).requests
    ended rounds attempt max w e last =
        one rounds w.requests _ (ap (λ x. x.requests) e ∙ sent-requests attempt w) last

    pub send_loop_lem :
        (rounds attempt max : ℕ) (w : World)
        → attempt + rounds ≡ max
        → Attempted
            (suc rounds)
            w.requests
            (send_loop o cfg tenant_key (suc rounds) attempt max w stream payload).requests
    send_loop_lem zero attempt max w e =
        ended zero attempt max w
          (loop_ends zero attempt max w (elim (Option-cases (failure attempt w)) [
            | inl ok ↦ inl ok
            | inr (x, f) ↦ inr (x, (f, ground (arith, e)))
          ]))
          (inr refl)
    send_loop_lem (suc rounds) attempt max w e =
        elim (error_of-cases (o.answer (length w.requests))) [
          | inl (ok, final) ↦
              ended (suc rounds) attempt max w
                (loop_ends (suc rounds) attempt max w (inl (failure-answer attempt w ∙ ok)))
                (inl final)
          | inr (x, (f, kind)) ↦ elim (Bool-cases x.retryable) [
            | inr final ↦
                ended (suc rounds) attempt max w
                  (loop_ends (suc rounds) attempt max w
                    (inr (x, (failure-answer attempt w ∙ f, ground (arith, final)))))
                  (inl (sym kind ∙ final))
            | inl again ↦
                rw
                  (loop_again (suc rounds) attempt max w x (failure-answer attempt w ∙ f)
                    (ground (arith, again, e)))
                  (more rounds w.requests _ (sym kind ∙ again) (
                    subst
                      (λ l.
                        Attempted (suc rounds) l
                          (send_loop o cfg tenant_key (suc rounds) (suc attempt) max
                            (sent attempt w) stream payload).requests)
                      (sent-requests attempt w)
                      (send_loop_lem rounds (suc attempt) max (sent attempt w) (omega arith))))
          ]
        ]

    file_first :
        (line : Text) (w : World)
        → (write_to_file o cfg tenant_key w stream line).requests ≡ w.requests
    unfolding write_to_file
    file_first line w = elim (Option-cases (lookup stream cfg.paths)) [
      | inl e ↦ ground (arith, e)
      | inr (path, e) ↦ ground (arith, e)
    ]

    loop_after :
        (max : ℕ) (w w' : World)
        → w'.requests ≡ w.requests
        → Attempted
            (suc max)
            w.requests
            (send_loop o cfg tenant_key (suc max) 0 max w' stream payload).requests
    loop_after max w w' e =
        subst
          (λ l.
            Attempted (suc max) l
              (send_loop o cfg tenant_key (suc max) 0 max w' stream payload).requests)
          e (send_loop_lem max 0 max w' (omega arith))

    flush_sends :
        (max : ℕ) (w : World) (item : Text) (rest : List Text)
        → has_http cfg.mode ≡ true
        → o.marshal (item ∷ rest) ≡ some payload
        → flush_stream o cfg tenant_key max w stream (item ∷ rest)
          ≡ send_loop o cfg tenant_key
              (suc max)
              0
              max
              (if has_file cfg.mode then write_to_file o cfg tenant_key w stream payload else w)
              stream
              payload
    unfolding flush_stream
    flush_sends max w item rest http m = ground (arith, http, m)

    -- A flush in a mode with HTTP, of a batch that is not empty and can be marshalled, on a stream with
    -- a route that gives a valid URL, sends the same body between one time and one more than the number
    -- of retries, each time with a new idempotency key. Every attempt but the last had an answer that is
    -- retried (an error of the network, or a status from 500 on), and the last had another answer, or
    -- was the last one allowed.
    pub flush_stream_lem :
        (max : ℕ) (w : World) (item : Text) (rest : List Text)
        → has_http cfg.mode ≡ true
        → o.marshal (item ∷ rest) ≡ some payload
        → Attempted
            (suc max)
            w.requests
            (flush_stream o cfg tenant_key max w stream (item ∷ rest)).requests
    flush_stream_lem max w item rest http m = rw (flush_sends max w item rest http m) (
        loop_after max w
          (if has_file cfg.mode then write_to_file o cfg tenant_key w stream payload else w) same)
      where
        same :
            (if has_file cfg.mode
              then write_to_file o cfg tenant_key w stream payload
              else w).requests
            ≡ w.requests
        same = elim (Bool-cases (has_file cfg.mode)) [
          | inl file ↦ rw file (file_first payload w)
          | inr none_ ↦ rw none_ refl
        ]
