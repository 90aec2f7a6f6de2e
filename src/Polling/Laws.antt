-- ===== src/Polling/Laws.antt =====
-- A polling cycle against a server that hands out commands.
use linker_agent.Prelude.{
  ℕ, zero, suc, ◌+◌, ◌<◌, ◌≡◌, ◌≢◌, refl, sym, ap, ◌∙◌, subst, inl, inr, true, List, [], ◌∷◌, ◌++◌,
  map, append_assoc, Option, none, some, Text, codes, eq_text_ne, length, length-append,
  Option-cases, ℤ, arith,
}
use linker_agent.Heartbeat.{
  Request, Response, Outside, Traffic, signature, message_of, sign_request,
}
use linker_agent.Polling.{
  Command, Json, Poller, no_command, received, send, read_response, poll, acknowledge,
  execute_command, poll_once,
}

abbrev pub poll_path : Text
poll_path = codes "/api/agent/command/poll"

abbrev pub result_path : Text
result_path = codes "/api/agent/command/result"

-- The poller can send: its URLs are valid, its secret is the base64 of a key, and there are nonces.
abbrev pub CanSend : {S : Type 0} → Outside → Poller S → Type 0
CanSend o p =
    (o.valid_url (p.cdp_base_url ++ poll_path) ≡ true)
    × (o.valid_url (p.cdp_base_url ++ result_path) ≡ true)
    × (p.secret ≢ [])
    × ((key : Text) × (o.primitives.decode_base64 p.secret ≡ some key))
    × ((n : ℕ) → (nonce : Text) × (o.random n ≡ some nonce))

-- Where the requests went and what they said.
abbrev pub sent : Traffic → List (Text × Text)
sent t = map (λ (r : Request). (r.url, r.body)) t.requests

map-append : {A B : Type 0} (g : A → B) (xs ys : List A) → map g (xs ++ ys) ≡ map g xs ++ map g ys
map-append g [] ys = refl
map-append g (x ∷ xs) ys = ap (λ l. g x ∷ l) (map-append g xs ys)

module _ {S : Type 0} (o : Outside) (j : Json) (p : Poller S) where
  -- The server answers every other request from the n-th on, the polls, with the commands in order, and
  -- then with none.
  abbrev pub Serves : ℕ → List Command → Type 0
  Serves n [] = read_response j (o.answer n) ≡ no_command
  Serves n (c ∷ cs) = (read_response j (o.answer n) ≡ received c) × Serves (n + 2) cs

  abbrev poll_message : Text × Text
  poll_message = (p.cdp_base_url ++ poll_path, j.poll_request p.agent_id p.organization_id)

  abbrev ack_message : Command → (status message : Text) → Text × Text
  ack_message c status message = (
    p.cdp_base_url ++ result_path,
    j.ack_request p.agent_id p.organization_id c.command_id status message,
  )

  abbrev with_rest : Command → S × Option Text → S × List (Text × Text) → S × List (Text × Text)
  with_rest c (s', some message) rest =
      (s', poll_message ∷ ack_message c (codes "error") message ∷ [])
  with_rest c (s', none) rest = (rest.0, poll_message ∷ ack_message c (codes "success") [] ∷ rest.1)

  -- What is to happen for the commands: they are executed in order up to the first that fails, each after a
  -- poll and before the acknowledgment of its outcome, and a poll follows the last success.
  abbrev pub dialogue : List Command → S → S × List (Text × Text)
  dialogue [] s = (s, poll_message ∷ [])
  dialogue (c ∷ cs) s =
      with_rest c (execute_command o j p s c) (dialogue cs ((execute_command o j p s c).0))

  -- A request that is sent.
  abbrev request_of : Traffic → (url body key nonce : Text) → Request
  request_of t url body key nonce = record {
    url = url;
    body = body;
    timestamp = o.clock t.calls;
    nonce = nonce;
    signature_header =
        o.primitives.encode_base64
          (o.primitives.hmac key (message_of (o.clock t.calls) nonce body));
  }

  sign_request_lem :
      (key nonce body : Text) (time : ℤ)
      → p.secret ≢ []
      → o.primitives.decode_base64 p.secret ≡ some key
      → sign_request o.primitives p.secret time nonce body
        ≡ signature
            (o.primitives.encode_base64 (o.primitives.hmac key (message_of time nonce body)))
  unfolding sign_request
  sign_request_lem key nonce body time ne d = ground (arith, eq_text_ne p.secret [] ne, d)

  send_equation :
      (t : Traffic) (url body key nonce : Text)
      → p.secret ≢ []
      → o.primitives.decode_base64 p.secret ≡ some key
      → o.random t.calls ≡ some nonce
      → o.valid_url url ≡ true
      → send o p t url body ≡ (
        record {
          calls = suc t.calls;
          requests = t.requests ++ request_of t url body key nonce ∷ [];
        },
        o.answer (length t.requests),
      )
  unfolding send
  send_equation t url body key nonce ne d r v =
      ground (arith, v, r, sign_request_lem key nonce body (o.clock t.calls) ne d)

  -- What a request that is sent leaves.
  abbrev Sends : Traffic → Text × Text → Traffic → Type 0
  Sends t m t' = (sent t' ≡ sent t ++ m ∷ []) × (length t'.requests ≡ length t.requests + 1)

  module _ (can : CanSend o p) where
    send_lem :
        (t : Traffic) (url body : Text)
        → o.valid_url url ≡ true
        → Sends t (url, body) ((send o p t url body).0)
          × ((send o p t url body).1 ≡ o.answer (length t.requests))
    send_lem t url body v =
        let (_, _, ne, (key, d), nonces) = can in
        let (nonce, r) = nonces t.calls in
        subst
          (λ (x : Traffic × Response).
            Sends t (url, body) (x.0) × (x.1 ≡ o.answer (length t.requests)))
          (sym (send_equation t url body key nonce ne d r v))
          (
            (
              map-append (λ (r : Request). (r.url, r.body)) t.requests
                  (request_of t url body key nonce ∷ []),
              length-append t.requests (request_of t url body key nonce ∷ []),
            ),
            refl,
          )

    poll_lem :
        (t : Traffic)
        → Sends t poll_message ((poll o j p t).0)
          × ((poll o j p t).1 ≡ read_response j (o.answer (length t.requests)))
    unfolding poll
    poll_lem t =
        let (s, a) =
          send_lem t (p.cdp_base_url ++ poll_path) (j.poll_request p.agent_id p.organization_id)
            (can.0) in
        (s, ap (read_response j) a)

    acknowledge_lem :
        (t : Traffic) (c : Command) (status message : Text)
        → Sends t (ack_message c status message) (acknowledge o j p t c.command_id status message)
    unfolding acknowledge
    acknowledge_lem t c status message =
        (send_lem t (p.cdp_base_url ++ result_path)
          (j.ack_request p.agent_id p.organization_id c.command_id status message) (can.1)).0

    two_sent :
        (a b c : Traffic) (m n : Text × Text)
        → Sends a m b
        → Sends b n c
        → (sent c ≡ sent a ++ m ∷ n ∷ []) × (length c.requests ≡ length a.requests + 2)
    two_sent a b c m n (s, l) (s', l') = (
      s' ∙ ap (λ x. x ++ n ∷ []) s ∙ append_assoc (sent a) (m ∷ []) (n ∷ []),
      omega (arith, l, l'),
    )

    -- The end of a cycle: the state and the requests after it.
    abbrev Ends : Traffic → Traffic × S → S × List (Text × Text) → Type 0
    Ends t out d = (out.1 ≡ d.0) × (sent (out.0) ≡ sent t ++ d.1)

    poll_once_idle :
        (fuel : ℕ) (t : Traffic) (s : S)
        → (poll o j p t).1 ≡ no_command
        → poll_once o j p (suc fuel) (t, s) ≡ ((poll o j p t).0, s)
    unfolding poll_once
    poll_once_idle fuel t s e = ground (arith, e)

    poll_once_error :
        (fuel : ℕ) (t : Traffic) (s : S) (c : Command) (message : Text)
        → (poll o j p t).1 ≡ received c
        → (execute_command o j p s c).1 ≡ some message
        → poll_once o j p (suc fuel) (t, s) ≡ (
          acknowledge o j p ((poll o j p t).0) c.command_id (codes "error") message,
          (execute_command o j p s c).0,
        )
    unfolding poll_once
    poll_once_error fuel t s c message e f = ground (arith, e, f)

    poll_once_success :
        (fuel : ℕ) (t : Traffic) (s : S) (c : Command)
        → (poll o j p t).1 ≡ received c
        → (execute_command o j p s c).1 ≡ none
        → poll_once o j p (suc fuel) (t, s)
          ≡ poll_once o j p fuel (
            acknowledge o j p ((poll o j p t).0) c.command_id (codes "success") [],
            (execute_command o j p s c).0,
          )
    unfolding poll_once
    poll_once_success fuel t s c e f = ground (arith, e, f)

    -- The poll and the acknowledgment of one command.
    command_sent :
        (t : Traffic) (c : Command) (status message : Text)
        → let t' = acknowledge o j p ((poll o j p t).0) c.command_id status message in
          (sent t' ≡ sent t ++ poll_message ∷ ack_message c status message ∷ [])
          × (length t'.requests ≡ length t.requests + 2)
    command_sent t c status message =
        two_sent t ((poll o j p t).0)
          (acknowledge o j p ((poll o j p t).0) c.command_id status message) poll_message
          (ack_message c status message) ((poll_lem t).0)
          (acknowledge_lem ((poll o j p t).0) c status message)

    with_rest_error :
        (c : Command) (r : S × Option Text) (message : Text) (rest : S × List (Text × Text))
        → r.1 ≡ some message
        → with_rest c r rest ≡ (r.0, poll_message ∷ ack_message c (codes "error") message ∷ [])
    with_rest_error c (s', some m) message rest e =
        ap (λ x. (s', poll_message ∷ ack_message c (codes "error") x ∷ [])) (cc)
    with_rest_error c (s', none) message rest e = absurd (cc)

    with_rest_success :
        (c : Command) (r : S × Option Text) (rest : S × List (Text × Text))
        → r.1 ≡ none
        → with_rest c r rest ≡ (rest.0, poll_message ∷ ack_message c (codes "success") [] ∷ rest.1)
    with_rest_success c (s', some m) rest e = absurd (cc)
    with_rest_success c (s', none) rest e = refl

    cycle :
        (fuel : ℕ) (cs : List Command) (t : Traffic) (s : S)
        → Serves (length t.requests) cs
        → length cs < fuel
        → Ends t (poll_once o j p fuel (t, s)) (dialogue cs s)
    cycle zero cs t s serves lt = absurd (omega arith)
    cycle (suc fuel) [] t s serves lt =
        let ((said, _), r) = poll_lem t in
        subst (λ out. Ends t out (s, poll_message ∷ []))
          (sym (poll_once_idle fuel t s (r ∙ serves))) (refl, said)
    cycle (suc fuel) (c ∷ cs) t s (now, later) lt =
        let got = (poll_lem t).1 ∙ now in
        elim (Option-cases ((execute_command o j p s c).1)) [
          | inr (message, e) ↦
              subst (λ out. Ends t out (dialogue (c ∷ cs) s))
                (sym (poll_once_error fuel t s c message got e))
                (subst
                  (λ d.
                    Ends t
                      (
                        acknowledge o j p ((poll o j p t).0) c.command_id (codes "error") message,
                        (execute_command o j p s c).0,
                      )
                      d)
                  (sym (
                    with_rest_error c (execute_command o j p s c) message
                      (dialogue cs ((execute_command o j p s c).0)) e))
                  (refl, (command_sent t c (codes "error") message).0))
          | inl e ↦
              let t' = acknowledge o j p ((poll o j p t).0) c.command_id (codes "success") [] in
              let s' = (execute_command o j p s c).0 in
              let (said, n) = command_sent t c (codes "success") [] in
              let (end, rest) =
                cycle fuel cs t' s' (subst (λ k. Serves k cs) (sym n) later) (omega arith) in
              subst (λ out. Ends t out (dialogue (c ∷ cs) s))
                (sym (poll_once_success fuel t s c got e))
                (subst (λ d. Ends t (poll_once o j p fuel (t', s')) d)
                  (sym (with_rest_success c (execute_command o j p s c) (dialogue cs s') e))
                  (end, rest ∙ ap (λ l. l ++ (dialogue cs s').1) said ∙ append_assoc (sent t) _ _))
        ]

-- A polling cycle of a poller that can send, against a server that answers its polls with some commands in
-- order and then with none, ends with enough fuel, one poll more than there are commands: every command up to
-- the first that fails is executed once and in order, its outcome is acknowledged before the next poll, and
-- nothing else is sent.
pub poll_once_lem :
    {S : Type 0} (o : Outside) (j : Json) (p : Poller S)
    → CanSend o p
    → (fuel : ℕ) (cs : List Command) (t : Traffic) (s : S) → Serves o j p (length t.requests) cs
    → length cs < fuel
    → ((poll_once o j p fuel (t, s)).1 ≡ (dialogue o j p cs s).0)
      × (sent ((poll_once o j p fuel (t, s)).0) ≡ sent t ++ (dialogue o j p cs s).1)
poll_once_lem o j p can fuel cs t s serves lt = cycle o j p can fuel cs t s serves lt
