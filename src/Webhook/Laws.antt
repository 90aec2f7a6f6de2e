-- ===== src/Webhook/Laws.antt =====
-- No event is queued twice, and what becomes of one that finds no room.
use linker_agent.Prelude.{
  ℕ, suc, ◌+◌, ◌≤◌, ◌≡◌, refl, sym, ap, ◌∙◌, subst, ◌⊎◌, inl, inr, Bool, true, false, List, [], ◌∷◌,
  ◌++◌, Text, eq_text, eq_text→eq, eq_text_refl, length, ltb, if◌then◌else◌, Bool-cases, arith,
}
use linker_agent.Webhook.{
  Job, Request, Body, no_event, event, Handler, has_seen, is_duplicate, send, serve_http, Step,
  serve, take_job, System, step, run,
}

-- The number of jobs for an event.
unfoldable pub count_id : Text → List Job → ℕ
count_id id [] = 0
count_id id (j ∷ js) = let rest = count_id id js in if eq_text id j.event_id then suc rest else rest

count_id-append :
    (id : Text) (xs ys : List Job) → count_id id (xs ++ ys) ≡ count_id id xs + count_id id ys
unfolding count_id
count_id-append id [] ys = omega arith
count_id-append id (x ∷ xs) ys = ground (arith, count_id-append id xs ys)

abbrev bound : Bool → ℕ
bound b = if b then 1 else 0

-- An event has a job, waiting or taken, only if it was seen, and then at most one.
abbrev pub IsOnce : System → Type 0
IsOnce s =
    (id : Text)
    → count_id id s.handler.jobs + count_id id s.taken ≤ bound (has_seen id s.handler.seen)

-- The handler leaves its state, or sees a new event and queues it or drops it.
abbrev Served : Handler → Handler → Type 0
Served h h' =
    (h' ≡ h)
    ⊎ ((job : Job) × (has_seen job.event_id h.seen ≡ false)
        × ((h' ≡ record h { seen = job.event_id ∷ h.seen; jobs = h.jobs ++ job ∷ [] })
            ⊎ (h' ≡ record h { seen = job.event_id ∷ h.seen })))

send_cases :
    (h : Handler) (job : Job)
    → (send h job ≡ record h { jobs = h.jobs ++ job ∷ [] }) ⊎ (send h job ≡ h)
unfolding send
send_cases h job = elim (Bool-cases (ltb (length h.jobs) h.queue_depth)) [
  | inl room ↦ inl (rw room refl)
  | inr full ↦ inr (rw full refl)
]

serve_rejected :
    (h : Handler) (r : Request)
    → (r.is_post ≡ false)
      ⊎ ((r.ip_allowed ≡ false)
          ⊎ ((r.body_read ≡ false) ⊎ ((r.signature_valid ≡ false) ⊎ (r.body ≡ no_event))))
    → (serve_http h r).0 ≡ h
unfolding serve_http
serve_rejected h r why = ground (arith, why)

serve_event :
    (h : Handler) (r : Request) (job : Job)
    → r.is_post ≡ true
    → r.ip_allowed ≡ true
    → r.body_read ≡ true
    → r.signature_valid ≡ true
    → r.body ≡ event job
    → (serve_http h r).0 ≡ (
        if has_seen job.event_id h.seen
        then h
        else send (record h { seen = job.event_id ∷ h.seen }) job)
unfolding serve_http is_duplicate
serve_event h r job a b c d e = ground (arith, a, b, c, d, e)

Body-cases : (b : Body) → (b ≡ no_event) ⊎ ((job : Job) × (b ≡ event job))
Body-cases no_event = inl refl
Body-cases (event job) = inr (job, refl)

served : (h : Handler) (r : Request) → Served h (serve_http h r).0
served h r = elim (Bool-cases r.is_post) [
  | inr a ↦ inl (serve_rejected h r (inl a))
  | inl a ↦ elim (Bool-cases r.ip_allowed) [
    | inr b ↦ inl (serve_rejected h r (inr (inl b)))
    | inl b ↦ elim (Bool-cases r.body_read) [
      | inr c ↦ inl (serve_rejected h r (inr (inr (inl c))))
      | inl c ↦ elim (Bool-cases r.signature_valid) [
        | inr d ↦ inl (serve_rejected h r (inr (inr (inr (inl d)))))
        | inl d ↦ elim (Body-cases r.body) [
          | inl e ↦ inl (serve_rejected h r (inr (inr (inr (inr e)))))
          | inr (job, e) ↦ subst (Served h) (sym (serve_event h r job a b c d e)) (served_event job)
        ]
      ]
    ]
  ]
]
  where
    served_event :
        (job : Job)
        → Served h (
            if has_seen job.event_id h.seen
            then h
            else send (record h { seen = job.event_id ∷ h.seen }) job)
    served_event job = elim (Bool-cases (has_seen job.event_id h.seen)) [
      | inl old ↦ rw old (inl refl)
      | inr new ↦ rw new (
          inr (
            job,
            new,
            elim (send_cases (record h { seen = job.event_id ∷ h.seen }) job) [
              | inl sent ↦ inl sent
              | inr lost ↦ inr lost
            ],
          ))
    ]

-- The counts for an id after a new event.
once_queued :
    (id : Text) (job : Job) (seen : List Text) (jobs taken : List Job)
    → has_seen job.event_id seen ≡ false
    → count_id id jobs + count_id id taken ≤ bound (has_seen id seen)
    → count_id id (jobs ++ job ∷ []) + count_id id taken ≤ bound (has_seen id (job.event_id ∷ seen))
unfolding has_seen count_id
once_queued id job seen jobs taken new once = elim (Bool-cases (eq_text id job.event_id)) [
  | inl same ↦
      let e : id ≡ job.event_id = eq_text→eq id job.event_id same in
      let z : has_seen id seen ≡ false = ap (λ t. has_seen t seen) e ∙ new in
      ground (arith, same, z, once, count_id-append id jobs (job ∷ []))
  | inr other ↦ ground (arith, other, once, count_id-append id jobs (job ∷ []))
]

once_seen :
    (id x : Text) (n : ℕ) (seen : List Text)
    → n ≤ bound (has_seen id seen)
    → n ≤ bound (has_seen id (x ∷ seen))
unfolding has_seen
once_seen id x n seen once = ground (arith, once)

IsOnce-Served :
    (s : System) (h' : Handler)
    → Served s.handler h'
    → IsOnce s
    → IsOnce (record s { handler = h' })
IsOnce-Served s h' (inl same) once = subst (λ h. IsOnce (record s { handler = h })) (sym same) once
IsOnce-Served s h' (inr (job, new, inl queued)) once =
    subst (λ h. IsOnce (record s { handler = h })) (sym queued)
      (λ id. once_queued id job s.handler.seen s.handler.jobs s.taken new (once id))
IsOnce-Served s h' (inr (job, new, inr dropped)) once =
    subst (λ h. IsOnce (record s { handler = h })) (sym dropped)
      (λ id.
        once_seen id job.event_id (count_id id s.handler.jobs + count_id id s.taken) s.handler.seen
          (once id))

jobs-cases : (js : List Job) → (js ≡ []) ⊎ ((j : Job) × ((rest : List Job) × (js ≡ j ∷ rest)))
jobs-cases [] = inl refl
jobs-cases (j ∷ rest) = inr (j, (rest, refl))

step_none : (s : System) → s.handler.jobs ≡ [] → step s take_job ≡ s
unfolding step
step_none s e = ground (arith, e)

step_some :
    (s : System) (j : Job) (js : List Job)
    → s.handler.jobs ≡ j ∷ js
    → step s take_job ≡ record { handler = record s.handler { jobs = js }; taken = j ∷ s.taken }
unfolding step
step_some s j js e = ground (arith, e)

moved :
    (id : Text) (j : Job) (js jobs taken : List Job)
    → jobs ≡ j ∷ js
    → count_id id js + count_id id (j ∷ taken) ≡ count_id id jobs + count_id id taken
unfolding count_id
moved id j js jobs taken e = ground (arith, e)

step-IsOnce : (s : System) (x : Step) → IsOnce s → IsOnce (step s x)
unfolding step
step-IsOnce s (serve r) once = IsOnce-Served s (serve_http s.handler r).0 (served s.handler r) once
step-IsOnce s take_job once = elim (jobs-cases s.handler.jobs) [
  | inl e ↦ subst IsOnce (sym (step_none s e)) once
  | inr (j, (js, e)) ↦
      subst IsOnce (sym (step_some s j js e))
        (λ id. omega (arith, moved id j js s.handler.jobs s.taken e, once id))
]

-- Whatever requests come, and however the worker takes jobs in between, an event has at most one job,
-- waiting or taken, and none if it was not seen, provided that this holds at the start.
pub run-IsOnce : (s : System) (xs : List Step) → IsOnce s → IsOnce (run s xs)
unfolding run
run-IsOnce s [] once = once
run-IsOnce s (x ∷ xs) once = run-IsOnce (step s x) xs (step-IsOnce s x once)

-- A request that passes every test and brings the event.
abbrev pub Delivers : Request → Job → Type 0
Delivers r job =
    (r.is_post ≡ true)
    × (r.ip_allowed ≡ true)
    × (r.body_read ≡ true)
    × (r.signature_valid ≡ true)
    × (r.body ≡ event job)

dropped :
    (h : Handler) (r : Request) (job : Job)
    → Delivers r job
    → has_seen job.event_id h.seen ≡ false
    → ltb (length h.jobs) h.queue_depth ≡ false
    → (serve_http h r).0 ≡ record h { seen = job.event_id ∷ h.seen }
unfolding send
dropped h r job (a, b, c, d, e) new full = serve_event h r job a b c d e ∙ ground (arith, new, full)

ignored :
    (h : Handler) (r : Request) (job : Job)
    → Delivers r job
    → has_seen job.event_id h.seen ≡ true
    → (serve_http h r).0 ≡ h
ignored h r job (a, b, c, d, e) old = serve_event h r job a b c d e ∙ rw old refl

has_seen-here : (id : Text) (seen : List Text) → has_seen id (id ∷ seen) ≡ true
unfolding has_seen
has_seen-here id seen = rw (eq_text_refl id) refl

-- A new event that is delivered when the queue of jobs is full is not queued, and a later delivery of
-- it changes nothing, whatever jobs wait by then and whatever the depth is.
pub serve_http_full :
    (h h' : Handler) (r r' : Request) (job : Job)
    → Delivers r job
    → Delivers r' job
    → has_seen job.event_id h.seen ≡ false
    → h.queue_depth ≤ length h.jobs
    → h'.seen ≡ (serve_http h r).0.seen
    → ((serve_http h r).0.jobs ≡ h.jobs) × ((serve_http h' r').0 ≡ h')
serve_http_full h h' r r' job del del' new full same =
    let e : (serve_http h r).0 ≡ record h { seen = job.event_id ∷ h.seen } =
      dropped h r job del new (ground (arith, full)) in
    let seen_now : h'.seen ≡ job.event_id ∷ h.seen = same ∙ ap (λ x. x.seen) e in
    (
      ap (λ x. x.jobs) e,
      ignored h' r' job del'
          (ap (has_seen job.event_id) seen_now ∙ has_seen-here job.event_id h.seen),
    )
