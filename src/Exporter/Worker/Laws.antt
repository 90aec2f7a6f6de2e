-- ===== src/Exporter/Worker/Laws.antt =====
-- What becomes of the items of a queue that is closed, and how large the batches are.
use linker_agent.Prelude.{
  ℕ, ◌≡◌, refl, sym, ap, ◌∙◌, ◌⊎◌, inl, inr, List, [], ◌∷◌, ◌++◌, append_assoc, append-nil, Text,
  length, leb, Bool-cases, arith,
}
use linker_agent.Exporter.Worker.{Worker, flush, receive}

unfoldable pub concat : List (List Text) → List Text
concat [] = []
concat (b ∷ bs) = b ++ concat bs

concat-append : (bs cs : List (List Text)) → concat (bs ++ cs) ≡ concat bs ++ concat cs
unfolding concat
concat-append [] cs = refl
concat-append (b ∷ bs) cs =
    ap (λ l. b ++ l) (concat-append bs cs) ∙ sym (append_assoc b (concat bs) (concat cs))

-- The items that the worker flushed and gathered, and all of them with those that wait.
abbrev pub gathered : Worker → List Text
gathered w = concat w.flushed ++ w.batch

abbrev pub items : Worker → List Text
items w = gathered w ++ w.queue.ch

pub List-cases : (xs : List Text) → (xs ≡ []) ⊎ ((x : Text) × ((ys : List Text) × (xs ≡ x ∷ ys)))
List-cases [] = inl refl
List-cases (x ∷ ys) = inr (x, (ys, refl))

pub flush_none : (w : Worker) → w.batch ≡ [] → flush w ≡ w
unfolding flush
flush_none w e = ground (arith, e)

pub flush_some :
    (w : Worker) (x : Text) (xs : List Text)
    → w.batch ≡ x ∷ xs
    → flush w ≡ record w { flushed = w.flushed ++ w.batch ∷ []; batch = [] }
unfolding flush
flush_some w x xs e = ground (arith, e)

-- What a flush leaves as it was, and that it empties the batch.
abbrev pub Flushed : Worker → Worker → Type 0
Flushed w w' =
    (gathered w' ≡ gathered w)
    × (w'.batch ≡ [])
    × (w'.queue ≡ w.queue)
    × (w'.stopped ≡ w.stopped)
    × (w'.canceled ≡ w.canceled)

pub flush_lem : (w : Worker) → Flushed w (flush w)
unfolding concat
flush_lem w = elim (List-cases w.batch) [
  | inl e ↦ rw (flush_none w e) (refl, e, refl, refl, refl)
  | inr (x, (xs, e)) ↦ rw (flush_some w x xs e) (
    append-nil (concat (w.flushed ++ w.batch ∷ []))
        ∙ concat-append w.flushed (w.batch ∷ [])
        ∙ ap (λ l. concat w.flushed ++ l) (append-nil w.batch),
    refl,
    refl,
    refl,
    refl,
  )
]

-- Receiving an item moves it from the queue to what is gathered.
abbrev pub Received : Worker → Text → List Text → Worker → Type 0
Received w x xs w' =
    (gathered w' ≡ gathered w ++ x ∷ [])
    × (w'.queue ≡ record w.queue { ch = xs })
    × (w'.stopped ≡ w.stopped)
    × (w'.canceled ≡ w.canceled)

pub receive_lem :
    (size : ℕ) (w : Worker) (x : Text) (xs : List Text) → Received w x xs (receive size w x xs)
unfolding receive
receive_lem size w x xs =
    let w' : Worker = record w { queue = record w.queue { ch = xs }; batch = w.batch ++ x ∷ [] } in
    let joined : gathered w' ≡ gathered w ++ x ∷ [] =
      sym (append_assoc (concat w.flushed) w.batch (x ∷ [])) in
    elim (Bool-cases (leb size (length w'.batch))) [
      | inl full ↦ let (g, _, q, s, c) = flush_lem w' in rw full (g ∙ joined, q, s, c)
      | inr room ↦ rw room (joined, refl, refl, refl)
    ]
