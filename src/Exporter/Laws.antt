-- ===== src/Exporter/Laws.antt =====
-- The export queue keeps the newest items and accounts for all others.
use linker_agent.Prelude.{
  ℕ, suc, ◌+◌, ◌-◌, ◌%◌, ◌≤◌, ◌<◌, ◌≡◌, refl, sym, ap, ◌∙◌, subst, ◌⊎◌, inl, inr, true, false, List,
  [], ◌∷◌, ◌++◌, append_assoc, append-nil, length, drop, length-append, ltb, ltb→lt, lt→ltb,
  Bool-cases, add64, u64, Text, arith,
}
use linker_agent.Exporter.{ExportQueue, drop_first, send_or_drop, push, push_all}

-- The last `n` items.
abbrev pub newest : ℕ → List Text → List Text
newest n xs = drop (length xs - n) xs

abbrev pub IsValid : ExportQueue → Type 0
IsValid q =
    (1 ≤ q.capacity)
    × (length q.ch ≤ q.capacity)
    × (q.closed ≡ false)
    × (q.enqueued_count < u64)
    × (q.dropped_count < u64)

-- The queue with the item appended, and with the item appended in place of the oldest.
abbrev appended : ExportQueue → Text → ExportQueue
appended q x = record q { ch = q.ch ++ x ∷ []; enqueued_count = add64 q.enqueued_count 1 }

abbrev replaced : ExportQueue → List Text → Text → ExportQueue
replaced q ys x = record q {
  ch = ys ++ x ∷ [];
  dropped_count = add64 q.dropped_count 1;
  enqueued_count = add64 q.enqueued_count 1;
}

cons-cases : (xs : List Text) → (xs ≡ []) ⊎ ((y : Text) × ((ys : List Text) × (xs ≡ y ∷ ys)))
cons-cases [] = inl refl
cons-cases (y ∷ ys) = inr (y, (ys, refl))

push_room :
    (q : ExportQueue) (x : Text)
    → q.closed ≡ false
    → ltb (length q.ch) q.capacity ≡ true
    → push q x ≡ appended q x
unfolding push
push_room q x o r = ground (arith, o, r)

push_full :
    (q : ExportQueue) (x y : Text) (ys : List Text)
    → q.closed ≡ false
    → q.ch ≡ y ∷ ys
    → ltb (length q.ch) q.capacity ≡ false
    → ltb (length ys) q.capacity ≡ true
    → push q x ≡ replaced q ys x
unfolding push drop_first send_or_drop
push_full q x y ys o e full room = ground (arith, o, e, full, room)

-- What is left of the items, and how they are counted.
abbrev pub After : ExportQueue → List Text → ExportQueue → Type 0
After q xs q' =
    (q'.ch ≡ newest q.capacity (q.ch ++ xs))
    × (q'.enqueued_count ≡ (q.enqueued_count + length xs) % u64)
    × (q'.dropped_count ≡ (q.dropped_count + (length q.ch + length xs - q.capacity)) % u64)

newest_all : (n : ℕ) (xs : List Text) → length xs ≤ n → newest n xs ≡ xs
newest_all n xs h = let e : length xs - n ≡ 0 = omega (arith, h) in ap (λ k. drop k xs) e

newest_next : (n : ℕ) (y : Text) (ys : List Text) → n ≤ length ys → newest n (y ∷ ys) ≡ newest n ys
newest_next n y ys h =
    let e : length (y ∷ ys) - n ≡ suc (length ys - n) = omega arith in ap (λ k. drop k (y ∷ ys)) e

After-push_room :
    (q q' : ExportQueue) (x : Text) (xs : List Text)
    → length q.ch < q.capacity
    → After (appended q x) xs q'
    → After q (x ∷ xs) q'
After-push_room q q' x xs room (c, e, d) = (
  c ∙ ap (newest q.capacity) (append_assoc q.ch (x ∷ []) xs),
  omega (arith, e),
  omega (arith, d, length-append q.ch (x ∷ []), room),
)

After-push_full :
    (q q' : ExportQueue) (x y : Text) (ys xs : List Text)
    → q.ch ≡ y ∷ ys
    → length q.ch ≡ q.capacity
    → After (replaced q ys x) xs q'
    → After q (x ∷ xs) q'
After-push_full q q' x y ys xs e full (c, n, d) =
    let one : length q.ch ≡ suc (length ys) = ap length e in
    let le : q.capacity ≤ length (ys ++ x ∷ xs) =
      omega (arith, one, full, length-append ys (x ∷ xs)) in
    (
      c
          ∙ ap (newest q.capacity) (append_assoc ys (x ∷ []) xs)
          ∙ sym (newest_next q.capacity y (ys ++ x ∷ xs) le)
          ∙ ap (λ l. newest q.capacity (l ++ x ∷ xs)) (sym e),
      omega (arith, n),
      omega (arith, d, one, full, length-append ys (x ∷ [])),
    )

-- Items pushed one after the other on a valid queue: it holds the newest ones of all, as many as its
-- capacity, in order; every push is counted as enqueued, and every item that is gone as dropped.
pub push_all_lem : (q : ExportQueue) (xs : List Text) → IsValid q → After q xs (push_all q xs)
unfolding push_all
push_all_lem q [] (_, le, _, be, bd) = (
  sym (
      newest_all q.capacity (q.ch ++ [])
        (subst (λ l. length l ≤ q.capacity) (sym (append-nil q.ch)) le)
      ∙ append-nil q.ch),
  omega (arith, be),
  omega (arith, le, bd),
)
push_all_lem q (x ∷ xs) (some_room, le, o, be, bd) =
    elim (Bool-cases (ltb (length q.ch) q.capacity)) [
      | inl room ↦
          subst (λ p. After q (x ∷ xs) (push_all p xs)) (sym (push_room q x o room))
            (After-push_room q (push_all (appended q x) xs) x xs
              (ltb→lt (length q.ch) q.capacity room)
              (push_all_lem (appended q x) xs (
                some_room,
                omega (arith, ltb→lt (length q.ch) q.capacity room, length-append q.ch (x ∷ [])),
                o,
                omega arith,
                bd,
              )))
      | inr full ↦ elim (cons-cases q.ch) [
        | inl empty ↦ absurd (ground (arith, empty, full, some_room))
        | inr (y, (ys, e)) ↦
            let all : length q.ch ≡ q.capacity = ground (arith, full, le) in
            let one : length q.ch ≡ suc (length ys) = ap length e in
            let room : ltb (length ys) q.capacity ≡ true =
              lt→ltb (length ys) q.capacity (omega (arith, one, all)) in
            subst (λ p. After q (x ∷ xs) (push_all p xs)) (sym (push_full q x y ys o e full room))
              (After-push_full q (push_all (replaced q ys x) xs) x y ys xs e all (
                push_all_lem (replaced q ys x) xs (
                  some_room,
                  omega (arith, one, all, length-append ys (x ∷ [])),
                  o,
                  omega arith,
                  omega arith,
                )))
      ]
    ]
