-- ===== src/Control/Laws/Handle.antt =====
-- What `Handle` does with the verdict of `Verify`.
use linker_agent.Prelude.{
  ◌≡◌, refl, ap, inl, inr, ◌⊎◌, ◌↔◌, true, false, Option, none, some, Option-cases, lookup, arith,
}
use linker_agent.Control.{
  Command, CommandFunc, Crypto, Error, unknown_command, NonceCache, Handler, CommandResult,
  verification_failed, execution_failed, unknown, executed, Reading, verify, answer, handle,
}

module _ {S : Type 0} (k : Crypto) (at : Reading) (h : Handler S) (s : S) (c : Command) where
  abbrev pub verdict : NonceCache × Option Error
  verdict = verify k at h.secret h.max_clock_skew h.nonce_cache c

  -- The handler afterwards, whatever the verdict.
  abbrev pub after : Handler S
  after = record h { nonce_cache = verdict.0 }

  pub handle_refused :
      (e : Error)
      → verdict.1 ≡ some e
      → handle k at h s c ≡ ((after, s), answer at c false (verification_failed e), some e)
  unfolding handle
  handle_refused e r = ground (arith, r)

  pub handle_unknown :
      verdict.1 ≡ none
      → lookup c.command h.command_router ≡ none
      → handle k at h s c ≡ (
        (after, s),
        answer at c false (unknown (unknown_command c.command)),
        some (unknown_command c.command),
      )
  unfolding handle
  handle_unknown r l = ground (arith, r, l)

  pub handle_failed :
      (fn : CommandFunc S) (e : Error)
      → verdict.1 ≡ none
      → lookup c.command h.command_router ≡ some fn
      → (fn s c.params).1 ≡ some e
      → handle k at h s c
        ≡ ((after, (fn s c.params).0), answer at c false (execution_failed e), some e)
  unfolding handle
  handle_failed fn e r l x = ground (arith, r, l, x)

  pub handle_executed :
      (fn : CommandFunc S)
      → verdict.1 ≡ none
      → lookup c.command h.command_router ≡ some fn
      → (fn s c.params).1 ≡ none
      → handle k at h s c ≡ ((after, (fn s c.params).0), answer at c true executed, none)
  unfolding handle
  handle_executed fn r l x = ground (arith, r, l, x)

  -- A command function ran for a command, and gave the state and the error.
  abbrev pub IsRun : S → Option Error → Type 0
  IsRun s' problem =
      (verdict.1 ≡ none)
      × ((fn : CommandFunc S) × (lookup c.command h.command_router ≡ some fn)
          × (fn s c.params ≡ (s', problem)))

  abbrev pub Handled : (Handler S × S) × CommandResult × Option Error → Type 0
  Handled ((h', s'), result, problem) =
      (h' ≡ after)
      × ((result.success ≡ true) ↔ (problem ≡ none))
      × (((problem ≡ none) × IsRun s' none)
          ⊎ ((e : Error) × (problem ≡ some e) × ((s' ≡ s) ⊎ IsRun s' (some e))))

  -- The result says success exactly when there is no error. Without an error the command was verified
  -- and its registered function ran without one; with an error the controlled state is as it was, or
  -- is what the registered function of a verified command left when it failed. Only the verification
  -- changes the handler.
  pub handle_lem : Handled (handle k at h s c)
  handle_lem = elim (Option-cases verdict.1) [
    | inr (e, r) ↦ rw (handle_refused e r) (refl, (λ x. cc, λ x. cc), inr (e, refl, inl refl))
    | inl r ↦ elim (Option-cases (lookup c.command h.command_router)) [
      | inl l ↦
          rw (handle_unknown r l)
            (refl, (λ x. cc, λ x. cc), inr (unknown_command c.command, refl, inl refl))
      | inr (fn, l) ↦ elim (Option-cases (fn s c.params).1) [
        | inr (e, x) ↦ rw (handle_failed fn e r l x) (
          refl,
          (λ x. cc, λ x. cc),
          inr (e, refl, inr (r, (fn, l, ap (λ p. ((fn s c.params).0, p)) x))),
        )
        | inl x ↦ rw (handle_executed fn r l x) (
          refl,
          (λ x. refl, λ x. refl),
          inl (refl, (r, (fn, l, ap (λ p. ((fn s c.params).0, p)) x))),
        )
      ]
    ]
  ]

  pub handle-after : (handle k at h s c).0.0 ≡ after
  handle-after = handle_lem.0
