-- ===== src/Control/Laws/Runs.antt =====
-- Any number of commands, one after the other, and the replay of one that was accepted.
use linker_agent.Prelude.{
  ℕ, ◌+◌, ◌≤◌, ◌<◌, ◌≡◌, ◌≢◌, refl, sym, ◌∙◌, ap, subst, inl, inr, false, List, [], ◌∷◌, ◌++◌,
  Option, none, some, Option-cases, Text, ℤ, pos, lookup, lookup-here,
}
use linker_agent.Control.Clock.{max_i64}
use linker_agent.Control.{
  Command, Crypto, Error, NonceCache, Handler, Reading, CommandResult, cleanup, verify, handle,
}
use linker_agent.Control.Laws.{Verified, verify_lem}
use linker_agent.Control.Laws.Handle.{verdict, handle-after, handle_refused}
use linker_agent.Control.Laws.Replay.{Spent, verify-Spent, verify_replayed}

verify-ttl :
    (k : Crypto) (at : Reading) (secret : Text) (skew : ℤ) (nc : NonceCache) (c : Command)
    → (verify k at secret skew nc c).0.ttl ≡ nc.ttl
unfolding cleanup
verify-ttl k at secret skew nc c = from (verify_lem k at secret skew nc c)
  where
    from :
        Verified k at secret skew nc c (verify k at secret skew nc c)
        → (verify k at secret skew nc c).0.ttl ≡ nc.ttl
    from (inl (_, s, _)) = ap (λ x. x.ttl) s
    from (inr (inl (_, s, _))) = ap (λ x. x.ttl) s
    from (inr (inr (inl (_, s, _)))) = ap (λ x. x.ttl) s
    from (inr (inr (inr (inl (_, s, _))))) = ap (λ x. x.ttl) s
    from (inr (inr (inr (inr (inl (_, s, _, _)))))) = ap (λ x. x.ttl) s
    from (inr (inr (inr (inr (inr (_, s, _, _, _)))))) = ap (λ x. x.ttl) s

-- The commands are handled one after the other, and a sweep reads the clock no more than the delay
-- after its verification does.
unfoldable pub Follows : ℕ → ℕ → List (Reading × Command) → Type 0
Follows delay now [] = Unit
Follows delay now ((at, c) ∷ rs) =
    (now ≤ at.verified)
    × (at.verified ≤ at.cleaned)
    × (at.cleaned ≤ at.verified + delay)
    × Follows delay at.cleaned rs

-- The command is refused, and the controlled state is the one given.
abbrev pub Refused : {S : Type 0} → S → (Handler S × S) × CommandResult × Option Error → Type 0
Refused s ((h', s'), result, problem) =
    (result.success ≡ false) × (s' ≡ s) × ((e : Error) × (problem ≡ some e))

module _ {S : Type 0} (k : Crypto) where
  unfoldable pub handle_all : Handler S → S → List (Reading × Command) → Handler S × S
  handle_all h s [] = (h, s)
  handle_all h s ((at, c) ∷ rs) =
      let (next, result, problem) = handle k at h s c in handle_all next.0 next.1 rs

  -- The command at the end of a run, handled in the state that the run leaves.
  abbrev pub last_of :
      Handler S × S → Reading → Command → (Handler S × S) × CommandResult × Option Error
  last_of (h, s) at c = handle k at h s c

  refused :
      (at : Reading) (h : Handler S) (s : S) (c : Command)
      → (verdict k at h s c).1 ≢ none
      → Refused s (handle k at h s c)
  refused at h s c n = elim (Option-cases (verdict k at h s c).1) [
    | inl e ↦ absurd (n e)
    | inr (e, r) ↦ rw (handle_refused k at h s c e r) (refl, refl, (e, refl))
  ]

  module _ (skew ttl delay : ℕ) (le : skew + delay ≤ ttl) (bound : ttl < max_i64) where
    Refused-handle_all :
        (now : ℕ) (h : Handler S) (s : S) (rs : List (Reading × Command)) (at : Reading)
        (c : Command)
        → h.max_clock_skew ≡ pos skew
        → h.nonce_cache.ttl ≡ pos ttl
        → Spent now c.nonce c.timestamp h.nonce_cache
        → Follows delay now (rs ++ (at, c) ∷ [])
        → Refused (handle_all h s rs).1 (last_of (handle_all h s rs) at c)
    unfolding Follows handle_all
    Refused-handle_all now h s [] at c es et spent (a, b, d, _) = refused at h s c (
        rw es (
          verify_replayed k at h.secret h.nonce_cache c now skew ttl delay et le bound a b d spent))
    Refused-handle_all now h s ((at', c') ∷ rs) at c es et spent (a, b, d, rest) =
        let next = (handle k at' h s c').0 in
        Refused-handle_all at'.cleaned next.0 next.1 rs at c
          (ap (λ x. x.max_clock_skew) (handle-after k at' h s c') ∙ es)
          (ap (λ x. x.nonce_cache.ttl) (handle-after k at' h s c')
            ∙ verify-ttl k at' h.secret h.max_clock_skew h.nonce_cache c'
            ∙ et)
          (subst (λ x. Spent at'.cleaned c.nonce c.timestamp x.nonce_cache)
            (sym (handle-after k at' h s c'))
            (verify-Spent k at' h.secret h.max_clock_skew h.nonce_cache c' now c.timestamp ttl
              c.nonce et a b spent))
          rest

    accepted-Spent :
        (at : Reading) (h : Handler S) (s : S) (c : Command)
        → (verdict k at h s c).1 ≡ none
        → Spent at.cleaned c.nonce c.timestamp (verdict k at h s c).0
    accepted-Spent at h s c r = from (verify_lem k at h.secret h.max_clock_skew h.nonce_cache c)
      where
        from :
            Verified k at h.secret h.max_clock_skew h.nonce_cache c (verdict k at h s c)
            → Spent at.cleaned c.nonce c.timestamp (verdict k at h s c).0
        from (inl (_, e, _)) = inl (
            ap (λ x. lookup c.nonce x.cache) e
            ∙ lookup-here c.nonce c.timestamp (cleanup at.cleaned h.nonce_cache).cache)
        from (inr (inl (e, _, _))) = absurd (cc)
        from (inr (inr (inl (e, _, _)))) = absurd (cc)
        from (inr (inr (inr (inl (e, _, _))))) = absurd (cc)
        from (inr (inr (inr (inr (inl (e, _, _, _)))))) = absurd (cc)
        from (inr (inr (inr (inr (inr (e, _, _, _, _)))))) = absurd (cc)

    -- A command with the nonce and the timestamp of one that was accepted is refused, and does not
    -- touch the controlled state, however many commands are handled in between. The clock does not run
    -- backwards, a sweep reads it at most the delay after its verification, and the nonces are kept
    -- for at least the window and the delay, and for less than the greatest duration.
    pub handle_replayed :
        (h : Handler S) (s : S) (at at' : Reading) (c c' : Command) (rs : List (Reading × Command))
        → h.max_clock_skew ≡ pos skew
        → h.nonce_cache.ttl ≡ pos ttl
        → (verify k at h.secret h.max_clock_skew h.nonce_cache c).1 ≡ none
        → c'.nonce ≡ c.nonce
        → c'.timestamp ≡ c.timestamp
        → Follows delay at.cleaned (rs ++ (at', c') ∷ [])
        → let (h', s') = handle_all (handle k at h s c).0.0 (handle k at h s c).0.1 rs in
          Refused s' (handle k at' h' s' c')
    handle_replayed h s at at' c c' rs es et r en eu order =
        let next = (handle k at h s c).0 in
        Refused-handle_all at.cleaned next.0 next.1 rs at' c'
          (ap (λ x. x.max_clock_skew) (handle-after k at h s c) ∙ es)
          (ap (λ x. x.nonce_cache.ttl) (handle-after k at h s c)
            ∙ verify-ttl k at h.secret h.max_clock_skew h.nonce_cache c
            ∙ et)
          (subst (λ x. Spent at.cleaned c'.nonce c'.timestamp x.nonce_cache)
            (sym (handle-after k at h s c)) (rw en (rw eu (accepted-Spent at h s c r))))
          order
