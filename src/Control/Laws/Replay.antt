-- ===== src/Control/Laws/Replay.antt =====
-- Replayed commands: what a nonce that was accepted once prevents later.
use linker_agent.Prelude.{
  ℕ, ◌+◌, ◌≤◌, ◌<◌, ◌≡◌, ◌≢◌, refl, sym, ◌∙◌, ap, subst, ◌⊎◌, inl, inr, true, false, not, none,
  some, Bool-cases, Text, ℤ, pos, lookup, lookup-there, lookup-keep, arith,
}
use linker_agent.Control.Clock.{max_i64, time_sub, time_diff, exceeds}
use linker_agent.Control.Clock.Laws.{exceeds-time_sub_iff, time_diff_iff}
use linker_agent.Control.{Command, Crypto, NonceCache, Reading, is_fresh, cleanup, verify}
use linker_agent.Control.Laws.{stored, Verified, verify_lem, verify_iff}

-- The nonce is in the cache with the timestamp, or the timestamp is too old to be kept.
abbrev pub Spent : ℕ → Text → ℕ → NonceCache → Type 0
Spent now nonce t nc = (lookup nonce nc.cache ≡ some t) ⊎ (exceeds (time_sub now t) nc.ttl ≡ true)

cleanup-ttl : (now : ℕ) (nc : NonceCache) → (cleanup now nc).ttl ≡ nc.ttl
unfolding cleanup
cleanup-ttl now nc = refl

-- Time only makes a timestamp older.
older :
    (now now' t ttl : ℕ)
    → now ≤ now'
    → exceeds (time_sub now t) (pos ttl) ≡ true
    → exceeds (time_sub now' t) (pos ttl) ≡ true
older now now' t ttl le h =
    let (past, bound) = (exceeds-time_sub_iff now t ttl).0 h in
    (exceeds-time_sub_iff now' t ttl).1 (omega arith, bound)

cleanup-Spent :
    (now now' t ttl : ℕ) (nonce : Text) (nc : NonceCache)
    → nc.ttl ≡ pos ttl
    → now ≤ now'
    → Spent now nonce t nc
    → Spent now' nonce t (cleanup now' nc)
unfolding cleanup is_fresh
cleanup-Spent now now' t ttl nonce nc e le (inr old) =
    inr (rw e (older now now' t ttl le (subst (λ x. exceeds (time_sub now t) x ≡ true) e old)))
cleanup-Spent now now' t ttl nonce nc e le (inl here) =
    elim (Bool-cases (exceeds (time_sub now' t) nc.ttl)) [
      | inl old ↦ inr old
      | inr new ↦ inl (lookup-keep (is_fresh nc.ttl now') nonce t nc.cache here (ap not new))
    ]

stored-Spent :
    (now t : ℕ) (nonce : Text) (nc : NonceCache) (c : Command)
    → lookup c.nonce (cleanup now nc).cache ≡ none
    → Spent now nonce t (cleanup now nc)
    → Spent now nonce t (stored now nc c)
stored-Spent now t nonce nc c new (inr old) = inr old
stored-Spent now t nonce nc c new (inl here) =
    inl (lookup-there nonce c.nonce c.timestamp (cleanup now nc).cache other ∙ here)
  where
    other : nonce ≢ c.nonce
    other e = ground (arith, new, here, e)

pub verify-Spent :
    (k : Crypto) (at : Reading) (secret : Text) (skew : ℤ) (nc : NonceCache) (c : Command)
    → (now t ttl : ℕ) (nonce : Text) → nc.ttl ≡ pos ttl
    → now ≤ at.verified
    → at.verified ≤ at.cleaned
    → Spent now nonce t nc
    → Spent at.cleaned nonce t (verify k at secret skew nc c).0
verify-Spent k at secret skew nc c now t ttl nonce e le le' spent =
    from (verify_lem k at secret skew nc c)
  where
    swept : Spent at.cleaned nonce t (cleanup at.cleaned nc)
    swept = cleanup-Spent now at.cleaned t ttl nonce nc e (omega arith) spent

    later : Spent at.cleaned nonce t nc
    later = elim spent [
      | inl here ↦ inl here
      | inr old ↦ inr (
          rw e (
            older now at.cleaned t ttl (omega arith)
              (subst (λ x. exceeds (time_sub now t) x ≡ true) e old)))
    ]

    to :
        (nc' : NonceCache)
        → (verify k at secret skew nc c).0 ≡ nc'
        → Spent at.cleaned nonce t nc'
        → Spent at.cleaned nonce t (verify k at secret skew nc c).0
    to nc' s x = subst (Spent at.cleaned nonce t) (sym s) x

    from :
        Verified k at secret skew nc c (verify k at secret skew nc c)
        → Spent at.cleaned nonce t (verify k at secret skew nc c).0
    from (inl (_, s, (_, _, _, new, _))) = to _ s (stored-Spent at.cleaned t nonce nc c new swept)
    from (inr (inl (_, s, _))) = to _ s later
    from (inr (inr (inl (_, s, _)))) = to _ s later
    from (inr (inr (inr (inl (_, s, _))))) = to _ s later
    from (inr (inr (inr (inr (inl (_, s, _, _)))))) = to _ s swept
    from (inr (inr (inr (inr (inr (_, s, _, new, _)))))) =
        to _ s (stored-Spent at.cleaned t nonce nc c new swept)

-- A timestamp inside the window is not yet too old to be kept.
window-fresh :
    (verified cleaned t skew ttl delay : ℕ)
    → skew + delay ≤ ttl
    → ttl < max_i64
    → cleaned ≤ verified + delay
    → exceeds (time_diff verified t) (pos skew) ≡ false
    → exceeds (time_sub cleaned t) (pos ttl) ≡ false
window-fresh verified cleaned t skew ttl delay le bound near inside =
    elim (Bool-cases (exceeds (time_sub cleaned t) (pos ttl))) [
      | inr new ↦ new
      | inl old ↦ absurd (
          ground (
            arith,
            (exceeds-time_sub_iff cleaned t ttl).0 old,
            (time_diff_iff verified t skew (omega arith)).0 inside,
          ))
    ]

pub verify_replayed :
    (k : Crypto) (at : Reading) (secret : Text) (nc : NonceCache) (c : Command)
    → (now skew ttl delay : ℕ) → nc.ttl ≡ pos ttl
    → skew + delay ≤ ttl
    → ttl < max_i64
    → now ≤ at.verified
    → at.verified ≤ at.cleaned
    → at.cleaned ≤ at.verified + delay
    → Spent now c.nonce c.timestamp nc
    → (verify k at secret (pos skew) nc c).1 ≢ none
verify_replayed k at secret nc c now skew ttl delay e le bound a b d spent ok =
    let (_, _, inside, new, _) = (verify_iff k at secret (pos skew) nc c).0 ok in
    elim (cleanup-Spent now at.cleaned c.timestamp ttl c.nonce nc e (omega arith) spent) [
      | inl here ↦ absurd (cc)
      | inr old ↦ absurd (
          ground (
            arith,
            window-fresh at.verified at.cleaned c.timestamp skew ttl delay le bound d inside,
            subst (λ x. exceeds (time_sub at.cleaned c.timestamp) x ≡ true)
                (cleanup-ttl at.cleaned nc ∙ e) old,
          ))
    ]
