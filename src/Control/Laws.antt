-- ===== src/Control/Laws.antt =====
-- What a command needs to be accepted, and what acceptance of a signed command rests on.
pub mod Handle
pub mod Replay
pub mod Runs
pub mod Signed
use linker_agent.Prelude.{
  ℕ, ◌+◌, ◌≤◌, ◌<◌, ◌≡◌, ◌≢◌, refl, sym, ◌∙◌, ap, subst, ◌⊎◌, inl, inr, ◌↔◌, Bool, true, false, not,
  List, [], ◌∷◌, Option, none, some, Option-cases, Bool-cases, Text, eq_text, eq_text_refl,
  eq_text_ne, eq_text→eq, if◌then◌else◌, ℤ, pos, lookup, keep, arith,
}
use linker_agent.Control.Clock.{time_diff, exceeds}
use linker_agent.Control.{
  Command, Crypto, Error, secret_empty, signature_missing, outside_window, nonce_seen,
  bad_signature, NonceCache, Reading, cleanup, check_and_store, unsigned, verify_signature, verify,
  sign,
}

-- The cache after a new nonce is stored.
abbrev pub stored : ℕ → NonceCache → Command → NonceCache
stored now nc c = record (cleanup now nc) {
  cache = (c.nonce, c.timestamp) ∷ (cleanup now nc).cache;
}

pub check_and_store_new :
    (now : ℕ) (nc : NonceCache) (c : Command)
    → lookup c.nonce (cleanup now nc).cache ≡ none
    → check_and_store now nc c.nonce c.timestamp ≡ (stored now nc c, true)
unfolding check_and_store
check_and_store_new now nc c new = ground (arith, new)

pub check_and_store_seen :
    (now : ℕ) (nc : NonceCache) (c : Command) (t : ℕ)
    → lookup c.nonce (cleanup now nc).cache ≡ some t
    → check_and_store now nc c.nonce c.timestamp ≡ (cleanup now nc, false)
unfolding check_and_store
check_and_store_seen now nc c t seen = ground (arith, seen)

module _ (k : Crypto) (at : Reading) (secret : Text) (skew : ℤ) (nc : NonceCache)
    (c : Command) where
  -- What holds of a command that is accepted.
  abbrev pub IsAccepted : Type 0
  IsAccepted =
      (secret ≢ [])
      × (c.signature ≢ [])
      × (exceeds (time_diff at.verified c.timestamp) skew ≡ false)
      × (lookup c.nonce (cleanup at.cleaned nc).cache ≡ none)
      × (verify_signature k secret c ≡ true)

  -- The outcomes of `Verify`: an acceptance stores the nonce. A refusal leaves the cache, or sweeps it,
  -- or, when only the signature is wrong, stores the nonce all the same.
  abbrev pub Verified : NonceCache × Option Error → Type 0
  Verified (nc', r) =
      ((r ≡ none) × (nc' ≡ stored at.cleaned nc c) × IsAccepted)
      ⊎ ((r ≡ some secret_empty) × (nc' ≡ nc) × (secret ≡ []))
      ⊎ ((r ≡ some signature_missing) × (nc' ≡ nc) × (c.signature ≡ []))
      ⊎ ((r ≡ some outside_window)
          × (nc' ≡ nc)
          × (exceeds (time_diff at.verified c.timestamp) skew ≡ true))
      ⊎ ((r ≡ some nonce_seen)
          × (nc' ≡ cleanup at.cleaned nc)
          × (exceeds (time_diff at.verified c.timestamp) skew ≡ false)
          × ((t : ℕ) × (lookup c.nonce (cleanup at.cleaned nc).cache ≡ some t)))
      ⊎ ((r ≡ some bad_signature)
          × (nc' ≡ stored at.cleaned nc c)
          × (exceeds (time_diff at.verified c.timestamp) skew ≡ false)
          × (lookup c.nonce (cleanup at.cleaned nc).cache ≡ none)
          × (verify_signature k secret c ≡ false))

  verify_no_secret :
      eq_text secret [] ≡ true → verify k at secret skew nc c ≡ (nc, some secret_empty)
  unfolding verify
  verify_no_secret a = rw a refl

  verify_unsigned :
      eq_text secret [] ≡ false
      → eq_text c.signature [] ≡ true
      → verify k at secret skew nc c ≡ (nc, some signature_missing)
  unfolding verify
  verify_unsigned a b = ground (arith, a, b)

  verify_outside :
      eq_text secret [] ≡ false
      → eq_text c.signature [] ≡ false
      → exceeds (time_diff at.verified c.timestamp) skew ≡ true
      → verify k at secret skew nc c ≡ (nc, some outside_window)
  unfolding verify
  verify_outside a b w = ground (arith, a, b, w)

  pub verify_seen :
      (t : ℕ)
      → eq_text secret [] ≡ false
      → eq_text c.signature [] ≡ false
      → exceeds (time_diff at.verified c.timestamp) skew ≡ false
      → lookup c.nonce (cleanup at.cleaned nc).cache ≡ some t
      → verify k at secret skew nc c ≡ (cleanup at.cleaned nc, some nonce_seen)
  unfolding verify
  verify_seen t a b w s = ground (arith, a, b, w, check_and_store_seen at.cleaned nc c t s)

  pub verify_forged :
      eq_text secret [] ≡ false
      → eq_text c.signature [] ≡ false
      → exceeds (time_diff at.verified c.timestamp) skew ≡ false
      → lookup c.nonce (cleanup at.cleaned nc).cache ≡ none
      → verify_signature k secret c ≡ false
      → verify k at secret skew nc c ≡ (stored at.cleaned nc c, some bad_signature)
  unfolding verify
  verify_forged a b w n v = ground (arith, a, b, w, v, check_and_store_new at.cleaned nc c n)

  pub verify_accepted :
      eq_text secret [] ≡ false
      → eq_text c.signature [] ≡ false
      → exceeds (time_diff at.verified c.timestamp) skew ≡ false
      → lookup c.nonce (cleanup at.cleaned nc).cache ≡ none
      → verify_signature k secret c ≡ true
      → verify k at secret skew nc c ≡ (stored at.cleaned nc c, none)
  unfolding verify
  verify_accepted a b w n v = ground (arith, a, b, w, v, check_and_store_new at.cleaned nc c n)

  not_empty : (t : Text) → eq_text t [] ≡ false → t ≢ []
  not_empty t h e = ground (arith, subst (λ s. eq_text s [] ≡ false) e h, eq_text_refl [])

  -- The outcomes of `Verify`: a command is accepted, and its nonce stored, or is refused for one
  -- of five reasons, which then holds: an empty secret, no signature or a timestamp outside of the
  -- window, which leave the cache; a nonce that was seen, which only sweeps the cache; or a wrong
  -- signature, which stores the nonce all the same.
  pub verify_lem : Verified (verify k at secret skew nc c)
  verify_lem = elim (Bool-cases (eq_text secret [])) [
    | inl a ↦ rw (verify_no_secret a) (inr (inl (refl, refl, eq_text→eq secret [] a)))
    | inr a ↦ elim (Bool-cases (eq_text c.signature [])) [
      | inl b ↦ rw (verify_unsigned a b) (inr (inr (inl (refl, refl, eq_text→eq c.signature [] b))))
      | inr b ↦ elim (Bool-cases (exceeds (time_diff at.verified c.timestamp) skew)) [
        | inl w ↦ rw (verify_outside a b w) (inr (inr (inr (inl (refl, refl, w)))))
        | inr w ↦ elim (Option-cases (lookup c.nonce (cleanup at.cleaned nc).cache)) [
          | inr (t, s) ↦
              rw (verify_seen t a b w s) (inr (inr (inr (inr (inl (refl, refl, w, (t, s)))))))
          | inl n ↦ elim (Bool-cases (verify_signature k secret c)) [
            | inr v ↦
                rw (verify_forged a b w n v) (inr (inr (inr (inr (inr (refl, refl, w, n, v))))))
            | inl v ↦
                rw (verify_accepted a b w n v)
                  (inl (refl, refl, (not_empty secret a, not_empty c.signature b, w, n, v)))
          ]
        ]
      ]
    ]
  ]

  -- `Verify` gives no error exactly if the secret and the signature are not empty, the timestamp
  -- is inside the window, the nonce is not among those that the sweep keeps, and the signature
  -- verifies.
  pub verify_iff : ((verify k at secret skew nc c).1 ≡ none) ↔ IsAccepted
  verify_iff = (accepted verify_lem, good)
    where
      accepted :
          Verified (verify k at secret skew nc c)
          → (verify k at secret skew nc c).1 ≡ none
          → IsAccepted
      accepted (inl (_, _, all)) e = all
      accepted (inr (inl (r, _, _))) e = absurd (cc)
      accepted (inr (inr (inl (r, _, _)))) e = absurd (cc)
      accepted (inr (inr (inr (inl (r, _, _))))) e = absurd (cc)
      accepted (inr (inr (inr (inr (inl (r, _, _, _)))))) e = absurd (cc)
      accepted (inr (inr (inr (inr (inr (r, _, _, _, _)))))) e = absurd (cc)

      good : IsAccepted → (verify k at secret skew nc c).1 ≡ none
      good (a, b, w, n, v) =
          rw (verify_accepted (eq_text_ne secret [] a) (eq_text_ne c.signature [] b) w n v) refl
