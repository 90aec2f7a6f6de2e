-- ===== src/Control/Laws/Signed.antt =====
-- Signing and verifying: the round trip, and what a forged command does to a signed one.
use linker_agent.Prelude.{
  ℕ, ◌≡◌, ◌≢◌, refl, sym, ◌∙◌, ap, true, false, not, [], none, some, Text, eq_text_refl, eq_text_ne,
  ℤ, lookup, lookup-here, lookup-keep, arith,
}
use linker_agent.Control.Clock.{time_diff, time_sub, exceeds}
use linker_agent.Control.{
  Command, Crypto, nonce_seen, NonceCache, Reading, is_fresh, cleanup, unsigned, verify_signature,
  verify, sign,
}
use linker_agent.Control.Laws.{stored, verify_accepted, verify_seen, verify_forged}

module _ (k : Crypto) (secret : Text) where
  -- The command with the signature of its bytes.
  abbrev pub signed : Command → Text → Command
  signed c bytes = record c { signature = k.encode_base64 (k.hmac secret bytes) }

  sign-signed :
      (c : Command) (bytes : Text)
      → secret ≢ []
      → k.marshal (unsigned c) ≡ some bytes
      → sign k secret c ≡ (signed c bytes, none)
  unfolding sign
  sign-signed c bytes s m = ground (arith, eq_text_ne secret [] s, m)

  verify_signature-signed :
      (c : Command) (bytes : Text)
      → k.marshal (unsigned c) ≡ some bytes
      → k.decode_base64 (k.encode_base64 (k.hmac secret bytes)) ≡ some (k.hmac secret bytes)
      → verify_signature k secret (signed c bytes) ≡ true
  unfolding verify_signature
  verify_signature-signed c bytes m d = ground (arith, m, d, eq_text_refl (k.hmac secret bytes))

  -- A command that can be marshalled is signed with a secret that is not empty, and what `Sign`
  -- gives is accepted by `Verify` inside the window with a nonce that the sweep does not leave in
  -- the cache. Base64 decodes what it encodes, and the encoding of a MAC is not empty.
  pub verify-sign :
      (at : Reading) (skew : ℤ) (nc : NonceCache) (c : Command) (bytes : Text)
      → ((bs : Text) → k.decode_base64 (k.encode_base64 bs) ≡ some bs)
      → ((key bs : Text) → k.encode_base64 (k.hmac key bs) ≢ [])
      → secret ≢ []
      → k.marshal (unsigned c) ≡ some bytes
      → exceeds (time_diff at.verified c.timestamp) skew ≡ false
      → lookup c.nonce (cleanup at.cleaned nc).cache ≡ none
      → ((sign k secret c).1 ≡ none) × ((verify k at secret skew nc (sign k secret c).0).1 ≡ none)
  verify-sign at skew nc c bytes d e s m w n = rw (sign-signed c bytes s m) (
    refl,
    ap (λ x. x.1)
        (verify_accepted k at secret skew nc (signed c bytes) (eq_text_ne secret [] s)
          (eq_text_ne (signed c bytes).signature [] (e secret bytes)) w n
          (verify_signature-signed c bytes m (d (k.hmac secret bytes)))),
  )

  stored-seen :
      (now now' : ℕ) (nc : NonceCache) (f : Command)
      → exceeds (time_sub now' f.timestamp) nc.ttl ≡ false
      → lookup f.nonce (cleanup now' (stored now nc f)).cache ≡ some f.timestamp
  unfolding cleanup is_fresh
  stored-seen now now' nc f young =
      lookup-keep (is_fresh nc.ttl now') f.nonce f.timestamp (stored now nc f).cache
        (lookup-here f.nonce f.timestamp (cleanup now nc).cache) (ap not young)

  -- A command with a wrong signature, in its window and with a nonce that the sweep does not leave
  -- in the cache, uses up that nonce: while its timestamp is young enough to be kept, any command
  -- in its window with that nonce is refused as a replay, the rightly signed one too. The secret
  -- and both signatures are not empty.
  pub verify_after_forged :
      (at at' : Reading) (skew : ℤ) (nc : NonceCache) (f c : Command)
      → secret ≢ []
      → f.signature ≢ []
      → c.signature ≢ []
      → f.nonce ≡ c.nonce
      → exceeds (time_diff at.verified f.timestamp) skew ≡ false
      → exceeds (time_diff at'.verified c.timestamp) skew ≡ false
      → exceeds (time_sub at'.cleaned f.timestamp) nc.ttl ≡ false
      → lookup f.nonce (cleanup at.cleaned nc).cache ≡ none
      → verify_signature k secret f ≡ false
      → (verify k at' secret skew (verify k at secret skew nc f).0 c).1 ≡ some nonce_seen
  verify_after_forged at at' skew nc f c s sf sc en wf wc young new forged =
      rw
        (verify_forged k at secret skew nc f (eq_text_ne secret [] s) (eq_text_ne f.signature [] sf)
          wf new forged)
        (ap (λ x. x.1)
          (verify_seen k at' secret skew (stored at.cleaned nc f) c f.timestamp
            (eq_text_ne secret [] s) (eq_text_ne c.signature [] sc) wc
            (ap (λ x. lookup x (cleanup at'.cleaned (stored at.cleaned nc f)).cache) (sym en)
              ∙ stored-seen at.cleaned at'.cleaned nc f young)))
