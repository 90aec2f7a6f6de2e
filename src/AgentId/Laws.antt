-- ===== src/AgentId/Laws.antt =====
-- That the identifier is kept.
use mathlib.Core.List.{reverse, reverse-append}
use linker_agent.Prelude.{
  ℕ, ◌/◌, ◌%◌, ◌<◌, ◌≡◌, refl, sym, ap, ◌∙◌, subst, Bool, true, false, not, List, [], ◌∷◌, ◌++◌,
  map, Option, none, some, Text, codes, eq_text, has_prefix, has_prefix-append, if◌then◌else◌, leb,
  ◌&&◌, ◌||◌, length, after, spaces, trim_space-clean, arith,
}
use linker_agent.Crypto.{hex_digit, hex_encode}
use linker_agent.AgentId.{
  Result, ok, err, directory_failed, write_failed, System, generate, read, write, get_or_create,
}

-- A byte with which no white space ends.
abbrev IsPlain : ℕ → Type 0
IsPlain b = (32 < b) × (b < 128)

hex_digit-IsPlain : (n : ℕ) → n < 16 → IsPlain (hex_digit n)
unfolding hex_digit
hex_digit-IsPlain n lt = ground arith

-- The texts that begin with a byte of another kind.
abbrev all_outside : List Text → Bool
all_outside [] = true
all_outside ([] ∷ ss) = false
all_outside ((x ∷ s) ∷ ss) = (leb x 32 || leb 128 x) && all_outside ss

after_plain :
    (ss : List Text) (b : ℕ) (t : Text)
    → all_outside ss ≡ true
    → IsPlain b
    → after ss (b ∷ t) ≡ none
unfolding after has_prefix
after_plain [] b t outside plain = refl
after_plain ([] ∷ ss) b t outside plain = absurd (cc)
after_plain ((x ∷ s) ∷ ss) b t outside plain =
    ground (arith, outside, plain, after_plain ss b t (ground (arith, outside)) plain)

hex_encode-end :
    (b : ℕ) (bs : Text) → (t : Text) × (d : ℕ) × (hex_encode (b ∷ bs) ≡ t ++ d ∷ []) × IsPlain d
unfolding hex_encode
hex_encode-end b [] =
    (hex_digit (b / 16) ∷ [], hex_digit (b % 16), refl, hex_digit-IsPlain (b % 16) (omega arith))
hex_encode-end b (b' ∷ bs) =
    let (t, d, e, plain) = hex_encode-end b' bs in
    (
      hex_digit (b / 16) ∷ hex_digit (b % 16) ∷ t,
      d,
      ap (λ u. hex_digit (b / 16) ∷ hex_digit (b % 16) ∷ u) e,
      plain,
    )

-- An identifier that was made is read back as it is.
read-some :
    (b : ℕ) (bs : Text)
    → read (some (codes "agent_" ++ hex_encode (b ∷ bs)))
      ≡ some (codes "agent_" ++ hex_encode (b ∷ bs))
unfolding read eq_text
read-some b bs =
    let id = codes "agent_" ++ hex_encode (b ∷ bs) in
    let clean =
      trim_space-clean id (after_plain spaces 97 _ refl (omega arith, omega arith))
        (end (hex_encode-end b bs)) in
    rw clean (rw (has_prefix-append (codes "agent_") (hex_encode (b ∷ bs))) refl)
  where
    end :
        (t : Text) × (d : ℕ) × (hex_encode (b ∷ bs) ≡ t ++ d ∷ []) × IsPlain d
        → after (map reverse spaces) (reverse (codes "agent_" ++ hex_encode (b ∷ bs))) ≡ none
    end (t, d, e, plain) =
        subst (λ r. after (map reverse spaces) r ≡ none)
          (sym (
            ap (λ u. reverse (codes "agent_" ++ u)) e
            ∙ reverse-append (codes "agent_" ++ t) (d ∷ [])))
          (after_plain (map reverse spaces) d (reverse (codes "agent_" ++ t)) refl plain)

-- A result that has an identifier has it in the file.
abbrev Kept : Option Text × Result Text → Type 0
Kept (file, ok id) = read file ≡ some id
Kept (file, err e) = Unit

-- `rand.Read` fills the 16 bytes.
abbrev pub IsFull : Option Text → Type 0
IsFull none = Unit
IsFull (some bytes) = length bytes ≡ 16

get_found :
    (s : System) (file : Option Text) (id : Text)
    → read file ≡ some id
    → get_or_create s file ≡ (file, ok id)
unfolding get_or_create
get_found s file id found = ground (arith, found)

get_or_create-Kept :
    (s : System) (file : Option Text) → IsFull s.random → Kept (get_or_create s file)
unfolding get_or_create generate write
get_or_create-Kept s file full = found (read file) refl
  where
    written :
        (b : ℕ) (bs : Text) (makes writes : Bool)
        → Kept (
            let (file', r) : Option Text × Result (Unit {0}) =
              if not makes
              then (file, err directory_failed)
              else if not writes
              then (s.left, err write_failed)
              else (some (codes "agent_" ++ hex_encode (b ∷ bs)), ok tt) in
            (file', elim r [ err e ↦ err e | ok _ ↦ ok (codes "agent_" ++ hex_encode (b ∷ bs)) ]))
    written b bs false writes = tt
    written b bs true false = tt
    written b bs true true = read-some b bs

    made :
        (o : Option Text)
        → IsFull o
        → Kept (elim (generate o) [
          | err e ↦ (file, err e)
          | ok id ↦
              let (file', r) = write s file id in (file', elim r [ err e ↦ err e | ok _ ↦ ok id ])
        ])
    made none full = tt
    made (some []) full = absurd (omega (arith, full))
    made (some (b ∷ bs)) full = written b bs s.make_dir s.write

    found :
        (o : Option Text)
        → read file ≡ o
        → Kept (elim o [
          | some id ↦ (file, ok id)
          | none ↦ elim (generate s.random) [
            | err e ↦ (file, err e)
            | ok id ↦
                let (file', r) = write s file id in (file', elim r [ err e ↦ err e | ok _ ↦ ok id ])
          ]
        ])
    found (some id) e = e
    found none e = made s.random full

-- An identifier that was given once is given again, from the file as it is left and whatever the system does then,
-- provided that the random bytes are all there.
pub get_or_create-again :
    (s s' : System) (file file' : Option Text) (id : Text)
    → IsFull s.random
    → get_or_create s file ≡ (file', ok id)
    → get_or_create s' file' ≡ (file', ok id)
get_or_create-again s s' file file' id full e =
    get_found s' file' id (subst Kept e (get_or_create-Kept s file full))
