-- ===== src/Queue/Key.antt =====
-- internal/queue/queue.go: the keys under which a stream's items are stored.
pub mod Laws
use mathlib.Core.Option
use linker_agent.Prelude.{
  ℕ, zero, suc, ◌+◌, ◌-◌, ◌*◌, ◌/◌, ◌%◌, Bool, ◌&&◌, ◌||◌, List, [], ◌∷◌, ◌++◌, Option, none, some,
  Text, ltb, leb, ◌==◌, if◌then◌else◌, u64,
}

-- The last `k` decimal digits of `n`, most significant first.
unfoldable pub digits : ℕ → ℕ → Text
digits zero n = []
digits (suc k) n = digits k (n / 10) ++ ((b'0' + n % 10) ∷ [])

-- `%020d`: a `uint64` has at most twenty digits.
unfoldable pub format_key : Text → ℕ → Text
format_key stream offset = stream ++ (b':' ∷ digits 20 offset)

prepend : ℕ → Text × Text → Text × Text
prepend c (l, r) = (c ∷ l, r)

-- `bytes.SplitN(key, ":", 2)`: the parts around the first colon, `none` for a single part.
pub split_colon : Text → Option (Text × Text)
unfolding prepend
split_colon [] = none
split_colon (c ∷ cs) = if c == b':' then some ([], cs) else Option.map (prepend c) (split_colon cs)

is_digit : ℕ → Bool
is_digit c = leb b'0' c && leb c b'9'

-- The white space of one byte that `Sscanf` skips before a number.
is_space : ℕ → Bool
is_space c = c == 32 || c == 9 || c == 11 || c == 12 || c == 13

skip_space : Text → Text
unfolding is_space
skip_space [] = []
skip_space (c ∷ cs) = if is_space c then skip_space cs else c ∷ cs

-- The number that the leading digits write, after the digits that made up `acc`.
value_from : ℕ → Text → ℕ
unfolding is_digit
value_from acc [] = acc
value_from acc (c ∷ cs) = if is_digit c then value_from (acc * 10 + (c - b'0')) cs else acc

-- `%d` into a `uint64`: at least one digit, and no overflow.
scan_number : Text → Option ℕ
unfolding value_from
scan_number [] = none
scan_number (c ∷ cs) =
    if is_digit c
    then (if ltb (value_from 0 (c ∷ cs)) u64 then some (value_from 0 (c ∷ cs)) else none)
    else none

-- `none` is an error: a key with no colon, or whose second part is no number.
pub parse_offset_from_key : Text → Option ℕ
unfolding split_colon skip_space scan_number
parse_offset_from_key key = elim (split_colon key) [
  | none ↦ none
  | some (l, r) ↦ scan_number (skip_space r)
]
