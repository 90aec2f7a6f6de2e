-- ===== src/Prelude/Decimal.antt =====
-- `%d` and `strconv.FormatInt` for numbers below 10 ^ 20.
use Prim.Native.Nat.{ℕ, zero, suc, ◌+◌, ◌/◌, ◌%◌}
use mathlib.Core.List.{[], ◌∷◌, ◌++◌}
use linker_agent.Prelude.Compare.{ltb, if◌then◌else◌}
use linker_agent.Prelude.Word.{ℤ, pos, negsuc}
use linker_agent.Prelude.Bytes.{Text}

unfoldable pub show_from : (digits : ℕ) → ℕ → Text
show_from zero n = []
show_from (suc k) n =
    let rest = show_from k (n / 10) in
    if ltb n 10 then (b'0' + n) ∷ [] else rest ++ (b'0' + n % 10) ∷ []

abbrev pub show_ℕ : ℕ → Text
show_ℕ n = show_from 20 n

abbrev pub show_ℤ : ℤ → Text
show_ℤ (pos n) = show_ℕ n
show_ℤ (negsuc n) = b'-' ∷ show_ℕ (n + 1)
