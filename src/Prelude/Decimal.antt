-- ===== src/Prelude/Decimal.antt =====
-- A number in decimal, as `${n}` prints it.
use Prim.Native.Nat.{ℕ, zero, suc, ◌/◌, ◌%◌}
use Prim.Native.String
use Prim.Native.String.{String, char_at}
use urateam.Prelude.Tests.{ltb, if◌then◌else◌}

abbrev pub digit : ℕ → String
digit n = String.◌∷◌ (char_at "0123456789" n) ""

-- The last digits of `n`, before those that are written already.
unfoldable pub show_from : ℕ → ℕ → String → String
show_from zero n rest = rest
show_from (suc fuel) n rest =
    let more = show_from fuel (n / 10) (String.◌++◌ (digit (n % 10)) rest) in
    if ltb n 10 then String.◌++◌ (digit n) rest else more

-- A number has no more digits than its value, and one.
unfoldable pub show : ℕ → String
unfolding show_from
show n = show_from (suc n) n ""
