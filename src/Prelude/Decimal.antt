-- ===== src/Prelude/Decimal.antt =====
-- `Display` of an unsigned integer.
use Prim.Native.Nat.{ℕ, zero, suc, ◌/◌, ◌%◌}
use Prim.Native.String.{String, ◌++◌}
use phase_golem.Prelude.Tests.{if◌then◌else◌, eqb, ltb}

abbrev digit : ℕ → String
digit d =
    if eqb d 0
    then "0"
    else if eqb d 1
    then "1"
    else if eqb d 2
    then "2"
    else if eqb d 3
    then "3"
    else if eqb d 4
    then "4"
    else if eqb d 5
    then "5"
    else if eqb d 6
    then "6"
    else if eqb d 7
    then "7"
    else if eqb d 8
    then "8"
    else "9"

-- A number has fewer digits than it counts, so the number itself is fuel enough.
digits_from : ℕ → ℕ → String
digits_from zero n = digit n
digits_from (suc fuel) n =
    let front = digits_from fuel (n / 10) in if ltb n 10 then digit n else front ++ digit (n % 10)

unfoldable pub decimal : ℕ → String
unfolding digits_from
decimal n = digits_from n n
