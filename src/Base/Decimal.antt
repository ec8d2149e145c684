-- ===== src/Base/Decimal.antt =====
-- Decimal text of a number, as f-strings write it.
use Prim.Native.Nat.{ℕ, zero, suc, ◌+◌, ◌/◌, ◌%◌}
use Prim.Native.String.{String, ◌++◌ as ◌<>◌}
use immich_doctor.Base.Tests.{ltb, ◌==◌, nat_eq, if◌then◌else◌}

digit : ℕ → String
digit n =
    if n == 0
    then "0"
    else if n == 1
    then "1"
    else if n == 2
    then "2"
    else if n == 3
    then "3"
    else if n == 4
    then "4"
    else if n == 5
    then "5"
    else if n == 6
    then "6"
    else if n == 7
    then "7"
    else if n == 8
    then "8"
    else "9"

-- Each round divides by ten, so a number has fewer digits than its successor has units.
decimal_rounds : ℕ → ℕ → String
decimal_rounds zero n = ""
decimal_rounds (suc f) n =
    let front = decimal_rounds f (n / 10) in if ltb n 10 then digit n else front <> digit (n % 10)

unfoldable pub decimal : ℕ → String
unfolding digit decimal_rounds
decimal n = decimal_rounds (n + 1) n
