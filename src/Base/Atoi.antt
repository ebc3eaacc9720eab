-- ===== src/Base/Atoi.antt =====
-- strconv.Atoi.
use commiter_cli.Base.Tests.{eqb, leb, if◌then◌else◌, ◌>>=◌}
use commiter_cli.Base.Int.{ℤ, pos, negsuc}
use commiter_cli.Base.Str.{Str}
use Prim.Native.Nat.{ℕ, zero, suc, ◌+◌, ◌-◌, ◌*◌}
use mathlib.Core.Bool.{Bool, ◌&&◌}
use mathlib.Core.Option.{Option, none, some}
use mathlib.Core.List.{[], ◌∷◌}

unfoldable pub digit : ℕ → Bool
digit c = leb b'0' c && leb c b'9'

digits_value : ℕ → Str → Option ℕ
digits_value n [] = some n
digits_value n (c ∷ s) =
    let rest = digits_value (n * 10 + (c - b'0')) s in if digit c then rest else none

abbrev max_int : ℕ
max_int = 9223372036854775807

unsigned : Str → Option ℕ
unsigned [] = none
unsigned (c ∷ s) = digits_value 0 (c ∷ s)

negative : ℕ → ℤ
negative zero = pos 0
negative (suc n) = negsuc n

-- strconv.Atoi, of an int of 64 bits: an optional sign and digits, none for what is out of range.
unfoldable pub atoi : Str → Option ℤ
unfolding unsigned digits_value digit negative
atoi [] = none
atoi (c ∷ s) =
    if eqb c b'-'
    then (unsigned s >>= λ n. if leb n (max_int + 1) then some (negative n) else none)
    else (unsigned (if eqb c b'+' then s else c ∷ s) >>= λ n.
        if leb n max_int then some (pos n) else none)
