-- ===== src/Base/Text.antt =====
-- `strings.Split` at one character, `strings.Join`, and the `%d` of `fmt`.
pub mod Digits
use Prim.Native.Nat.{ℕ, zero, suc, ◌/◌, ◌%◌}
use Prim.Native.Char.{Char, code}
use Prim.Native.String.{String, ◌++◌ as ◌<>◌}
use mathlib.Core.List.{List, [], ◌∷◌}
use kube_green.Base.Tests.{nat_eq, if◌then◌else◌}
use kube_green.Base.Int.{ℤ, pos, negsuc}

-- A first character goes to the front of the first part.
abbrev pub onto_first : Char → List String → List String
onto_first c [] = (String.◌∷◌ c "") ∷ []
onto_first c (p ∷ ps) = (String.◌∷◌ c p) ∷ ps

unfoldable pub split : ℕ → String → List String
split sep String.[] = "" ∷ []
split sep (String.◌∷◌ c s) =
    let rest = split sep s in if nat_eq (code c) sep then "" ∷ rest else onto_first c rest

unfoldable pub join : String → List String → String
join sep [] = ""
join sep (p ∷ []) = p
join sep (p ∷ q ∷ ps) = p <> (sep <> join sep (q ∷ ps))

digit : ℕ → Char
digit zero = "0"
digit (suc zero) = "1"
digit (suc (suc zero)) = "2"
digit (suc (suc (suc zero))) = "3"
digit (suc (suc (suc (suc zero)))) = "4"
digit (suc (suc (suc (suc (suc zero))))) = "5"
digit (suc (suc (suc (suc (suc (suc zero)))))) = "6"
digit (suc (suc (suc (suc (suc (suc (suc zero))))))) = "7"
digit (suc (suc (suc (suc (suc (suc (suc (suc zero)))))))) = "8"
digit _ = "9"

-- The fuel bounds the number of digits, and the number itself is enough.
decimal_digits : ℕ → ℕ → String → String
unfolding digit
decimal_digits zero n shown = shown
decimal_digits (suc fuel) zero shown = shown
decimal_digits (suc fuel) (suc n) shown =
    decimal_digits fuel (suc n / 10) (String.◌∷◌ (digit (suc n % 10)) shown)

unfoldable pub decimal : ℤ → String
unfolding decimal_digits
decimal (pos zero) = "0"
decimal (pos (suc n)) = decimal_digits (suc n) (suc n) ""
decimal (negsuc n) = "-" <> decimal_digits (suc n) (suc n) ""
