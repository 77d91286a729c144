-- ===== src/Base/Text/Digits.antt =====
-- The digits that `%d` prints, read back.
use Prim.Native.Nat.{ℕ, zero, suc, ◌+◌, ◌-◌, ◌*◌, ◌/◌, ◌%◌, ◌<◌, ◌≤◌}
use Prim.Native.Char.{code}
use Prim.Native.String.{String, ◌++◌ as ◌<>◌}
use mathlib.Core.Path.{◌≡◌, refl, ◌∙◌, ap}
use mathlib.Core.Bool.{Bool, true, ◌&&◌}
use native.Mathlib.Omega.{arith}
use kube_green.Base.Tests.{leb}
use kube_green.Base.Int.{ℤ, pos, negsuc}
use kube_green.Base.Text.{digit, decimal_digits, decimal}

-- The number that decimal digits stand for, after the value of those before them.
abbrev read_digits : ℕ → String → ℕ
read_digits value String.[] = value
read_digits value (String.◌∷◌ c s) = read_digits (value * 10 + (code c - 48)) s

abbrev all_digits : String → Bool
all_digits String.[] = true
all_digits (String.◌∷◌ c s) = leb 48 (code c) && (leb (code c) 57 && all_digits s)

code-digit : (k : ℕ) → k < 10 → code (digit k) ≡ 48 + k
unfolding digit
code-digit zero h = refl
code-digit (suc zero) h = refl
code-digit (suc (suc zero)) h = refl
code-digit (suc (suc (suc zero))) h = refl
code-digit (suc (suc (suc (suc zero)))) h = refl
code-digit (suc (suc (suc (suc (suc zero))))) h = refl
code-digit (suc (suc (suc (suc (suc (suc zero)))))) h = refl
code-digit (suc (suc (suc (suc (suc (suc (suc zero))))))) h = refl
code-digit (suc (suc (suc (suc (suc (suc (suc (suc zero)))))))) h = refl
code-digit (suc (suc (suc (suc (suc (suc (suc (suc (suc zero))))))))) h = refl
code-digit (suc (suc (suc (suc (suc (suc (suc (suc (suc (suc k)))))))))) h =
    absurd (omega (arith, h))

read_digits-digit :
    (value k : ℕ) (shown : String)
    → k < 10
    → read_digits value (String.◌∷◌ (digit k) shown) ≡ read_digits (value * 10 + k) shown
read_digits-digit value k shown h = ap (λ m. read_digits m shown) (omega (arith, code-digit k h))

all_digits-digit :
    (k : ℕ) (shown : String)
    → k < 10
    → all_digits shown ≡ true
    → all_digits (String.◌∷◌ (digit k) shown) ≡ true
all_digits-digit k shown small h = rw (code-digit k small, h) (ground arith)

read_digits-decimal_digits :
    (fuel n : ℕ) (shown : String)
    → n ≤ fuel
    → read_digits 0 (decimal_digits fuel n shown) ≡ read_digits n shown
unfolding decimal_digits
read_digits-decimal_digits zero n shown h = ap (λ m. read_digits m shown) (omega arith)
read_digits-decimal_digits (suc fuel) zero shown h = refl
read_digits-decimal_digits (suc fuel) (suc n) shown h =
    read_digits-decimal_digits fuel (suc n / 10) (String.◌∷◌ (digit (suc n % 10)) shown)
      (omega arith)
    ∙ read_digits-digit (suc n / 10) (suc n % 10) shown (omega arith)
    ∙ ap (λ m. read_digits m shown) (omega arith)

all_digits-decimal_digits :
    (fuel n : ℕ) (shown : String)
    → all_digits shown ≡ true
    → all_digits (decimal_digits fuel n shown) ≡ true
unfolding decimal_digits
all_digits-decimal_digits zero n shown h = h
all_digits-decimal_digits (suc fuel) zero shown h = h
all_digits-decimal_digits (suc fuel) (suc n) shown h =
    all_digits-decimal_digits fuel (suc n / 10) (String.◌∷◌ (digit (suc n % 10)) shown)
      (all_digits-digit (suc n % 10) shown (omega arith) h)

abbrev signed : ℤ → String → String
signed (pos n) digits = digits
signed (negsuc n) digits = "-" <> digits

abbrev magnitude : ℤ → ℕ
magnitude (pos n) = n
magnitude (negsuc n) = suc n

-- The number is printed in full: its sign, and digits that are read back as its magnitude.
read_digits-decimal :
    (z : ℤ)
    → (digits : String) × (decimal z ≡ signed z digits)
      × (all_digits digits ≡ true)
      × (read_digits 0 digits ≡ magnitude z)
unfolding decimal
read_digits-decimal (pos zero) = ("0", refl, refl, refl)
read_digits-decimal (pos (suc n)) = (
  decimal_digits (suc n) (suc n) "",
  refl,
  all_digits-decimal_digits (suc n) (suc n) "" refl,
  read_digits-decimal_digits (suc n) (suc n) "" (omega arith),
)
read_digits-decimal (negsuc n) = (
  decimal_digits (suc n) (suc n) "",
  refl,
  all_digits-decimal_digits (suc n) (suc n) "" refl,
  read_digits-decimal_digits (suc n) (suc n) "" (omega arith),
)
