-- ===== src/Base/Errors.antt =====
-- Go errors as values. The kinds are those that the program tells apart: `apierrors.IsNotFound`,
-- `meta.IsNoMatchError`, and the sentinels that it wraps by `%w`.
use Prim.Native.String.{String, ◌++◌ as ◌<>◌}
use mathlib.Core.Path.{◌≡◌, refl}
use mathlib.Core.Bool.{Bool, true, false}
use mathlib.Core.Logic.{◌⊎◌, inl, inr}
use mathlib.Core.Option.{Option, none, some}

pub data Error : Type 0 where
  -- an API status error with reason NotFound
  not_found : String → Error
  -- `NoKindMatchError` of the REST mapper
  no_match : String → Error
  -- `ErrJSONPatch`, `ErrListResources` and `ErrInvalidClient`, with the text behind them
  json_patch list_resources invalid_client : String → Error
  failure : String → Error

abbrev pub message : Error → String
message (not_found s) = s
message (no_match s) = s
message (json_patch s) = "jsonpatch error: " <> s
message (list_resources s) = "list resources error: " <> s
message (invalid_client s) = "invalid client: " <> s
message (failure s) = s

abbrev pub is_not_found : Error → Bool
is_not_found (not_found s) = true
is_not_found _ = false

abbrev pub is_no_match : Error → Bool
is_no_match (no_match s) = true
is_no_match _ = false

-- `client.IgnoreNotFound`; a nil error is `none`.
abbrev pub ignore_not_found : Option Error → Option Error
ignore_not_found none = none
ignore_not_found (some (not_found s)) = none
ignore_not_found (some (no_match s)) = some (no_match s)
ignore_not_found (some (json_patch s)) = some (json_patch s)
ignore_not_found (some (list_resources s)) = some (list_resources s)
ignore_not_found (some (invalid_client s)) = some (invalid_client s)
ignore_not_found (some (failure s)) = some (failure s)

-- What a function with results `(v, err)` returns.
pub data Result {ℓ} (A : Type ℓ) : Type ℓ where
  ok : A → Result A
  err : Error → Result A

infixl 5 ◌>>=◌
abbrev pub ◌>>=◌ {ℓ κ} : {A : Type ℓ} {B : Type κ} → Result A → (A → Result B) → Result B
err failed >>= rest = err failed
ok value >>= rest = rest value

abbrev pub is_ok {ℓ} : {A : Type ℓ} → Result A → Bool
is_ok (ok a) = true
is_ok (err e) = false

-- `fmt.Errorf(format, err)` for a format that does not wrap, applied to the error's text.
abbrev pub annotate {ℓ} : {A : Type ℓ} → (String → Error) → Result A → Result A
annotate f (ok a) = ok a
annotate f (err e) = err (f (message e))

pub Result-cases {ℓ} :
    {A : Type ℓ} (r : Result A) → ((a : A) × (r ≡ ok a)) ⊎ ((e : Error) × (r ≡ err e))
Result-cases (ok a) = inl (a, refl)
Result-cases (err e) = inr (e, refl)

pub is_ok-eq-ok {ℓ} : {A : Type ℓ} (r : Result A) → is_ok r ≡ true → (a : A) × (r ≡ ok a)
is_ok-eq-ok (ok a) h = (a, refl)
is_ok-eq-ok (err e) h = cc
