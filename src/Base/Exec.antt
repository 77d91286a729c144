-- ===== src/Base/Exec.antt =====
-- Code that changes a state and may return an error. What was changed before the error stays
-- changed, so the state comes back beside it.
use mathlib.Core.Option.{Option, none, some}
use mathlib.Core.Path.{◌≡◌, refl}
use mathlib.Core.Logic.{inl, inr}
use native.Mathlib.Omega.{arith}
use kube_green.Base.Errors.{Error, Result, ok, err, Result-cases}

abbrev pub Exec : Type 0 → Type 0 → Type 0
Exec S A = S → Result A × S

module _ {S A : Type 0} where
  abbrev pub pure : A → Exec S A
  pure a s = (ok a, s)

  abbrev pub raise : Error → Exec S A
  raise e s = (err e, s)

  abbrev pub lift : Result A → Exec S A
  lift r s = (r, s)

module _ {S : Type 0} where
  abbrev pub modify : (S → S) → Exec S (Unit {0})
  modify f s = (ok tt, f s)

  -- A call that returns just an error.
  abbrev pub check : Option Error → Exec S (Unit {0})
  check none s = (ok tt, s)
  check (some e) s = (err e, s)

module _ {S A B : Type 0} where
  -- With a result at hand, `if err != nil { return err }` and the rest.
  abbrev pub continue : Result A → (A → Exec S B) → Exec S B
  continue (err failed) rest state = (err failed, state)
  continue (ok value) rest state = rest value state

  infixl 5 ◌>>=◌ ◌>>◌
  abbrev pub ◌>>=◌ : Exec S A → (A → Exec S B) → Exec S B
  ◌>>=◌ call rest state = let (result, state') = call state in continue result rest state'

  abbrev pub ◌>>◌ : Exec S A → Exec S B → Exec S B
  call >> rest = call >>= (λ _. rest)

-- A sequence that succeeds has gone through its first part.
pub seq-ok :
    {S B : Type 0} (m : Exec S (Unit {0})) (n : Exec S B) (s : S) {b : B}
    → ((m >> n) s).0 ≡ ok b
    → ((m s).0 ≡ ok tt) × ((m >> n) s ≡ n (m s).1)
seq-ok m n s h = elim (Result-cases (m s).0) [
  | inl (tt, e) ↦ (e, rw e refl)
  | inr (failed, e) ↦ absurd (ground arith)
]
