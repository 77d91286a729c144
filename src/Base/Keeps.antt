-- ===== src/Base/Keeps.antt =====
-- Predicates on a state that code with a state keeps, by a rule for each construct.
use kube_green.Base.Errors.{Error, Result, ok, err}
use kube_green.Base.Exec.{Exec, lift, check, continue, ◌>>=◌, ◌>>◌}
use mathlib.Core.Option.{Option, none, some}

module _ {S : Type 0} (P : S → Type 0) where
  abbrev pub Keeps : {A : Type 0} → Exec S A → Type 0
  Keeps call = (s : S) → P s → P (call s).1

  continue-Keeps :
      {A B : Type 0} (r : Result A) (rest : A → Exec S B)
      → ((a : A) → Keeps (rest a))
      → Keeps (continue r rest)
  continue-Keeps (ok a) rest h = h a
  continue-Keeps (err e) rest h = λ s hs. hs

  pub >>=-Keeps :
      {A B : Type 0} (call : Exec S A) (rest : A → Exec S B)
      → Keeps call
      → ((a : A) → Keeps (rest a))
      → Keeps (call >>= rest)
  >>=-Keeps call rest h k s hs = continue-Keeps (call s).0 rest k (call s).1 (h s hs)

  pub >>-Keeps :
      {A B : Type 0} (call : Exec S A) (rest : Exec S B)
      → Keeps call
      → Keeps rest
      → Keeps (call >> rest)
  >>-Keeps call rest h k = >>=-Keeps call (λ _. rest) h (λ _. k)

  -- A result is tried first, which changes nothing.
  pub lift-Keeps :
      {A B : Type 0} (r : Result A) (rest : A → Exec S B)
      → ((a : A) → Keeps (rest a))
      → Keeps (lift r >>= rest)
  lift-Keeps r rest h = continue-Keeps r rest h

  pub check-Keeps : (e : Option Error) → Keeps (check e)
  check-Keeps none s h = h
  check-Keeps (some e) s h = h
