-- ===== src/Base/Distinctness.antt =====
-- Lists whose elements differ by what identifies them: a name, a printed target, a kind and a name.
use mathlib.Core.Path.{◌≡◌, ap, sym, ◌∙◌, subst}
use mathlib.Core.Logic.{◌≢◌, inl, inr}
use mathlib.Core.List.{List, [], ◌∷◌, ◌++◌, map}
use kube_green.Base.Lists.{In, All}

module _ {A B : Type 0} (f : A → B) where
  -- None is identified by `b`.
  abbrev pub Fresh : B → List A → Type 0
  Fresh b [] = Unit
  Fresh b (x ∷ xs) = (f x ≢ b) × Fresh b xs

  abbrev pub Distinct : List A → Type 0
  Distinct [] = Unit
  Distinct (x ∷ xs) = Fresh (f x) xs × Distinct xs

  pub Fresh-ne : (b : B) (a : A) (xs : List A) → Fresh b xs → In a xs → f a ≢ b
  Fresh-ne b a [] _ m = elim m [ ]
  Fresh-ne b a (x ∷ xs) (h, hs) (inl e) = λ same. h (ap f e ∙ same)
  Fresh-ne b a (x ∷ xs) (h, hs) (inr m) = Fresh-ne b a xs hs m

  pub All-Fresh : (b : B) (xs : List A) → Fresh b xs → All (λ x. f x ≢ b) xs
  All-Fresh b [] h = tt
  All-Fresh b (x ∷ xs) (h, hs) = (h, All-Fresh b xs hs)

  pub Fresh-append : (b : B) (xs ys : List A) → Fresh b (xs ++ ys) → Fresh b xs × Fresh b ys
  Fresh-append b [] ys h = (tt, h)
  Fresh-append b (x ∷ xs) ys (h, hs) =
      let (left, right) = Fresh-append b xs ys hs in ((h, left), right)

  cons_Fresh :
      (x : A) (xs ys : List A)
      → Fresh (f x) ys
      → All (λ y. Fresh (f y) xs) ys
      → All (λ y. Fresh (f y) (x ∷ xs)) ys
  cons_Fresh x xs [] fresh h = tt
  cons_Fresh x xs (y ∷ ys) (other, fresh) (h, hs) =
      (((λ e. other (sym e)), h), cons_Fresh x xs ys fresh hs)

  all_Fresh-nil : (ys : List A) → All (λ y. Fresh (f y) []) ys
  all_Fresh-nil [] = tt
  all_Fresh-nil (y ∷ ys) = (tt, all_Fresh-nil ys)

  -- Each part is distinct, and no part has what the other has.
  pub Distinct-append :
      (xs ys : List A)
      → Distinct (xs ++ ys)
      → Distinct xs × Distinct ys × All (λ x. Fresh (f x) ys) xs × All (λ y. Fresh (f y) xs) ys
  Distinct-append [] ys d = (tt, d, tt, all_Fresh-nil ys)
  Distinct-append (x ∷ xs) ys (fresh, d) =
      let (left, right) = Fresh-append (f x) xs ys fresh in
      let (dx, dy, first, second) = Distinct-append xs ys d in
      ((left, dx), dy, (right, first), cons_Fresh x xs ys right second)

module _ {A B C : Type 0} (f : B → C) (g : A → B) where
  pub map-Fresh : (c : C) (xs : List A) → Fresh (λ x. f (g x)) c xs → Fresh f c (map g xs)
  map-Fresh c [] h = tt
  map-Fresh c (x ∷ xs) (h, hs) = (h, map-Fresh c xs hs)

  pub Fresh-map : (c : C) (xs : List A) → Fresh f c (map g xs) → Fresh (λ x. f (g x)) c xs
  Fresh-map c [] h = tt
  Fresh-map c (x ∷ xs) (h, hs) = (h, Fresh-map c xs hs)

  map-Distinct : (xs : List A) → Distinct (λ x. f (g x)) xs → Distinct f (map g xs)
  map-Distinct [] d = tt
  map-Distinct (x ∷ xs) (fresh, d) = (map-Fresh (f (g x)) xs fresh, map-Distinct xs d)

  Distinct-map : (xs : List A) → Distinct f (map g xs) → Distinct (λ x. f (g x)) xs
  Distinct-map [] d = tt
  Distinct-map (x ∷ xs) (fresh, d) = (Fresh-map (f (g x)) xs fresh, Distinct-map xs d)

  -- It depends on nothing else of the elements.
  pub Distinct-same_map :
      (xs ys : List A)
      → map g xs ≡ map g ys
      → Distinct (λ x. f (g x)) xs
      → Distinct (λ x. f (g x)) ys
  Distinct-same_map xs ys same d = Distinct-map ys (subst (Distinct f) same (map-Distinct xs d))
