-- ===== src/Prelude/Lists.antt =====
-- Lists measured by native numbers, and predicates on lists by recursion.
use Prim.Native.Nat.{ℕ, suc, ◌+◌}
use mathlib.Core.Path.{◌≡◌, refl, sym, ap, ◌∙◌}
use mathlib.Core.Logic.{◌≢◌, ite, if_pos, if_neg}
use mathlib.Core.List.{List, [], ◌∷◌, ◌++◌}
use native.Mathlib.Omega.{arith}

module _ {ℓ} {A : Type ℓ} where
  abbrev pub length : List A → ℕ
  length [] = 0
  length (x ∷ xs) = suc (length xs)

  -- No member of the list is `a`.
  abbrev pub Fresh : A → List A → Type ℓ
  Fresh a [] = Unit
  Fresh a (x ∷ xs) = (a ≢ x) × Fresh a xs

  -- No member stands twice.
  abbrev pub Distinct : List A → Type ℓ
  Distinct [] = Unit
  Distinct (x ∷ xs) = Fresh x xs × Distinct xs

  pub length-append : (xs ys : List A) → length (xs ++ ys) ≡ length xs + length ys
  length-append [] ys = omega arith
  length-append (x ∷ xs) ys = omega (arith, length-append xs ys)

module _ {ℓ} {A : Type ℓ} where
  -- No member of the first list is a member of the second.
  abbrev pub Disjoint : List A → List A → Type ℓ
  Disjoint [] ys = Unit
  Disjoint (x ∷ xs) ys = Fresh x ys × Disjoint xs ys

  pub Fresh-append : (a : A) (xs ys : List A) → Fresh a (xs ++ ys) → Fresh a xs × Fresh a ys
  Fresh-append a [] ys h = (tt, h)
  Fresh-append a (x ∷ xs) ys h = let (l, r) = Fresh-append a xs ys h.1 in ((h.0, l), r)

  pub append-Fresh : (a : A) (xs ys : List A) → Fresh a xs → Fresh a ys → Fresh a (xs ++ ys)
  append-Fresh a [] ys l r = r
  append-Fresh a (x ∷ xs) ys l r = (l.0, append-Fresh a xs ys l.1 r)

  pub Distinct-append :
      (xs ys : List A) → Distinct (xs ++ ys) → Distinct xs × Distinct ys × Disjoint xs ys
  Distinct-append [] ys h = (tt, h, tt)
  Distinct-append (x ∷ xs) ys h =
      let (l, r, d) = Distinct-append xs ys h.1 in
      let (fl, fr) = Fresh-append x xs ys h.0 in ((fl, l), r, (fr, d))

  pub append-Distinct :
      (xs ys : List A) → Distinct xs → Distinct ys → Disjoint xs ys → Distinct (xs ++ ys)
  append-Distinct [] ys l r d = r
  append-Distinct (x ∷ xs) ys l r d =
      (append-Fresh x xs ys l.0 d.0, append-Distinct xs ys l.1 r d.1)

  pub Disjoint-cons :
      (xs : List A) (y : A) (ys : List A) → Disjoint xs (y ∷ ys) → Fresh y xs × Disjoint xs ys
  Disjoint-cons [] y ys d = (tt, tt)
  Disjoint-cons (x ∷ xs) y ys d =
      let (f, r) = Disjoint-cons xs y ys d.1 in (((λ e. d.0.0 (sym e)), f), (d.0.1, r))

module _ {ℓ} {A : Type ℓ} where
  -- `a` stands in the list.
  abbrev pub Member : A → List A → Type ℓ
  Member a xs = ¬ Fresh a xs

module _ {ℓ} {A : Type ℓ} (dec : Discrete A) where
  -- The list without the first occurrence of `a`.
  abbrev pub erase : A → List A → List A
  erase a [] = []
  erase a (x ∷ xs) = ite (dec a x) xs (x ∷ erase a xs)

  pub Member-split :
      (a : A) (xs : List A)
      → Member a xs
      → (ys : List A) × (zs : List A) × (xs ≡ ys ++ a ∷ zs) × (erase a xs ≡ ys ++ zs)
  Member-split a [] m = absurd (m tt)
  Member-split a (x ∷ xs) m = elim (dec a x) [
    | yes e ↦ ([], xs, ap (λ y. y ∷ xs) (sym e), if_pos (dec a x) e _ _)
    | no n ↦
        let (ys, zs, e, d) = Member-split a xs (λ f. m (n, f)) in
        (x ∷ ys, zs, ap (◌∷◌ x) e, if_neg (dec a x) n _ _ ∙ ap (◌∷◌ x) d)
  ]

  pub erase-Fresh : (a : A) (xs : List A) → Fresh a xs → erase a xs ≡ xs
  erase-Fresh a [] fr = refl
  erase-Fresh a (x ∷ xs) fr = if_neg (dec a x) fr.0 _ _ ∙ ap (◌∷◌ x) (erase-Fresh a xs fr.1)

module _ {ℓ κ} {A : Type ℓ} where
  abbrev pub All : (A → Type κ) → List A → Type κ
  All P [] = Unit
  All P (x ∷ xs) = P x × All P xs
