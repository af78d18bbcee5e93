-- ===== src/Lru/Seg.antt =====
-- Segments of the linked list: the items `xs` in order, linked one to the next, entered from
-- `p` and left towards `n`.
use mini_key_value_store.Prelude.{
  Option, some, ◌≡◌, ◌≢◌, refl, sym, ◌∙◌, List, [], ◌∷◌, ◌++◌, Fresh, arith,
}
use mini_key_value_store.Lru.{Link, write}

module _ {K : Type 0} where
  abbrev pub first : List K → Option K → Option K
  first [] n = n
  first (x ∷ xs) n = some x

  abbrev pub last : Option K → List K → Option K
  last p [] = p
  last p (x ∷ xs) = last (some x) xs

  abbrev pub Seg : (K → Link K) → Option K → List K → Option K → Type 0
  Seg f p [] n = Unit
  Seg f p (x ∷ xs) n = ((f x).prev ≡ p) × ((f x).next ≡ first xs n) × Seg f (some x) xs n

  pub first-append : (xs ys : List K) (n : Option K) → first (xs ++ ys) n ≡ first xs (first ys n)
  first-append [] ys n = refl
  first-append (x ∷ xs) ys n = refl

  pub last-append : (p : Option K) (xs ys : List K) → last p (xs ++ ys) ≡ last (last p xs) ys
  last-append p [] ys = refl
  last-append p (x ∷ xs) ys = last-append (some x) xs ys

  -- A segment is cut at any place, and two segments that fit are joined.
  pub Seg-split :
      (f : K → Link K) (p n : Option K) (xs ys : List K)
      → Seg f p (xs ++ ys) n
      → Seg f p xs (first ys n) × Seg f (last p xs) ys n
  Seg-split f p n [] ys s = (tt, s)
  Seg-split f p n (x ∷ xs) ys s =
      let (l, r) = Seg-split f (some x) n xs ys s.2 in ((s.0, s.1 ∙ first-append xs ys n, l), r)

  pub Seg-join :
      (f : K → Link K) (p n : Option K) (xs ys : List K)
      → Seg f p xs (first ys n)
      → Seg f (last p xs) ys n
      → Seg f p (xs ++ ys) n
  Seg-join f p n [] ys l r = r
  Seg-join f p n (x ∷ xs) ys l r =
      (l.0, l.1 ∙ sym (first-append xs ys n), Seg-join f (some x) n xs ys l.2 r)

  -- The last item of a list that avoids `a` is not `a`.
  pub last-Fresh :
      (a q : K) (p : Option K) (xs : List K) → Fresh a xs → last p xs ≡ some q → p ≢ some a → a ≢ q
  last-Fresh a q p [] fr e h = λ d. h (ground arith)
  last-Fresh a q p (x ∷ xs) fr e h = last-Fresh a q (some x) xs fr.1 e (λ d. fr.0 (cc))

  pub last-some : (x : K) (xs : List K) → (t : K) × (last (some x) xs ≡ some t)
  last-some x [] = (x, refl)
  last-some x (y ∷ ys) = last-some y ys

module _ {K : Type 0} (dec : Discrete K) where
  -- A write outside a segment leaves it as it is.
  pub Seg-frame :
      (f : K → Link K) (a : K) (v : Link K) (p n : Option K) (xs : List K)
      → Fresh a xs
      → Seg f p xs n
      → Seg (write dec f a v) p xs n
  Seg-frame f a v p n [] fr s = tt
  Seg-frame f a v p n (x ∷ xs) fr s =
      (ground arith, ground arith, Seg-frame f a v (some x) n xs fr.1 s.2)
