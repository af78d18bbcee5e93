-- ===== src/Lru/Moves.antt =====
-- internal/store/lru.go: `remove` and `moveToFront` on the list that the pointers represent.
use mini_key_value_store.Prelude.{
  none, if_pos, if_neg, refl, sym, ap, ◌∙◌, List, [], ◌∷◌, ◌++◌, Fresh, Distinct, Distinct-append,
  Disjoint-cons, Member, erase, Member-split, subst, true, false,
}
use mini_key_value_store.Lru.{LruList, remove, move_to_front, points_to}
use mini_key_value_store.Lru.Seg.{first, last, Seg-split, last-Fresh}
use mini_key_value_store.Lru.Chain.{IsChain, push_front-IsChain}
use mini_key_value_store.Lru.Unlink.{remove-eq-unlink, unlink-IsChain}

module _ {K : Type 0} (dec : Discrete K) where
  remove-IsChain_at :
      (l : LruList K) (a : K) (ys zs : List K)
      → IsChain l (ys ++ a ∷ zs)
      → IsChain (remove dec l a) (ys ++ zs)
  remove-IsChain_at l a ys zs c =
      let (dy, dz, d) = Distinct-append ys (a ∷ zs) c.distinct in
      let (fy, d') = Disjoint-cons ys a zs d in
      let (sy, sz) = Seg-split l.links none none ys (a ∷ zs) c.seg in
      rw
        (remove-eq-unlink dec l a (last none ys) (first zs none) sz.0 sz.1
          (λ e. last-Fresh a a none ys fy e (cc) refl))
        (unlink-IsChain dec l a ys zs c)

  -- On pointers that represent a list, `remove` of an item of the list represents the list without
  -- it, in the same order.
  pub remove-IsChain :
      (l : LruList K) (a : K) (xs : List K)
      → IsChain l xs
      → Member a xs
      → IsChain (remove dec l a) (erase dec a xs)
  remove-IsChain l a xs c m =
      let (ys, zs, e, d) = Member-split dec a xs m in
      rw d (remove-IsChain_at l a ys zs (subst (IsChain l) e c))

  erase-not_member : (a : K) (xs : List K) → Distinct xs → Fresh a (erase dec a xs)
  erase-not_member a [] d = tt
  erase-not_member a (x ∷ xs) d = elim (dec a x) [
    | yes e ↦ rw (if_pos (dec a x) e) (rw e d.0)
    | no n ↦ rw (if_neg (dec a x) n) (n, erase-not_member a xs d.1)
  ]

  -- On pointers that represent a list, `move_to_front` of an item of the list represents the list
  -- with it at the front and the others in the same order.
  pub move_to_front-IsChain :
      (l : LruList K) (a : K) (xs : List K)
      → IsChain l xs
      → Member a xs
      → IsChain (move_to_front dec l a) (a ∷ erase dec a xs)
  unfolding move_to_front
  move_to_front-IsChain l a [] c m = absurd (m tt)
  move_to_front-IsChain l a (x ∷ xs) c m = elim (dec x a) [
    | yes e ↦
        let test = ap (λ h. points_to dec h a) c.head ∙ if_pos (dec x a) e true false in
        rw (test, if_pos (dec a x) (sym e)) (subst (λ y. IsChain l (y ∷ xs)) e c)
    | no n ↦
        let test = ap (λ h. points_to dec h a) c.head ∙ if_neg (dec x a) n true false in
        rw test (
          push_front-IsChain dec (remove dec l a) a (erase dec a (x ∷ xs))
            (remove-IsChain l a (x ∷ xs) c m) (erase-not_member a (x ∷ xs) c.distinct))
  ]
