-- ===== src/Lru/Unlink.antt =====
-- internal/store/lru.go: what the pointer writes of `remove` do to the chain.
use mini_key_value_store.Prelude.{
  Option, none, some, ◌≡◌, ◌≢◌, refl, List, [], ◌∷◌, ◌++◌, Fresh, Distinct, Disjoint, arith, sym,
  ap, ◌∙◌, Distinct-append, append-Distinct, Disjoint-cons, append-Fresh,
}
use mathlib.Core.List.{append-nil}
use mini_key_value_store.Lru.{
  Link, LruList, write, remove, bypass_next, bypass_prev, set_next, set_prev,
}
use mini_key_value_store.Lru.Chain.{IsChain}
use mini_key_value_store.Lru.Seg.{
  first, last, last-some, Seg, last-append, Seg-split, Seg-join, last-Fresh, Seg-frame,
}

module _ {K : Type 0} (dec : Discrete K) where
  -- The links once the item before `a`, if any, skips `a`; and once the item behind it does.
  skip_next : (K → Link K) → Option K → Option K → K → Link K
  skip_next f none n = f
  skip_next f (some p) n = write dec f p (record (f p) { next = n })

  skip_prev : (K → Link K) → Option K → Option K → K → Link K
  skip_prev f none p = f
  skip_prev f (some n) p = write dec f n (record (f n) { prev = p })

  skip_next_other : (f : K → Link K) (q n : Option K) (y : K) → q ≢ some y → skip_next f q n y ≡ f y
  unfolding skip_next
  skip_next_other f none n y h = refl
  skip_next_other f (some p) n y h = ground arith

  Seg-skip_next :
      (f : K → Link K) (p n m : Option K) (y : K) (ys : List K)
      → Distinct (y ∷ ys)
      → Seg f p (y ∷ ys) m
      → Seg (skip_next f (last (some y) ys) n) p (y ∷ ys) n
  Seg-skip_next f p n m y [] d s = unfold skip_next in ground arith
  Seg-skip_next f p n m y (z ∷ zs) d s =
      let same =
        skip_next_other f (last (some z) zs) n y
          (λ e. last-Fresh y y none (z ∷ zs) d.0 e (cc) refl) in
      (
        ap (λ (k : Link K). k.prev) same ∙ s.0,
        ap (λ (k : Link K). k.next) same ∙ s.1,
        Seg-skip_next f (some y) n m z zs d.1 s.2,
      )

  Seg-skip_prev :
      (f : K → Link K) (p q n : Option K) (xs : List K)
      → Distinct xs
      → Seg f p xs n
      → Seg (skip_prev f (first xs none) q) q xs n
  unfolding skip_prev
  Seg-skip_prev f p q n [] d s = tt
  Seg-skip_prev f p q n (x ∷ xs) d s =
      (ground arith, ground arith, Seg-frame dec f x _ (some x) n xs d.0 s.2)

  skip_next-frame :
      (f : K → Link K) (p n m : Option K) (y : K) (ys zs : List K)
      → Disjoint (y ∷ ys) zs
      → Seg f p zs m
      → Seg (skip_next f (last (some y) ys) n) p zs m
  skip_next-frame f p n m y [] zs d s = unfold skip_next in Seg-frame dec f y _ p m zs d.0 s
  skip_next-frame f p n m y (w ∷ ws) zs d s = skip_next-frame f p n m w ws zs d.1 s

  skip_prev-frame :
      (f : K → Link K) (p q m : Option K) (ys zs : List K)
      → Disjoint ys zs
      → Seg f p ys m
      → Seg (skip_prev f (first zs none) q) p ys m
  unfolding skip_prev
  skip_prev-frame f p q m ys [] d s = s
  skip_prev-frame f p q m ys (z ∷ zs) d s = Seg-frame dec f z _ p m ys (Disjoint-cons ys z zs d).0 s

  -- What `remove` computes at an item whose fields are `p` and `n`.
  pub unlink : LruList K → K → Option K → Option K → LruList K
  unlink l a p n =
      set_next dec (set_prev dec (bypass_prev dec (bypass_next dec l p n) n p) a none) a none

  bypass_next-links :
      (l : LruList K) (a : K) (p n : Option K)
      → p ≢ some a
      → (bypass_next dec l p n).links a ≡ l.links a
  unfolding bypass_next
  bypass_next-links l a none n h = refl
  bypass_next-links l a (some q) n h = ground arith

  pub remove-eq-unlink :
      (l : LruList K) (a : K) (p n : Option K)
      → (l.links a).prev ≡ p
      → (l.links a).next ≡ n
      → p ≢ some a
      → remove dec l a ≡ unlink l a p n
  unfolding remove unlink
  remove-eq-unlink l a p n ep en h =
      let same = bypass_next-links l a p n h in
      let clear : LruList K → LruList K = λ m. set_next dec (set_prev dec m a none) a none in
      (λ i.
        let m = bypass_next dec l (ep i) (en i) in
        clear (bypass_prev dec m (m.links a).next (m.links a).prev))
      ∙ (λ i. clear (bypass_prev dec (bypass_next dec l p n) (same i).next (same i).prev))
      ∙ (λ i. clear (bypass_prev dec (bypass_next dec l p n) (en i) (ep i)))

  -- What `unlink` does to each part of the list.
  unlink-head :
      (l : LruList K) (a : K) (p n : Option K)
      → (unlink l a p n).head ≡ (elim p [ none ↦ n | some _ ↦ l.head ])
  unfolding unlink bypass_next bypass_prev
  unlink-head l a none none = refl
  unlink-head l a none (some m) = refl
  unlink-head l a (some q) none = refl
  unlink-head l a (some q) (some m) = refl

  unlink-tail :
      (l : LruList K) (a : K) (p n : Option K)
      → (unlink l a p n).tail ≡ (elim n [ none ↦ p | some _ ↦ l.tail ])
  unfolding unlink bypass_next bypass_prev
  unlink-tail l a none none = refl
  unlink-tail l a none (some m) = refl
  unlink-tail l a (some q) none = refl
  unlink-tail l a (some q) (some m) = refl

  -- The links with those of `a` cleared.
  cleared : (K → Link K) → K → K → Link K
  cleared f a =
      let g = write dec f a (record (f a) { prev = none }) in
      write dec g a (record (g a) { next = none })

  unlink-links :
      (l : LruList K) (a : K) (p n : Option K)
      → (unlink l a p n).links ≡ cleared (skip_prev (skip_next l.links p n) n p) a
  unfolding unlink cleared skip_prev skip_next bypass_next bypass_prev
  unlink-links l a none none = refl
  unlink-links l a none (some m) = refl
  unlink-links l a (some q) none = refl
  unlink-links l a (some q) (some m) = refl

  cleared-Seg :
      (f : K → Link K) (a : K) (p n : Option K) (xs : List K)
      → Fresh a xs
      → Seg f p xs n
      → Seg (cleared f a) p xs n
  unfolding cleared
  cleared-Seg f a p n xs fr s = Seg-frame dec _ a _ p n xs fr (Seg-frame dec f a _ p n xs fr s)

  -- Both parts around `a` are joined into one segment by the two skips.
  skip-Seg :
      (f : K → Link K) (ys zs : List K) (a : K)
      → Distinct ys
      → Distinct zs
      → Disjoint ys zs
      → Seg f none ys (some a)
      → Seg f (some a) zs none
      → Seg
          (skip_prev (skip_next f (last none ys) (first zs none)) (first zs none) (last none ys))
          none
          (ys ++ zs)
          none
  skip-Seg f [] zs a dy dz d sy sz = unfold skip_next in Seg-skip_prev f (some a) none none zs dz sz
  skip-Seg f (y ∷ ys) zs a dy dz d sy sz =
      let g = skip_next f (last (some y) ys) (first zs none) in
      Seg-join _ none none (y ∷ ys) zs
        (skip_prev-frame g none (last (some y) ys) (first zs none) (y ∷ ys) zs d
          (Seg-skip_next f none (first zs none) (some a) y ys dy sy))
        (Seg-skip_prev g (some a) (last (some y) ys) none zs dz
          (skip_next-frame f (some a) (first zs none) none y ys zs d sz))

  head_case :
      (l : LruList K) (a : K) (ys zs : List K)
      → l.head ≡ first (ys ++ a ∷ zs) none
      → (elim (last none ys) [ none ↦ first zs none | some _ ↦ l.head ]) ≡ first (ys ++ zs) none
  head_case l a [] zs e = refl
  head_case l a (y ∷ ys) zs e = let (t, s) = last-some y ys in rw s e

  tail_case :
      (l : LruList K) (a : K) (ys zs : List K)
      → l.tail ≡ last none (ys ++ a ∷ zs)
      → (elim (first zs none) [ none ↦ last none ys | some _ ↦ l.tail ]) ≡ last none (ys ++ zs)
  tail_case l a ys [] e = rw append-nil
  tail_case l a ys (z ∷ zs) e =
      e ∙ last-append none ys (a ∷ z ∷ zs) ∙ sym (last-append none ys (z ∷ zs))

  pub unlink-IsChain :
      (l : LruList K) (a : K) (ys zs : List K)
      → IsChain l (ys ++ a ∷ zs)
      → IsChain (unlink l a (last none ys) (first zs none)) (ys ++ zs)
  unlink-IsChain l a ys zs c =
      let (dy, dz, d) = Distinct-append ys (a ∷ zs) c.distinct in
      let (fy, d') = Disjoint-cons ys a zs d in
      let (sy, sz) = Seg-split l.links none none ys (a ∷ zs) c.seg in
      record {
        head = unlink-head l a (last none ys) (first zs none) ∙ head_case l a ys zs c.head;
        tail = unlink-tail l a (last none ys) (first zs none) ∙ tail_case l a ys zs c.tail;
        seg = rw unlink-links (
            cleared-Seg _ a none none (ys ++ zs) (append-Fresh a ys zs fy dz.0)
              (skip-Seg l.links ys zs a dy dz.1 d' sy sz.2));
        distinct = append-Distinct ys zs dy dz.1 d';
      }
