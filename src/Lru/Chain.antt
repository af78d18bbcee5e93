-- ===== src/Lru/Chain.antt =====
-- internal/store/lru.go: the list that the pointers represent, most recently used first, and
-- `pushFront`.
use mini_key_value_store.Prelude.{
  Option, none, some, ◌≡◌, ◌≢◌, refl, List, [], ◌∷◌, Fresh, Distinct, arith, sym, ap, ◌∙◌,
}
use mini_key_value_store.Lru.{Link, LruList, write, push_front}
use mini_key_value_store.Lru.Seg.{first, last, last-some, Seg, Seg-frame}

-- The list's two ends, and the links from one to the other, spell `xs`, no item twice.
pub record IsChain {K : Type 0} (l : LruList K) (xs : List K) : Type 0 where
  pub head : l.head ≡ first xs none
  pub tail : l.tail ≡ last none xs
  pub seg : Seg l.links none xs none
  pub distinct : Distinct xs

module _ {K : Type 0} (dec : Discrete K) where
  -- The links once `a` stands before `h`.
  link_front : (K → Link K) → K → K → K → Link K
  link_front f a h =
      let f1 = write dec f a (record (f a) { prev = none }) in
      let f2 = write dec f1 a (record (f1 a) { next = some h }) in
      write dec f2 h (record (f2 h) { prev = some a })

  link_front_at :
      (f : K → Link K) (a h : K)
      → a ≢ h
      → (link_front f a h a ≡ record { prev = none; next = some h })
        × (link_front f a h h ≡ record { prev = some a; next = (f h).next })
  unfolding link_front
  link_front_at f a h ne = (ground arith, ground arith)

  link_front-Seg :
      (f : K → Link K) (a h : K) (p n : Option K) (xs : List K)
      → Fresh a xs
      → Fresh h xs
      → Seg f p xs n
      → Seg (link_front f a h) p xs n
  unfolding link_front
  link_front-Seg f a h p n xs fa fh s =
      Seg-frame dec _ h _ p n xs fh
        (Seg-frame dec _ a _ p n xs fa (Seg-frame dec f a _ p n xs fa s))

  push_front-some :
      (l : LruList K) (a h t : K)
      → l.head ≡ some h
      → l.tail ≡ some t
      → push_front dec l a ≡ record { head = some a; tail = some t; links = link_front l.links a h }
  unfolding push_front link_front
  push_front-some l a h t eh et =
      ap (λ (m : LruList K). push_front dec m a)
        (λ i. record { head = eh i; tail = et i; links = l.links })

  -- On pointers that represent a list, `push_front` of an item that is not in it represents the
  -- list with the item at its front.
  pub push_front-IsChain :
      (l : LruList K) (a : K) (xs : List K)
      → IsChain l xs
      → Fresh a xs
      → IsChain (push_front dec l a) (a ∷ xs)
  push_front-IsChain l a [] c fr =
      unfold push_front in
      record { head = ground arith; tail = ground arith; seg = ground arith; distinct = (tt, tt) }
  push_front-IsChain l a (x ∷ xs) c fr =
      let (t, e) = last-some x xs in
      let (at_a, at_x) = link_front_at l.links a x fr.0 in
      rw (push_front-some l a x t c.head (c.tail ∙ e)) (record {
        head = refl;
        tail = sym e;
        seg = (
          ap (λ (k : Link K). k.prev) at_a,
          ap (λ (k : Link K). k.next) at_a,
          (
            ap (λ (k : Link K). k.prev) at_x,
            ap (λ (k : Link K). k.next) at_x ∙ c.seg.1,
            link_front-Seg l.links a x (some x) none xs fr.1 c.distinct.0 c.seg.2,
          ),
        );
        distinct = (fr, c.distinct);
      })
