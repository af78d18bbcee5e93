-- ===== src/Shard/Room.antt =====
-- internal/store/shard.go: the room that `set` makes, on the represented list.

pub mod Update
use mini_key_value_store.Prelude.{
  ℕ, ◌+◌, ◌-◌, ◌≤◌, Option, none, some, Bytes, Bool, true, false, ◌≡◌, refl, ap, sym, ◌∙◌, arith,
  Distinct, Bool-cases, inl, inr, ltb, ltb→lt, ltb_false→le, le→leb, lt→leb_false, if◌then◌else◌,
}
use mini_key_value_store.Item.{StoredItem, ok, err, memory_limit_exceeded, expired}
use mini_key_value_store.Recency.{Items, names, find, drop, total, keep, live, room}
use mini_key_value_store.Recency.Laws.{total-drop, drop_absent}
use mini_key_value_store.Recency.Live.{drop-live, find-live, live_timeless}
use mini_key_value_store.Recency.Keep.{keep_all, total-keep}
use mini_key_value_store.Shard.{Shard, item_at, remove_expired_locked}
use mini_key_value_store.Shard.Methods.{projection, evict_room, size_of, set_room, update_room}
use mini_key_value_store.Shard.Repr.{Limits, Repr}
use mini_key_value_store.Shard.Sweep.{remove_expired_locked-Repr}
use mini_key_value_store.Shard.Evict.{evict_until_fits_locked-Repr}

module _ (lim : Limits) (key : Bytes) (size : ℕ) where
  -- The projected memory is that of the other items and the new size: the subtraction is exact.
  pub projection-eq :
      (sh : Shard) (es : Items) (old : Option StoredItem)
      → Repr lim sh es
      → find key es ≡ old
      → projection sh (size_of old) size ≡ total (drop key es) + size
  projection-eq sh es none r f = omega (arith, r.memory, ap total (drop_absent key es f))
  projection-eq sh es (some e) r f = omega (arith, r.memory, total-drop key es e f)

  -- What is known of the shard once room is made: `es` were the items, `rest` are the others now.
  pub record HasRoom (es rest : Items) (res : Shard × ℕ × Bool) (es' : Items) : Type 0 where
    pub repr : Repr lim res.0 es'
    pub same : find key es' ≡ find key es
    pub others : drop key es' ≡ rest
    pub exact : res.1 ≡ total rest + size
    pub within : res.1 ≤ lim.max_memory
    pub fits : res.2 ≡ true

  evict_room-HasRoom :
      (sh : Shard) (es : Items) (old : Option StoredItem)
      → Repr lim sh es
      → size ≤ lim.max_memory
      → find key es ≡ old
      → (es' : Items) × HasRoom es
          (keep (lim.max_memory - size) (drop key es))
          (evict_room key size (size_of old) sh)
          es'
  unfolding evict_room
  evict_room-HasRoom sh es old r s f =
      let p = projection-eq sh es old r f in
      elim (Bool-cases (ltb sh.max_memory_bytes (projection sh (size_of old) size))) [
        | inl t ↦
            let (es', r', e, success) = evict_until_fits_locked-Repr lim key size _ sh es r s p in
            let q = projection-eq _ es' old r' (e.same ∙ f) in
            let kept = total-keep (lim.max_memory - size) (drop key es) in
            let exact = q ∙ ap (λ xs. total xs + size) e.kept in
            (
              es',
              rw (t, evict_room)
                  (record {
                    repr = r';
                    same = e.same;
                    others = e.kept;
                    exact = exact;
                    within = omega (arith, exact, kept);
                    fits = success;
                  }),
            )
        | inr t ↦
            let le = ltb_false→le _ _ t in
            let all =
              keep_all (lim.max_memory - size) (drop key es)
                (omega (arith, le, p, r.memory_limit)) in
            (
              es,
              rw (t, evict_room)
                  (record {
                    repr = r;
                    same = refl;
                    others = sym all;
                    exact = p ∙ ap (λ xs. total xs + size) (sym all);
                    within = omega (arith, le, r.memory_limit);
                    fits = refl;
                  }),
            )
      ]

  HasRoom-cast :
      {es0 es rest0 rest es' : Items} {res : Shard × ℕ × Bool}
      → find key es0 ≡ find key es
      → rest0 ≡ rest
      → HasRoom es0 rest0 res es'
      → HasRoom es rest res es'
  HasRoom-cast p q h = record {
    repr = h.repr;
    same = h.same ∙ p;
    others = h.others ∙ q;
    exact = h.exact ∙ ap (λ xs. total xs + size) q;
    within = h.within;
    fits = h.fits;
  }

-- An item in place has not expired.
abbrev pub IsLive : ℕ → Option StoredItem → Type 0
IsLive now none = Unit
IsLive now (some e) = expired e now ≡ false

pub find-live_same :
    (now : ℕ) (key : Bytes) (es : Items) (old : Option StoredItem)
    → Distinct (names es)
    → find key es ≡ old
    → IsLive now old
    → find key (live now es) ≡ old
find-live_same now key es none d f l = find-live now key es d ∙ (rw f)
find-live_same now key es (some e) d f l = find-live now key es d ∙ (rw (f, l))

module _ (lim : Limits) (now : ℕ) (key : Bytes) (size : ℕ) where
  -- `set` makes room above the limit: it sweeps if an item can expire, and evicts.
  over-HasRoom :
      (sh : Shard) (es : Items) (old : Option StoredItem)
      → Repr lim sh es
      → size ≤ lim.max_memory
      → find key es ≡ old
      → IsLive now old
      → ltb sh.max_memory_bytes (projection sh (size_of old) size) ≡ true
      → (es' : Items) × HasRoom lim key size es
          (keep (lim.max_memory - size) (live now (drop key es)))
          (set_room now key size (size_of old) sh)
          es'
  unfolding set_room
  over-HasRoom sh es old r s f l t = elim (Bool-cases (ltb 0 sh.ttl_count)) [
    | inl c ↦
        let d = r.chain.distinct in
        let same = find-live_same now key es old d f l in
        let r' = remove_expired_locked-Repr lim now sh es r in
        let (es', h) =
          evict_room-HasRoom lim key size (remove_expired_locked now sh) (live now es)
            (item_at (remove_expired_locked now sh) key) r' s (sym (r'.found key)) in
        let rest = ap (keep (lim.max_memory - size)) (drop-live now key es d) in
        rw (t, set_room, c) (es', HasRoom-cast lim key size (same ∙ sym f) rest h)
    | inr c ↦
        let none_timed = live_timeless now es (omega (arith, ltb_false→le _ _ c, r.ttl)) in
        let (es', h) = evict_room-HasRoom lim key size sh es old r s f in
        let others = ap (drop key) (sym none_timed) ∙ drop-live now key es r.chain.distinct in
        let rest = ap (keep (lim.max_memory - size)) others in
        rw (t, set_room, c) (es', HasRoom-cast lim key size refl rest h)
  ]

  -- `set` makes room for any size within the limit, and leaves of the other items what `room`
  -- says.
  pub set_room-HasRoom :
      (sh : Shard) (es : Items) (old : Option StoredItem)
      → Repr lim sh es
      → size ≤ lim.max_memory
      → find key es ≡ old
      → IsLive now old
      → (es' : Items) × HasRoom lim key size es
          (room now lim.max_memory size (drop key es))
          (set_room now key size (size_of old) sh)
          es'
  unfolding set_room room
  set_room-HasRoom sh es old r s f l =
      let p = projection-eq lim key size sh es old r f in
      elim (Bool-cases (ltb sh.max_memory_bytes (projection sh (size_of old) size))) [
        | inr t ↦
            let le = ltb_false→le _ _ t in
            let all =
              le→leb (total (drop key es) + size) lim.max_memory
                (omega (arith, le, p, r.memory_limit)) in
            rw (t, set_room, all, room)
              (
                es,
                record {
                  repr = r;
                  same = refl;
                  others = refl;
                  exact = p;
                  within = omega (arith, le, r.memory_limit);
                  fits = refl;
                },
              )
        | inl t ↦
            let lt = ltb→lt _ _ t in
            let over =
              lt→leb_false lim.max_memory (total (drop key es) + size)
                (omega (arith, lt, p, r.memory_limit)) in
            rw (over, room) (over-HasRoom sh es old r s f l t)
      ]
