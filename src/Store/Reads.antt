-- ===== src/Store/Reads.antt =====
-- internal/store/store.go: `Set` and `Get` as a client sees them, across the shards.
use mini_key_value_store.Prelude.{
  ℕ, ℕ_discrete, subst, ◌<◌, Option, none, some, Bytes, ℤ, length, ◌≡◌, ◌≢◌, ◌⊎◌, inl, inr, refl,
  ap, sym, ◌∙◌, arith,
}
use mathlib.Core.Option.{some-injective}
use mini_key_value_store.Item.{expires_at}
use mini_key_value_store.Shard.{Shard, add_uint64}
use mini_key_value_store.Shard.Methods
use mini_key_value_store.Shard.Repr.{Limits}
use mini_key_value_store.Shard.Observe.SetGet.{get-set_self, get-set_other}
use mini_key_value_store.Store.{
  Store, get_of, shard_index, at_index, set_index, shard_for, set, get,
}
use mini_key_value_store.Store.Hash.{shard_index-lt}
use mini_key_value_store.Shard.Refine.Set.{set-Refines}
use mini_key_value_store.Store.Valid.{
  ShardValid, IsValid, All-set_index, shard_for-some, on_shard-some, at_index-set_self,
  at_index-set_ne, length-set_index,
}

-- What a `Get` returns.
abbrev pub reply : {A : Type 0} → Option (Store × A) → Option A
reply none = none
reply (some (_, a)) = some a

module _ (lim : Limits) (n : ℕ) (s : Store) (v : IsValid lim n s) (key : Bytes) where
  -- A `Get` replies what its shard replies.
  reply-get :
      (now : ℕ) (sh : Shard)
      → shard_for key s ≡ some sh
      → reply (get now key s) ≡ some (Methods.get now key sh).1
  unfolding get
  reply-get now sh e = ap reply (on_shard-some lim n s v key (get_of now key) sh e)

  -- The store once the shard of `key` is `sh'`.
  abbrev pub written : Shard → ℕ → Store
  written sh' counter = record {
    shards = set_index s.shards (shard_index key (length s.shards)) sh';
    cas = counter;
  }

  pub written-IsValid :
      (sh' : Shard) (counter : ℕ) → ShardValid lim sh' → IsValid lim n (written sh' counter)
  written-IsValid sh' counter w = record {
    count = length-set_index s.shards (shard_index key (length s.shards)) sh' ∙ v.count;
    some_shard = v.some_shard;
    few = v.few;
    each = All-set_index (ShardValid lim) s.shards (shard_index key (length s.shards)) sh' v.each w;
  }

  shard_for-same : (sh' : Shard) (counter : ℕ) → shard_for key (written sh' counter) ≡ some sh'
  unfolding shard_for
  shard_for-same sh' counter =
      ap (λ m. at_index (written sh' counter).shards (shard_index key m))
        (length-set_index s.shards (shard_index key (length s.shards)) sh')
      ∙ at_index-set_self s.shards (shard_index key (length s.shards)) sh' (
          shard_index-lt key (length s.shards) (omega (arith, v.count, v.some_shard))
            (omega (arith, v.count, v.few)))

  pub shard_for-same_index :
      (sh' : Shard) (counter : ℕ) (j : Bytes)
      → shard_index j (length s.shards) ≡ shard_index key (length s.shards)
      → shard_for j (written sh' counter) ≡ some sh'
  unfolding shard_for
  shard_for-same_index sh' counter j e =
      ap (λ m. at_index (written sh' counter).shards (shard_index j m))
        (length-set_index s.shards (shard_index key (length s.shards)) sh')
      ∙ ap (at_index (written sh' counter).shards) e
      ∙ at_index-set_self s.shards (shard_index key (length s.shards)) sh' (
          shard_index-lt key (length s.shards) (omega (arith, v.count, v.some_shard))
            (omega (arith, v.count, v.few)))

  -- A key of another shard keeps its shard.
  pub shard_for-other :
      (sh' : Shard) (counter : ℕ) (j : Bytes)
      → shard_index j (length s.shards) ≢ shard_index key (length s.shards)
      → shard_for j (written sh' counter) ≡ shard_for j s
  unfolding shard_for
  shard_for-other sh' counter j ne =
      ap (λ m. at_index (written sh' counter).shards (shard_index j m))
        (length-set_index s.shards (shard_index key (length s.shards)) sh')
      ∙ at_index-set_ne s.shards (shard_index key (length s.shards))
          (shard_index j (length s.shards)) sh' (λ e. ne (sym e))

some_pair : {A B : Type 0} {o p : A × B} → some o ≡ some p → (o.0 ≡ p.0) × (o.1 ≡ p.1)
some_pair {A = A} {B = B} {o = o} {p = p} h =
    let q : o ≡ p = some-injective o p h in (ap (λ (x : A × B). x.0) q, ap (λ (x : A × B). x.1) q)

pub shard_for_eq :
    (s : Store) (key j : Bytes) (sh : Shard)
    → shard_index j (length s.shards) ≡ shard_index key (length s.shards)
    → shard_for key s ≡ some sh
    → shard_for j s ≡ some sh
unfolding shard_for
shard_for_eq s key j sh d e = ap (at_index s.shards) d ∙ e

module _ (lim : Limits) (n now : ℕ) (key value : Bytes) (ttl : ℤ) (s s' : Store)
    (v : IsValid lim n s) where
  -- The shard that the method `set` leaves.
  abbrev stored : Shard → Shard
  stored sh = (Methods.set now key value ttl sh s.cas).0

  record Done : Type 0 where
    shard : Shard
    found : shard_for key s ≡ some shard
    valid : ShardValid lim shard
    ok : (Methods.set now key value ttl shard s.cas).2 ≡ none
    valid' : IsValid lim n s'
    same :
        (j : Bytes)
        → shard_index j (length s.shards) ≡ shard_index key (length s.shards)
        → shard_for j s' ≡ some (stored shard)
    others :
        (j : Bytes)
        → shard_index j (length s.shards) ≢ shard_index key (length s.shards)
        → shard_for j s' ≡ shard_for j s

  set_done : set now key value ttl s ≡ some (s', none) → Done
  unfolding set
  set_done h =
      let (sh, e, w) = shard_for-some lim n s v key in
      let run = on_shard-some lim n s v key (Methods.set now key value ttl) sh e in
      let (q, r) = some_pair (sym run ∙ h) in
      let c = (Methods.set now key value ttl sh s.cas).1 in
      let keeps : ShardValid lim (stored sh) =
        (_, (set-Refines lim now key value ttl s.cas sh w.0 w.1).repr) in
      record {
        shard = sh;
        found = e;
        valid = w;
        ok = r;
        valid' = subst (IsValid lim n) q (written-IsValid lim n s v key (stored sh) c keeps);
        same = λ j d.
            subst (λ t. shard_for j t ≡ some (stored sh)) q
              (shard_for-same_index lim n s v key (stored sh) c j d);
        others = λ j d.
            subst (λ t. shard_for j t ≡ shard_for j s) q
              (shard_for-other lim n s v key (stored sh) c j d);
      }

  -- What a successful `Set` on a valid store wrote, a `Get` returns, with the version that it was
  -- given, at any time before it expires.
  pub get-set_store :
      (now' : ℕ)
      → set now key value ttl s ≡ some (s', none)
      → (expires_at now ttl ≡ 0) ⊎ (now' < expires_at now ttl)
      → reply (get now' key s') ≡ some (some (record { value = value; cas = add_uint64 s.cas 1 }))
  get-set_store now' h x =
      let d = set_done h in
      reply-get lim n s' d.valid' key now' (stored d.shard) (d.same key refl)
      ∙ ap some (get-set_self lim now key value ttl s.cas d.shard d.valid now' d.ok x)

  -- After a successful `Set` on a valid store, another key reads as before; or it reads as absent,
  -- and is a key of the same shard.
  pub get-set_store_other :
      (now' : ℕ) (j : Bytes)
      → set now key value ttl s ≡ some (s', none)
      → j ≢ key
      → ((reply (get now' j s') ≡ some none)
          × (shard_index j (length s.shards) ≡ shard_index key (length s.shards)))
        ⊎ (reply (get now' j s') ≡ reply (get now' j s))
  get-set_store_other now' j h ne =
      let d = set_done h in
      let (shj, ej, wj) = shard_for-some lim n s v j in
      elim (ℕ_discrete (shard_index j (length s.shards)) (shard_index key (length s.shards))) [
        | no ne_index ↦ inr (
            reply-get lim n s' d.valid' j now' shj (d.others j ne_index ∙ ej)
            ∙ sym (reply-get lim n s v j now' shj ej))
        | yes same_index ↦
            let after = reply-get lim n s' d.valid' j now' (stored d.shard) (d.same j same_index) in
            let before =
              reply-get lim n s v j now' d.shard
                (shard_for_eq s key j d.shard same_index d.found) in
            elim (get-set_other lim now key value ttl s.cas d.shard d.valid now' j d.ok ne) [
              | inl gone ↦ inl (after ∙ ap some gone, same_index)
              | inr kept ↦ inr (after ∙ ap some kept ∙ sym before)
            ]
      ]
