-- ===== src/Minikv/Safe.antt =====
-- cmd/minikv/main.go: the store of a server whose configuration file was loaded.
use mini_key_value_store.Prelude.{
  All, zero, suc, ◌^◌, ◌<◌, ◌≤◌, true, false, none, some, ℕ, List, ℤ, pos, negsuc, ◌≡◌, refl, sym,
  ap, Outcome, returns, if◌then◌else◌, subst, Bytes, [], ◌∷◌, not, ◌&&◌, ◌⊎◌, inl, inr, ◌≢◌, ◌↔◌,
  fails, and_then, wrap_error, and_then-returns, payload,
}
use mini_key_value_store.Store.{Store, memory_bytes}
use mini_key_value_store.Store.Config.{magnitude, normalize_config, new}
use mini_key_value_store.Store.Config as StoreConfig
use mini_key_value_store.Store.Valid
use mini_key_value_store.Store.Start.{limits_of, new-IsValid, memory_bytes-IsValid}
use mini_key_value_store.Shard.Repr.{Limits}
use mini_key_value_store.Config.{Config, is_empty, tls_enabled}
use mini_key_value_store.Config.Scanner.{File}
use mini_key_value_store.Config.Load.{load}
use mini_key_value_store.Config.Valid.{
  IsNatural, IsValid, load-IsValid, nonpositive-IsPositive, negative-IsNatural,
}
use mini_key_value_store.Minikv.{
  store_config, Scheme, tcp, tls, keypair_failed, listen_failed, Network, listen_plain,
  listen_secure, listen,
}
use mini_key_value_store.Store.Calls.{Call}
use mini_key_value_store.Store.Ints.{IsModest, IsExact, step-IsExact}
use mini_key_value_store.Minikv.Cleanup.{
  call, tick, turn, cancel, Event, cleanup_loop, ticker_loop-IsValid,
}

-- `New` replaces nothing in the configuration of a loaded file.
pub normalize_config-IsValid :
    (c : Config) → IsValid c → normalize_config (store_config c) ≡ store_config c
unfolding normalize_config store_config
normalize_config-IsValid c v =
    rw
      (
        nonpositive-IsPositive c.max_value_bytes v.value,
        nonpositive-IsPositive c.max_memory_bytes v.memory,
        negative-IsNatural c.item_overhead_bytes v.overhead,
        nonpositive-IsPositive c.shards v.shards,
      )
      refl

cleanup_loop-IsValid :
    (lim : Limits) (n : ℕ) (interval : ℤ) (es : List Event) (s : Store)
    → IsNatural interval
    → Valid.IsValid lim n s
    → (s' : Store) × (cleanup_loop interval es s ≡ some s') × Valid.IsValid lim n s'
unfolding cleanup_loop
cleanup_loop-IsValid lim n (pos zero) es s h v = ticker_loop-IsValid lim n false none es s v
cleanup_loop-IsValid lim n (pos (suc k)) es s h v = ticker_loop-IsValid lim n true none es s v
cleanup_loop-IsValid lim n (negsuc k) es s h v = absurd (cc)

module _ (c : Config) where
  abbrev config : StoreConfig.Config
  config = normalize_config (store_config c)

  -- The store that `run` builds, after sweeps and calls.
  pub cleanup_loop-new :
      (es : List Event)
      → IsNatural c.cleanup_interval
      → magnitude config.shards < 2 ^ 32
      → (s : Store) × (cleanup_loop c.cleanup_interval es (new (store_config c)) ≡ some s)
        × Valid.IsValid (limits_of config) (magnitude config.shards) s
  cleanup_loop-new es natural few =
      cleanup_loop-IsValid (limits_of config) (magnitude config.shards) c.cleanup_interval es
        (new (store_config c)) natural (new-IsValid (store_config c) few)

-- If a file loads, with fewer than 2^32 shards and at most one for each byte of its memory, then
-- `New` replaces nothing in the configuration that `run` gives it, and whatever sweeps of the
-- ticker and calls of the connections follow, the calls also between the turns of a sweep, with a
-- cancellation anywhere, nothing panics and the accounted memory stays within the configured one.
pub cleanup_loop-load :
    {E : Type 0} (opened : Outcome E (File E)) (c : Config) (es : List Event)
    → load opened ≡ returns c
    → magnitude c.shards < 2 ^ 32
    → magnitude c.shards ≤ magnitude c.max_memory_bytes
    → (normalize_config (store_config c) ≡ store_config c)
      × (s : Store) × (cleanup_loop c.cleanup_interval es (new (store_config c)) ≡ some s)
      × (memory_bytes s ≤ magnitude c.max_memory_bytes)
      × Valid.IsValid (limits_of (store_config c)) (magnitude c.shards) s
unfolding store_config
cleanup_loop-load opened c es l few room =
    let (v, _) = load-IsValid opened c l in
    let same = normalize_config-IsValid c v in
    let few' = subst (λ d. magnitude d.shards < 2 ^ 32) (sym same) few in
    let room' = subst (λ d. magnitude d.shards ≤ magnitude d.max_memory_bytes) (sym same) room in
    let (s, e, w) = cleanup_loop-new c es v.interval few' in
    let m = memory_bytes-IsValid (store_config c) s w room' in
    (
      same,
      s,
      e,
      subst (λ d. memory_bytes s ≤ magnitude d.max_memory_bytes) same m,
      subst (λ d. Valid.IsValid (limits_of d) (magnitude d.shards) s) same w,
    )

-- The calls among the events.
abbrev pub IsModestEvent : Limits → Event → Type 0
IsModestEvent lim (call c) = IsModest lim c
IsModestEvent lim tick = Unit
IsModestEvent lim (turn now) = Unit
IsModestEvent lim cancel = Unit

-- A configuration that was loaded is one that `New` keeps as it is. If it has fewer than 2^32 shards
-- and at most one for each byte of its memory, and the size of the item that a call may write, with
-- the limit of the memory of a shard, is always below 2^63: the cleanup loop beside the calls of the
-- connections never panics, the accounted memory stays within the configured memory, and the next call
-- is the one with the sums of the machine.
pub cleanup_loop_in_range :
    {E : Type 0} (opened : Outcome E (File E)) (c : Config) (es : List Event) (next : Call)
    → load opened ≡ returns c
    → magnitude c.shards < 2 ^ 32
    → magnitude c.shards ≤ magnitude c.max_memory_bytes
    → All (IsModestEvent (limits_of (store_config c))) es
    → IsModest (limits_of (store_config c)) next
    → (normalize_config (store_config c) ≡ store_config c)
      × (s : Store) × (cleanup_loop c.cleanup_interval es (new (store_config c)) ≡ some s)
      × (memory_bytes s ≤ magnitude c.max_memory_bytes)
      × IsExact next s
cleanup_loop_in_range opened c es next l few room modest small =
    let (same, s, e, m, v) = cleanup_loop-load opened c es l few room in
    (same, s, e, m, step-IsExact (limits_of (store_config c)) (magnitude c.shards) next s v small)

wrapped-returns :
    {E F A B : Type 0} (f : E → F) (o : Outcome E A) (scheme : B) (r : A × B)
    → and_then (wrap_error f o) (λ l. returns (l, scheme)) ≡ returns r
    → (o ≡ returns r.0) × (scheme ≡ r.1)
wrapped-returns f (returns a) scheme r e =
    let q = payload (a, scheme) r e in (ap (λ p. returns p.0) q, ap (λ p. p.1) q)
wrapped-returns f (fails e') scheme r e = absurd (cc)

wrap_error-returns :
    {E F A : Type 0} (f : E → F) (o : Outcome E A) (a : A)
    → wrap_error f o ≡ returns a
    → o ≡ returns a
wrap_error-returns f (returns b) a e = ap returns (payload b a e)
wrap_error-returns f (fails e') a e = absurd (cc)

-- The listener of a server whose configuration was loaded is that of plain TCP only if neither a
-- certificate nor a key is configured; otherwise both are, and it is that of TLS with the certificate
-- that was loaded from them. It is on the configured address, and the scheme says which it is.
pub listen-load :
    {E F L C : Type 0} (opened : Outcome F (File F)) (c : Config) (net : Network E L C) (l : L)
    (scheme : Scheme)
    → load opened ≡ returns c
    → listen net c ≡ returns (l, scheme)
    → ((c.tls_cert ≡ []) × (c.tls_key ≡ []) × (scheme ≡ tcp) × (net.listen_tcp c.addr ≡ returns l))
      ⊎ ((c.tls_cert ≢ [])
          × (c.tls_key ≢ [])
          × (scheme ≡ tls)
          × (pair : C) × (net.load_keypair c.tls_cert c.tls_key ≡ returns pair)
          × (net.listen_tls pair c.addr ≡ returns l))
unfolding listen tls_enabled
listen-load {C = C} opened c net l scheme e r =
    let (v, _) = load-IsValid opened c e in by_cert c.tls_cert c.tls_key v.tls r
  where
    by_cert :
        (cert key : Bytes)
        → (cert ≡ []) ↔ (key ≡ [])
        → (if not (not (is_empty cert) && not (is_empty key))
            then listen_plain net c.addr
            else and_then
                (wrap_error keypair_failed (net.load_keypair cert key))
                (listen_secure net c.addr))
          ≡ returns (l, scheme)
        → ((cert ≡ []) × (key ≡ []) × (scheme ≡ tcp) × (net.listen_tcp c.addr ≡ returns l))
          ⊎ ((cert ≢ [])
              × (key ≢ [])
              × (scheme ≡ tls)
              × (pair : C) × (net.load_keypair cert key ≡ returns pair)
              × (net.listen_tls pair c.addr ≡ returns l))
    by_cert [] [] both r =
        let (o, t) = wrapped-returns listen_failed (net.listen_tcp c.addr) tcp (l, scheme) r in
        inl (refl, refl, sym t, o)
    by_cert [] (b ∷ bs) both r = let q : b ∷ bs ≡ [] = both.0 refl in absurd (cc)
    by_cert (b ∷ bs) [] both r = let q : b ∷ bs ≡ [] = both.1 refl in absurd (cc)
    by_cert (a ∷ as') (b ∷ bs) both r =
        let (pair, p, t) =
          and_then-returns (wrap_error keypair_failed (net.load_keypair (a ∷ as') (b ∷ bs)))
            (listen_secure net c.addr) (l, scheme) r in
        let (o, u) = wrapped-returns listen_failed (net.listen_tls pair c.addr) tls (l, scheme) t in
        inr (
          (λ q. absurd (cc)),
          (λ q. absurd (cc)),
          sym u,
          pair,
          wrap_error-returns keypair_failed (net.load_keypair (a ∷ as') (b ∷ bs)) pair p,
          o,
        )
