-- ===== src/Server/Session.antt =====
-- internal/server/server.go: a command that sets and one that gets.
use mini_key_value_store.Prelude.{
  ℕ, ◌*◌, ◌≤◌, ◌<◌, true, Option, none, some, [], ◌∷◌, Bytes, pos, ◌≡◌, refl, ap, ◌⊎◌, le→ltb_false,
}
use mini_key_value_store.Item.{Item, expires_at}
use mini_key_value_store.Shard.{add_uint64}
use mini_key_value_store.Shard.Repr.{Limits}
use mini_key_value_store.Store.{Store, set, get}
use mini_key_value_store.Store.Valid.{IsValid}
use mini_key_value_store.Store.Reads.{reply, get-set_store}
use mini_key_value_store.Protocol.{Command}
use mini_key_value_store.Protocol.Requests
use mini_key_value_store.Protocol.Requests.{Request, command_of}
use mini_key_value_store.Server.{Server, stored, value_reply, end_reply, count_command}
use mini_key_value_store.Server.Execute.{
  set_answer, get_answer, max_ttl_seconds, second, execute_op, execute,
}
use mini_key_value_store.Server.Loop.{goes_on, run_command}

-- The server once `op` is counted and the store is `store`.
counted : Server → Store → Command → Server
counted srv store c = record srv { store = store; counters = count_command c.op srv.counters }

reply-some :
    (o : Option (Store × Option Item)) (item : Item)
    → reply o ≡ some (some item)
    → (s : Store) × (o ≡ some (s, some item))
reply-some none item h = absurd (cc)
reply-some (some (s, found)) item h = let q : found ≡ some item = cc in (s, ap (λ f. some (s, f)) q)

module _ (srv : Server) (clock clock' : ℕ → ℕ) (key value : Bytes) (ttl : ℕ) (s1 : Store) where
  run_command-set :
      ttl ≤ max_ttl_seconds
      → set (clock 0) key value (pos (ttl * second)) srv.store ≡ some (s1, none)
      → run_command clock (command_of (Requests.set key ttl value)) srv
        ≡ goes_on true (counted srv s1 (command_of (Requests.set key ttl value))) (stored ∷ [])
  unfolding run_command execute execute_op counted set_answer
  run_command-set le h = rw (run_command, execute_op, le→ltb_false max_ttl_seconds ttl le, h) refl

  run_command-get :
      (srv1 : Server) (s2 : Store) (item : Item)
      → get (clock' 0) key srv1.store ≡ some (s2, some item)
      → run_command clock' (command_of (Requests.get key)) srv1
        ≡ goes_on true
            (counted srv1 s2 (command_of (Requests.get key)))
            (value_reply key item.value ∷ end_reply ∷ [])
  unfolding run_command execute execute_op counted get_answer
  run_command-get srv1 s2 item h = rw (run_command, execute_op, h) refl

  -- On a server with a valid store, a `set` command with a TTL in range that the store accepts is
  -- answered STORED, and a `get` command of the key on the server that this leaves, at any time
  -- before the expiry, is answered with the value.
  pub run_command-get-set :
      (lim : Limits) (n : ℕ)
      → IsValid lim n srv.store
      → ttl ≤ max_ttl_seconds
      → set (clock 0) key value (pos (ttl * second)) srv.store ≡ some (s1, none)
      → (expires_at (clock 0) (pos (ttl * second)) ≡ 0)
        ⊎ (clock' 0 < expires_at (clock 0) (pos (ttl * second)))
      → (srv1 : Server) × (srv2 : Server) × (run_command clock
            (command_of (Requests.set key ttl value))
            srv
          ≡ goes_on true srv1 (stored ∷ []))
        × (run_command clock' (command_of (Requests.get key)) srv1
            ≡ goes_on true srv2 (value_reply key value ∷ end_reply ∷ []))
  unfolding counted
  run_command-get-set lim n v le h x =
      let srv1 = counted srv s1 (command_of (Requests.set key ttl value)) in
      let item : Item = record { value = value; cas = add_uint64 srv.store.cas 1 } in
      let read =
        get-set_store lim n (clock 0) key value (pos (ttl * second)) srv.store s1 v (clock' 0) h
          x in
      let (s2, e) = reply-some (get (clock' 0) key s1) item read in
      (
        srv1,
        counted srv1 s2 (command_of (Requests.get key)),
        run_command-set le h,
        run_command-get srv1 s2 item e,
      )
