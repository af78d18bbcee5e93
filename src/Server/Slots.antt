-- ===== src/Server/Slots.antt =====
-- internal/server/server.go: the cap on connections, as steps of the server between two states.
-- `ServeConn` is two steps: what it does before it serves the connection, and its deferred calls. A
-- connection is known by a number.
use mini_key_value_store.Prelude.{
  ℕ, ℕ_discrete, zero, suc, ◌+◌, ◌-◌, ◌≤◌, Bool, true, false, Option, none, some, List, [], ◌∷◌,
  length, length-append, Fresh, Member, Member-split, erase, ltb, if◌then◌else◌, Bool-cases, ◌≡◌,
  refl, ap, sym, ◌∙◌, inl, inr, ◌⊎◌, subst, arith, ℤ, pos, negsuc,
}
use mini_key_value_store.Shard.{add_uint64}

-- `capacity` and `held` are those of the semaphore, a channel with a buffer; `none` is nil.
pub record Slots : Type 0 where
  pub capacity : Option ℕ
  pub held : ℕ
  pub conns : List ℕ
  pub connections_opened : ℕ
  pub connections_active : ℕ
  pub connections_rejected : ℕ

-- `New` and `WithMaxConnections(n)`
abbrev pub capacity_for : ℤ → Option ℕ
capacity_for (pos zero) = none
capacity_for (pos (suc n)) = some (suc n)
capacity_for (negsuc n) = none

unfoldable pub with_max_connections : ℤ → Slots
with_max_connections n = record {
  capacity = capacity_for n;
  held = 0;
  conns = [];
  connections_opened = 0;
  connections_active = 0;
  connections_rejected = 0;
}

-- `acquireSlot`: whether there is one, and the slots held after it.
unfoldable pub acquire_slot : Option ℕ → ℕ → Bool × ℕ
acquire_slot none held = (true, held)
acquire_slot (some c) held = if ltb held c then (true, held + 1) else (false, held)

unfoldable pub release_slot : Option ℕ → ℕ → ℕ
release_slot none held = held
release_slot (some c) held = held - 1

-- The start of `ServeConn`.
unfoldable pub open_conn : ℕ → Slots → Slots
unfolding acquire_slot
open_conn id s =
    let (free, held) = acquire_slot s.capacity s.held in
    if free
    then record s {
      held = held;
      conns = id ∷ s.conns;
      connections_opened = add_uint64 s.connections_opened 1;
      connections_active = s.connections_active + 1;
    }
    else record s {
      connections_opened = add_uint64 s.connections_opened 1;
      connections_rejected = add_uint64 s.connections_rejected 1;
    }

-- The deferred calls of `ServeConn`.
unfoldable pub close_conn : ℕ → Slots → Slots
unfolding release_slot
close_conn id s = record s {
  held = release_slot s.capacity s.held;
  conns = erase ℕ_discrete id s.conns;
  connections_active = s.connections_active - 1;
}

-- A new connection comes, or one that is served ends.
pub data Step : Slots → Slots → Type 0 where
  opens : (id : ℕ) (s : Slots) → Fresh id s.conns → Step s (open_conn id s)
  closes : (id : ℕ) (s : Slots) → Member id s.conns → Step s (close_conn id s)

pub data Steps : Slots → Slots → Type 0 where
  stop : (s : Slots) → Steps s s
  more : (s t u : Slots) → Steps s t → Step t u → Steps s u

-- The slots that are held are those of the connections, and no more than the capacity.
abbrev pub Holds : Option ℕ → ℕ → ℕ → Type 0
Holds none held n = Unit
Holds (some c) held n = (held ≡ n) × (held ≤ c)

record IsCapped (c : Option ℕ) (s : Slots) : Type 0 where
  cap : s.capacity ≡ c
  active : s.connections_active ≡ length s.conns
  holds : Holds s.capacity s.held (length s.conns)

length-erase :
    (id : ℕ) (xs : List ℕ) → Member id xs → length (erase ℕ_discrete id xs) + 1 ≡ length xs
length-erase id xs m =
    let (ys, zs, e, d) = Member-split ℕ_discrete id xs m in
    omega (
      arith,
      ap (λ (l : List ℕ). length l) e,
      ap (λ (l : List ℕ). length l) d,
      length-append ys zs,
      length-append ys (id ∷ zs),
    )

pub acquire_slot-Holds :
    (c : Option ℕ) (held n : ℕ)
    → Holds c held n
    → (acquire_slot c held).0 ≡ true
    → Holds c (acquire_slot c held).1 (suc n)
unfolding acquire_slot
acquire_slot-Holds none held n h e = tt
acquire_slot-Holds (some c) held n h e = (ground arith, ground arith)

pub acquire_slot-full : (c held : ℕ) → (acquire_slot (some c) held).0 ≡ false → c ≤ held
unfolding acquire_slot
acquire_slot-full c held e = ground arith

pub release_slot-Holds :
    (c : Option ℕ) (held n m : ℕ) → Holds c held n → m + 1 ≡ n → Holds c (release_slot c held) m
unfolding release_slot
release_slot-Holds none held n m h e = tt
release_slot-Holds (some c) held n m h e = (omega (arith, h.0, e), omega (arith, h.1))

module _ (c : Option ℕ) where
  open_conn-IsCapped : (id : ℕ) (s : Slots) → IsCapped c s → IsCapped c (open_conn id s)
  unfolding open_conn
  open_conn-IsCapped id s h = elim (Bool-cases (acquire_slot s.capacity s.held).0) [
    | inl e ↦
        rw (open_conn, e)
          (record {
            cap = h.cap;
            active = omega (arith, h.active);
            holds = acquire_slot-Holds s.capacity s.held (length s.conns) h.holds e;
          })
    | inr e ↦ rw (open_conn, e) (record { cap = h.cap; active = h.active; holds = h.holds })
  ]

  close_conn-IsCapped :
      (id : ℕ) (s : Slots) → Member id s.conns → IsCapped c s → IsCapped c (close_conn id s)
  unfolding close_conn
  close_conn-IsCapped id s m h =
      let fewer = length-erase id s.conns m in
      record {
        cap = h.cap;
        active = omega (arith, h.active, fewer);
        holds = release_slot-Holds s.capacity s.held (length s.conns) _ h.holds fewer;
      }

  Step-IsCapped : {s t : Slots} → Step s t → IsCapped c s → IsCapped c t
  Step-IsCapped (opens id s fr) h = open_conn-IsCapped id s h
  Step-IsCapped (closes id s m) h = close_conn-IsCapped id s m h

  Steps-IsCapped : {s t : Slots} → Steps s t → IsCapped c s → IsCapped c t
  Steps-IsCapped (stop s) h = h
  Steps-IsCapped (more s t u r st) h = Step-IsCapped st (Steps-IsCapped r h)

with_max_connections-IsCapped : (n : ℤ) → IsCapped (capacity_for n) (with_max_connections n)
unfolding with_max_connections
with_max_connections-IsCapped (pos zero) = record { cap = refl; active = refl; holds = tt }
with_max_connections-IsCapped (pos (suc n)) = record {
  cap = refl;
  active = refl;
  holds = (refl, omega arith);
}
with_max_connections-IsCapped (negsuc n) = record { cap = refl; active = refl; holds = tt }

-- The connections of a capped server with their slots.
capped_holds : (c : ℕ) (s : Slots) → IsCapped (some c) s → (s.held ≡ length s.conns) × (s.held ≤ c)
capped_holds c s h = subst (λ k. Holds k s.held (length s.conns)) h.cap h.holds

-- After any sequence of connections that come and end, from a server with a cap of at least one:
-- no more connections are served than the cap, the active ones are those that are registered, and
-- one that comes is served unless the cap is reached.
pub Steps-le :
    (n : ℕ) (s : Slots) (id : ℕ)
    → Steps (with_max_connections (pos (suc n))) s
    → (length s.conns ≤ suc n)
      × (s.connections_active ≡ length s.conns)
      × ((length (open_conn id s).conns ≡ length s.conns + 1) ⊎ (length s.conns ≡ suc n))
unfolding open_conn
Steps-le n s id r =
    let h = Steps-IsCapped (some (suc n)) r (with_max_connections-IsCapped (pos (suc n))) in
    let (e, le) = capped_holds (suc n) s h in
    (
      omega (arith, e, le),
      h.active,
      elim (Bool-cases (acquire_slot s.capacity s.held).0) [
        | inl free ↦ inl (rw (open_conn, free) (omega arith))
        | inr full ↦
            let taken =
              acquire_slot-full (suc n) s.held
                (ap (λ k. (acquire_slot k s.held).0) (sym h.cap) ∙ full) in
            inr (omega (arith, e, le, taken))
      ],
    )
