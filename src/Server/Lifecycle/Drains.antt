-- ===== src/Server/Lifecycle/Drains.antt =====
-- internal/server/server.go: the calls of `ServeConn` in any order of their steps, and what `Shutdown`
-- waits for.
use mini_key_value_store.Prelude.{
  ℕ, suc, ◌≤◌, Bool, false, Option, none, some, List, [], ◌∷◌, ◌++◌, map, All, ◌==◌, ◌≡◌, ◌⊎◌, inl,
  inr, refl, sym, ap, ◌∙◌, subst, arith, ℤ, pos, negsuc, zero, Bool-cases, if_either,
}
use mini_key_value_store.Store.{at_index}
use mini_key_value_store.Server.Slots.{Holds, capacity_for}
use mini_key_value_store.Server.Lifecycle
use mini_key_value_store.Server.Lifecycle.{
  Phase, Conn, Life, Stage, Event, begin, new_conn, expire_conn, force_conn, happen, run, advance,
  shut_down, expire, drain,
}
use mini_key_value_store.Server.Lifecycle.Counts.{
  in_slot, in_wait, in_conns, in_active, one_if, count, count-append, count-map, count-zero,
  not_listed,
}
use mini_key_value_store.Server.Lifecycle.Balance.{IsBalanced, next_step-IsBalanced}

-- A member of `conns` is between `registerConn` and `deregisterConn`.
abbrev IsMember : Conn → Type 0
IsMember c = c.member ≡ in_conns c.phase

expire_conn-phase :
    (c : Conn) → ((expire_conn c).phase ≡ c.phase) × ((expire_conn c).member ≡ c.member)
expire_conn-phase c =
    if_either (λ (d : Conn). (d.phase ≡ c.phase) × (d.member ≡ c.member)) c.member _ _ (refl, refl)
      (refl, refl)

force_conn-phase :
    (c : Conn) → ((force_conn c).phase ≡ c.phase) × ((force_conn c).member ≡ c.member)
force_conn-phase c =
    if_either (λ (d : Conn). (d.phase ≡ c.phase) × (d.member ≡ c.member)) c.member _ _ (refl, refl)
      (refl, refl)

module _ (cap : Option ℕ) where
  -- A loop over `conns` that changes neither phases nor membership.
  map-IsBalanced :
      (f : Conn → Conn) (stage : Stage) (l : Life)
      → ((c : Conn) → ((f c).phase ≡ c.phase) × ((f c).member ≡ c.member))
      → IsBalanced cap l
      → IsBalanced cap (record l { calls = map f l.calls; stage = stage })
  map-IsBalanced f stage l keeps b =
      let kept : (q : Phase → Bool) → count q (map f l.calls) ≡ count q l.calls =
        λ q. count-map q f (λ c. (keeps c).0) l.calls in
      record {
        cap = b.cap;
        slots = subst (Holds cap l.held) (sym (kept in_slot)) b.slots;
        waits = b.waits ∙ sym (kept in_wait);
        active = b.active ∙ sym (kept in_active);
        members = members l.calls b.members;
      }
    where
      members : (cs : List Conn) → All IsMember cs → All IsMember (map f cs)
      members [] a = tt
      members (c ∷ cs) a = ((keeps c).1 ∙ a.0 ∙ ap in_conns (sym (keeps c).0), members cs a.1)

  append-members : (cs : List Conn) → All IsMember cs → All IsMember (cs ++ new_conn ∷ [])
  append-members [] a = (refl, tt)
  append-members (c ∷ cs) a = (a.0, append-members cs a.1)

  accepts-IsBalanced : (l : Life) → IsBalanced cap l → IsBalanced cap (happen Lifecycle.accepts l)
  unfolding happen
  accepts-IsBalanced l b =
      let none_more : (q : Phase → Bool)
          → q Lifecycle.started ≡ false
          → count q l.calls ≡ count q (l.calls ++ new_conn ∷ []) =
        λ q e. omega (arith, count-append q l.calls (new_conn ∷ []), ap one_if e) in
      record {
        cap = b.cap;
        slots = subst (Holds cap l.held) (none_more in_slot refl) b.slots;
        waits = b.waits ∙ none_more in_wait refl;
        active = b.active ∙ none_more in_active refl;
        members = append-members l.calls b.members;
      }

  advance-IsBalanced :
      (i : ℕ) (more : Bool) (l : Life)
      → IsBalanced cap l
      → (o : Option Conn) → at_index l.calls i ≡ o
      → IsBalanced cap (advance i more l o)
  advance-IsBalanced i more l b none e = b
  advance-IsBalanced i more l b (some c) e = next_step-IsBalanced cap i more c c.phase l e refl b

  shut_down-IsBalanced : (s : Stage) (l : Life) → IsBalanced cap l → IsBalanced cap (shut_down s l)
  shut_down-IsBalanced Lifecycle.not_called l b =
      map-IsBalanced expire_conn Lifecycle.waiting l expire_conn-phase b
  shut_down-IsBalanced Lifecycle.waiting l b = b
  shut_down-IsBalanced Lifecycle.forcing l b = b
  shut_down-IsBalanced (Lifecycle.shut ok) l b = b

  expire-IsBalanced : (s : Stage) (l : Life) → IsBalanced cap l → IsBalanced cap (expire s l)
  expire-IsBalanced Lifecycle.waiting l b =
      map-IsBalanced force_conn Lifecycle.forcing l force_conn-phase b
  expire-IsBalanced Lifecycle.not_called l b = b
  expire-IsBalanced Lifecycle.forcing l b = b
  expire-IsBalanced (Lifecycle.shut ok) l b = b

  stage-IsBalanced :
      (s : Stage) (l : Life) → IsBalanced cap l → IsBalanced cap (record l { stage = s })
  stage-IsBalanced s l b = record {
    cap = b.cap;
    slots = b.slots;
    waits = b.waits;
    active = b.active;
    members = b.members;
  }

  drain-IsBalanced : (s : Stage) (l : Life) → IsBalanced cap l → IsBalanced cap (drain s l)
  drain-IsBalanced Lifecycle.waiting l b =
      if_either (IsBalanced cap) (l.wg == 0) _ _ (stage-IsBalanced _ l b) b
  drain-IsBalanced Lifecycle.forcing l b =
      if_either (IsBalanced cap) (l.wg == 0) _ _ (stage-IsBalanced _ l b) b
  drain-IsBalanced Lifecycle.not_called l b = b
  drain-IsBalanced (Lifecycle.shut ok) l b = b

  happen-IsBalanced : (e : Event) (l : Life) → IsBalanced cap l → IsBalanced cap (happen e l)
  unfolding happen
  happen-IsBalanced Lifecycle.accepts l b = accepts-IsBalanced l b
  happen-IsBalanced (Lifecycle.advances i more) l b = advance-IsBalanced i more l b _ refl
  happen-IsBalanced Lifecycle.shuts l b = shut_down-IsBalanced l.stage l b
  happen-IsBalanced Lifecycle.expires l b = expire-IsBalanced l.stage l b
  happen-IsBalanced Lifecycle.drains l b = drain-IsBalanced l.stage l b

  run-IsBalanced : (es : List Event) (l : Life) → IsBalanced cap l → IsBalanced cap (run es l)
  unfolding run
  run-IsBalanced [] l b = b
  run-IsBalanced (e ∷ es) l b = run-IsBalanced es (happen e l) (happen-IsBalanced e l b)

begin-IsBalanced : (n d : ℤ) → IsBalanced (capacity_for n) (begin n d)
begin-IsBalanced (pos zero) d = record {
  cap = refl;
  slots = tt;
  waits = refl;
  active = refl;
  members = tt;
}
begin-IsBalanced (pos (suc n)) d = record {
  cap = refl;
  slots = (refl, omega arith);
  waits = refl;
  active = refl;
  members = tt;
}
begin-IsBalanced (negsuc n) d = record {
  cap = refl;
  slots = tt;
  waits = refl;
  active = refl;
  members = tt;
}

-- In whatever order the calls of `ServeConn`, the acceptor and `Shutdown` take their steps, on a server
-- with a cap of at least one: the slots that are held are those of the calls that have one, never more
-- than the cap; the wait group and the active connections count the calls between the steps that change
-- them; and `conns` holds just those between `registerConn` and `deregisterConn`.
pub run-counts :
    (n : ℕ) (d : ℤ) (es : List Event)
    → let l = run es (begin (pos (suc n)) d) in
      (l.held ≡ count in_slot l.calls)
      × (count in_slot l.calls ≤ suc n)
      × (l.wg ≡ count in_wait l.calls)
      × (l.connections_active ≡ count in_active l.calls)
      × All (λ c. c.member ≡ in_conns c.phase) l.calls
run-counts n d es =
    let b =
      run-IsBalanced (some (suc n)) es (begin (pos (suc n)) d) (begin-IsBalanced (pos (suc n)) d) in
    (b.slots.0, omega (arith, b.slots.0, b.slots.1), b.waits, b.active, b.members)

-- What ended the wait for the calls found none to wait for.
drain-zero :
    (s : Stage) (l : Life) (ok : Bool)
    → (s ≡ Lifecycle.waiting) ⊎ (s ≡ Lifecycle.forcing)
    → l.stage ≡ s
    → (drain s l).stage ≡ Lifecycle.shut ok
    → l.wg ≡ 0
drain-zero Lifecycle.waiting l ok w q e = elim (Bool-cases (l.wg == 0)) [
  | inl z ↦ ground arith
  | inr z ↦ absurd (cc)
]
drain-zero Lifecycle.forcing l ok w q e = elim (Bool-cases (l.wg == 0)) [
  | inl z ↦ ground arith
  | inr z ↦ absurd (cc)
]
drain-zero Lifecycle.not_called l ok w q e = absurd (elim w [ inl h ↦ cc | inr h ↦ cc ])
drain-zero (Lifecycle.shut k) l ok w q e = absurd (elim w [ inl h ↦ cc | inr h ↦ cc ])

-- `Shutdown` returns, with nil or with the error of its context, only when each connection whose call
-- of `ServeConn` it waits for is finished: in whatever order the steps came, at the end of its wait no
-- call is between `wg.Add` and `wg.Done`, and no connection is registered.
pub shut-finished :
    (n d : ℤ) (es : List Event) (ok : Bool)
    → ((run es (begin n d)).stage ≡ Lifecycle.waiting)
      ⊎ ((run es (begin n d)).stage ≡ Lifecycle.forcing)
    → (happen Lifecycle.drains (run es (begin n d))).stage ≡ Lifecycle.shut ok
    → All (λ c. (in_wait c.phase ≡ false) × (c.member ≡ false)) (run es (begin n d)).calls
unfolding happen
shut-finished n d es ok w e =
    let l = run es (begin n d) in
    let b = run-IsBalanced (capacity_for n) es (begin n d) (begin-IsBalanced n d) in
    let zero = drain-zero l.stage l ok w refl e in
    finished l.calls (count-zero in_wait l.calls (sym b.waits ∙ zero)) b.members
  where
    finished :
        (cs : List Conn)
        → All (λ c. in_wait c.phase ≡ false) cs
        → All (λ c. c.member ≡ in_conns c.phase) cs
        → All (λ c. (in_wait c.phase ≡ false) × (c.member ≡ false)) cs
    finished [] a m = tt
    finished (c ∷ cs) a m = ((a.0, m.0 ∙ not_listed c.phase a.0), finished cs a.1 m.1)
