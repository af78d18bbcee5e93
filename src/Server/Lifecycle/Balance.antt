-- ===== src/Server/Lifecycle/Balance.antt =====
-- internal/server/server.go: what the semaphore, the wait group and the counters of a server count.
use mini_key_value_store.Prelude.{
  ℕ, suc, ◌+◌, ◌-◌, ◌≤◌, Bool, true, false, Option, some, All, if◌then◌else◌, ◌≡◌, refl, sym, ap,
  ◌∙◌, subst, arith, if_either,
}
use mini_key_value_store.Shard.{add_uint64}
use mini_key_value_store.Store.{at_index, set_index}
use mini_key_value_store.Store.Valid.{All-set_index, All-at_index}
use mini_key_value_store.Server.Slots.{
  acquire_slot, release_slot, Holds, acquire_slot-Holds, release_slot-Holds,
}
use mini_key_value_store.Server.Lifecycle
use mini_key_value_store.Server.Lifecycle.Counts.{
  in_slot, in_wait, in_conns, in_active, one_if, count, count-set_index, count-le, active_phase,
}
use mini_key_value_store.Server.Lifecycle.{
  Phase, Conn, Life, Stage, Event, begin, new_conn, put, next_step, take_slot, expire_conn,
  force_conn, happen, run, advance, shut_down, expire, drain,
}

-- The slots that are held, the wait group and the active connections are the calls that are between
-- the steps that change them, and `conns` holds those between `registerConn` and `deregisterConn`.
pub record IsBalanced (capacity : Option ℕ) (l : Life) : Type 0 where
  pub cap : l.capacity ≡ capacity
  pub slots : Holds capacity l.held (count in_slot l.calls)
  pub waits : l.wg ≡ count in_wait l.calls
  pub active : l.connections_active ≡ count in_active l.calls
  pub members : All (λ c. c.member ≡ in_conns c.phase) l.calls

-- One call moves on.
module _ (cap : Option ℕ) (i : ℕ) (c : Conn) (p : Phase) (l : Life)
    (found : at_index l.calls i ≡ some c) (e : c.phase ≡ p) (b : IsBalanced cap l) where
  counted_lem :
      (q : Phase → Bool) (c' : Conn)
      → count q (set_index l.calls i c') + one_if (q p) ≡ count q l.calls + one_if (q c'.phase)
  counted_lem q c' =
      subst
        (λ r.
          count q (set_index l.calls i c') + one_if (q r) ≡ count q l.calls + one_if (q c'.phase))
        e (count-set_index q l.calls i c c' found)

  put-IsBalanced :
      (c' : Conn) (held wg opened active rejected : ℕ)
      → ((m : ℕ)
          → m + one_if (in_slot p) ≡ count in_slot l.calls + one_if (in_slot c'.phase)
          → Holds cap held m)
      → wg + one_if (in_wait p) ≡ l.wg + one_if (in_wait c'.phase)
      → active + one_if (in_active p) ≡ l.connections_active + one_if (in_active c'.phase)
      → c'.member ≡ in_conns c'.phase
      → IsBalanced cap (
          put i c' (record l {
            held = held;
            wg = wg;
            connections_opened = opened;
            connections_active = active;
            connections_rejected = rejected;
          }))
  put-IsBalanced c' held wg opened active rejected s w a m = record {
    cap = b.cap;
    slots = s _ (counted_lem in_slot c');
    waits = omega (arith, w, b.waits, counted_lem in_wait c');
    active = omega (arith, a, b.active, counted_lem in_active c');
    members = All-set_index (λ c. c.member ≡ in_conns c.phase) l.calls i c' b.members m;
  }

  -- The step leaves the slots alone.
  same_slots :
      (q : Phase)
      → in_slot p ≡ in_slot q
      → (m : ℕ) → m + one_if (in_slot p) ≡ count in_slot l.calls + one_if (in_slot q)
      → Holds cap l.held m
  same_slots q s m h =
      let same : count in_slot l.calls ≡ m = omega (arith, h, ap one_if s) in
      subst (Holds cap l.held) same b.slots

  -- The counters that go down are not 0.
  positive : (q : Phase → Bool) → q p ≡ true → 1 ≤ count q l.calls
  positive q t = omega (arith, count-le q l.calls i c found, ap (λ r. one_if (q r)) e, ap one_if t)

member_at :
    (cap : Option ℕ) (i : ℕ) (c : Conn) (p : Phase) (l : Life)
    → at_index l.calls i ≡ some c
    → c.phase ≡ p
    → IsBalanced cap l
    → c.member ≡ in_conns p
member_at cap i c p l found e b =
    All-at_index (λ c. c.member ≡ in_conns c.phase) l.calls i c b.members found ∙ ap in_conns e

-- The slots once one is taken, and once one is released.
taken :
    (cap : Option ℕ) (c : Conn) (l : Life)
    → IsBalanced cap l
    → (held : ℕ) → acquire_slot l.capacity l.held ≡ (true, held)
    → (m : ℕ) → m + 0 ≡ count in_slot l.calls + 1
    → Holds cap held m
taken cap c l b held q m h =
    let q' = ap (λ k. acquire_slot k l.held) (sym b.cap) ∙ q in
    let more : suc (count in_slot l.calls) ≡ m = omega (arith, h) in
    let ok = acquire_slot-Holds cap l.held _ b.slots (ap (λ s. s.0) q') in
    subst (λ k. Holds cap k m) (ap (λ s. s.1) q') (subst (Holds cap _) more ok)

released :
    (cap : Option ℕ) (l : Life)
    → IsBalanced cap l
    → (m : ℕ) → m + 1 ≡ count in_slot l.calls + 0
    → Holds cap (release_slot l.capacity l.held) m
released cap l b m h =
    subst (λ k. Holds cap (release_slot k l.held) m) (sym b.cap)
      (release_slot-Holds cap l.held _ m b.slots (omega (arith, h)))

take_slot-IsBalanced :
    (cap : Option ℕ) (i : ℕ) (c : Conn) (l : Life)
    → at_index l.calls i ≡ some c
    → c.phase ≡ Lifecycle.opened
    → IsBalanced cap l
    → (s : Bool × ℕ) → acquire_slot l.capacity l.held ≡ s
    → IsBalanced cap (take_slot i c l s)
take_slot-IsBalanced cap i c l found e b (true, held) q =
    put-IsBalanced cap i c Lifecycle.opened l found e b (record c { phase = Lifecycle.admitted })
      held l.wg l.connections_opened l.connections_active l.connections_rejected
      (taken cap c l b held q) (omega arith) (omega arith)
      (member_at cap i c Lifecycle.opened l found e b)
take_slot-IsBalanced cap i c l found e b (false, held) q =
    put-IsBalanced cap i c Lifecycle.opened l found e b (record c { phase = Lifecycle.refused })
      l.held l.wg l.connections_opened l.connections_active l.connections_rejected
      (same_slots cap i c Lifecycle.opened l found e b Lifecycle.refused refl) (omega arith)
      (omega arith) (member_at cap i c Lifecycle.opened l found e b)

-- A step between two phases of the loop.
moves-IsBalanced :
    (cap : Option ℕ) (i : ℕ) (c : Conn) (p : Phase) (l : Life)
    → at_index l.calls i ≡ some c
    → c.phase ≡ p
    → IsBalanced cap l
    → in_active p ≡ true
    → (q : Phase) → in_active q ≡ true
    → IsBalanced cap (put i (record c { phase = q }) l)
moves-IsBalanced cap i c p l found e b t q u =
    let (s, w, m) = active_phase p t in
    let (s', w', m') = active_phase q u in
    put-IsBalanced cap i c p l found e b (record c { phase = q }) l.held l.wg l.connections_opened
      l.connections_active l.connections_rejected (same_slots cap i c p l found e b q (s ∙ sym s'))
      (omega (arith, ap one_if w, ap one_if w')) (omega (arith, ap one_if t, ap one_if u))
      (member_at cap i c p l found e b ∙ m ∙ sym m')

pub next_step-IsBalanced :
    (cap : Option ℕ) (i : ℕ) (more : Bool) (c : Conn) (p : Phase) (l : Life)
    → at_index l.calls i ≡ some c
    → c.phase ≡ p
    → IsBalanced cap l
    → IsBalanced cap (next_step i more c l p)
unfolding next_step
next_step-IsBalanced cap i more c Lifecycle.started l found e b =
    put-IsBalanced cap i c Lifecycle.started l found e b (record c { phase = Lifecycle.opened })
      (l.held) (l.wg) (add_uint64 l.connections_opened 1) (l.connections_active)
      (l.connections_rejected)
      (same_slots cap i c Lifecycle.started l found e b Lifecycle.opened refl) (omega arith)
      (omega arith) ((member_at cap i c Lifecycle.started l found e b))
next_step-IsBalanced cap i more c Lifecycle.opened l found e b =
    take_slot-IsBalanced cap i c l found e b _ refl
next_step-IsBalanced cap i more c Lifecycle.refused l found e b =
    put-IsBalanced cap i c Lifecycle.refused l found e b
      (record c { phase = Lifecycle.gone; is_closed = true }) (l.held) (l.wg) (l.connections_opened)
      (l.connections_active) (add_uint64 l.connections_rejected 1)
      (same_slots cap i c Lifecycle.refused l found e b Lifecycle.gone refl) (omega arith)
      (omega arith) ((member_at cap i c Lifecycle.refused l found e b))
next_step-IsBalanced cap i more c Lifecycle.admitted l found e b =
    put-IsBalanced cap i c Lifecycle.admitted l found e b (record c { phase = Lifecycle.counted })
      (l.held) (l.wg + 1) (l.connections_opened) (l.connections_active) (l.connections_rejected)
      (same_slots cap i c Lifecycle.admitted l found e b Lifecycle.counted refl) (omega arith)
      (omega arith) ((member_at cap i c Lifecycle.admitted l found e b))
next_step-IsBalanced cap i more c Lifecycle.counted l found e b =
    put-IsBalanced cap i c Lifecycle.counted l found e b
      (record c { phase = Lifecycle.registered; member = true }) (l.held) (l.wg)
      (l.connections_opened) (l.connections_active) (l.connections_rejected)
      (same_slots cap i c Lifecycle.counted l found e b Lifecycle.registered refl) (omega arith)
      (omega arith) (refl)
next_step-IsBalanced cap i more c Lifecycle.registered l found e b =
    put-IsBalanced cap i c Lifecycle.registered l found e b (record c { phase = Lifecycle.top })
      (l.held) (l.wg) (l.connections_opened) (l.connections_active + 1) (l.connections_rejected)
      (same_slots cap i c Lifecycle.registered l found e b Lifecycle.top refl) (omega arith)
      (omega arith) ((member_at cap i c Lifecycle.registered l found e b))
next_step-IsBalanced cap i more c Lifecycle.top l found e b =
    put-IsBalanced cap i c Lifecycle.top l found e b
      (record c {
        phase = Lifecycle.reading;
        deadline = if l.idle_timeout then Lifecycle.idle else c.deadline;
      })
      (l.held) (l.wg) (l.connections_opened) (l.connections_active) (l.connections_rejected)
      (same_slots cap i c Lifecycle.top l found e b Lifecycle.reading refl) (omega arith)
      (omega arith) ((member_at cap i c Lifecycle.top l found e b))
next_step-IsBalanced cap i more c Lifecycle.reading l found e b =
    if_either (λ q. IsBalanced cap (put i (record c { phase = q }) l)) more _ _
      (moves Lifecycle.executing refl) (moves Lifecycle.returned refl)
  where
    moves : (q : Phase) → in_active q ≡ true → IsBalanced cap (put i (record c { phase = q }) l)
    moves = moves-IsBalanced cap i c Lifecycle.reading l found e b refl
next_step-IsBalanced cap i more c Lifecycle.executing l found e b =
    if_either (λ q. IsBalanced cap (put i (record c { phase = q }) l)) more _ _
      (moves Lifecycle.top refl) (moves Lifecycle.returned refl)
  where
    moves : (q : Phase) → in_active q ≡ true → IsBalanced cap (put i (record c { phase = q }) l)
    moves = moves-IsBalanced cap i c Lifecycle.executing l found e b refl
next_step-IsBalanced cap i more c Lifecycle.returned l found e b =
    put-IsBalanced cap i c Lifecycle.returned l found e b
      (record c { phase = Lifecycle.closed; is_closed = true }) (l.held) (l.wg)
      (l.connections_opened) (l.connections_active) (l.connections_rejected)
      (same_slots cap i c Lifecycle.returned l found e b Lifecycle.closed refl) (omega arith)
      (omega arith) ((member_at cap i c Lifecycle.returned l found e b))
next_step-IsBalanced cap i more c Lifecycle.closed l found e b =
    put-IsBalanced cap i c Lifecycle.closed l found e b (record c { phase = Lifecycle.inactive })
      (l.held) (l.wg) (l.connections_opened) (l.connections_active - 1) (l.connections_rejected)
      (same_slots cap i c Lifecycle.closed l found e b Lifecycle.inactive refl) (omega arith)
      (omega (arith, b.active, positive cap i c Lifecycle.closed l found e b in_active refl))
      ((member_at cap i c Lifecycle.closed l found e b))
next_step-IsBalanced cap i more c Lifecycle.inactive l found e b =
    put-IsBalanced cap i c Lifecycle.inactive l found e b
      (record c { phase = Lifecycle.deregistered; member = false }) (l.held) (l.wg)
      (l.connections_opened) (l.connections_active) (l.connections_rejected)
      (same_slots cap i c Lifecycle.inactive l found e b Lifecycle.deregistered refl) (omega arith)
      (omega arith) (refl)
next_step-IsBalanced cap i more c Lifecycle.deregistered l found e b =
    put-IsBalanced cap i c Lifecycle.deregistered l found e b (record c { phase = Lifecycle.done })
      (l.held) (l.wg - 1) (l.connections_opened) (l.connections_active) (l.connections_rejected)
      (same_slots cap i c Lifecycle.deregistered l found e b Lifecycle.done refl)
      (omega (arith, b.waits, positive cap i c Lifecycle.deregistered l found e b in_wait refl))
      (omega arith) ((member_at cap i c Lifecycle.deregistered l found e b))
next_step-IsBalanced cap i more c Lifecycle.done l found e b =
    put-IsBalanced cap i c Lifecycle.done l found e b (record c { phase = Lifecycle.gone })
      (release_slot l.capacity l.held) (l.wg) (l.connections_opened) (l.connections_active)
      (l.connections_rejected) (released cap l b) (omega arith) (omega arith)
      ((member_at cap i c Lifecycle.done l found e b))
next_step-IsBalanced cap i more c Lifecycle.gone l found e b = b
