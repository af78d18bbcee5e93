-- ===== src/Server/Lifecycle/Counts.antt =====
-- internal/server/server.go: the calls of `ServeConn` by their phases.
use mini_key_value_store.Prelude.{
  ℕ, zero, suc, ◌+◌, ◌≤◌, Bool, true, false, some, List, [], ◌∷◌, ◌++◌, map, All, ◌≡◌, refl, ap,
  arith,
}
use mini_key_value_store.Store.{at_index, set_index}
use mini_key_value_store.Server.Lifecycle
use mini_key_value_store.Server.Lifecycle.{Phase, Conn}

-- The phases in which a call has a slot, counts in the wait group, is a member of `conns`, and counts as
-- active.
abbrev pub in_slot : Phase → Bool
in_slot Lifecycle.started = false
in_slot Lifecycle.opened = false
in_slot Lifecycle.refused = false
in_slot Lifecycle.gone = false
in_slot _ = true

abbrev pub in_wait : Phase → Bool
in_wait Lifecycle.started = false
in_wait Lifecycle.opened = false
in_wait Lifecycle.refused = false
in_wait Lifecycle.admitted = false
in_wait Lifecycle.done = false
in_wait Lifecycle.gone = false
in_wait _ = true

abbrev pub in_conns : Phase → Bool
in_conns Lifecycle.started = false
in_conns Lifecycle.opened = false
in_conns Lifecycle.refused = false
in_conns Lifecycle.admitted = false
in_conns Lifecycle.counted = false
in_conns Lifecycle.deregistered = false
in_conns Lifecycle.done = false
in_conns Lifecycle.gone = false
in_conns _ = true

abbrev pub in_active : Phase → Bool
in_active Lifecycle.top = true
in_active Lifecycle.reading = true
in_active Lifecycle.executing = true
in_active Lifecycle.returned = true
in_active Lifecycle.closed = true
in_active _ = false

abbrev pub one_if : Bool → ℕ
one_if true = 1
one_if false = 0

-- How many calls are in such a phase.
abbrev pub count : (Phase → Bool) → List Conn → ℕ
count p [] = 0
count p (c ∷ cs) = one_if (p c.phase) + count p cs

pub count-append :
    (p : Phase → Bool) (xs ys : List Conn) → count p (xs ++ ys) ≡ count p xs + count p ys
count-append p [] ys = omega arith
count-append p (x ∷ xs) ys = omega (arith, count-append p xs ys)

pub count-set_index :
    (p : Phase → Bool) (xs : List Conn) (i : ℕ) (c c' : Conn)
    → at_index xs i ≡ some c
    → count p (set_index xs i c') + one_if (p c.phase) ≡ count p xs + one_if (p c'.phase)
unfolding at_index set_index
count-set_index p [] i c c' e = absurd (cc)
count-set_index p (x ∷ xs) zero c c' e =
    let q : x ≡ c = cc in omega (arith, ap (λ (d : Conn). one_if (p d.phase)) q)
count-set_index p (x ∷ xs) (suc i) c c' e = omega (arith, count-set_index p xs i c c' e)

-- A change of the calls that keeps their phases.
pub count-map :
    (p : Phase → Bool) (f : Conn → Conn)
    → ((c : Conn) → (f c).phase ≡ c.phase)
    → (xs : List Conn) → count p (map f xs) ≡ count p xs
count-map p f keeps [] = refl
count-map p f keeps (x ∷ xs) =
    omega (arith, count-map p f keeps xs, ap (λ q. one_if (p q)) (keeps x))

pub count-le :
    (p : Phase → Bool) (xs : List Conn) (i : ℕ) (c : Conn)
    → at_index xs i ≡ some c
    → one_if (p c.phase) ≤ count p xs
unfolding at_index
count-le p [] i c e = absurd (cc)
count-le p (x ∷ xs) zero c e =
    let q : x ≡ c = cc in omega (arith, ap (λ (d : Conn). one_if (p d.phase)) q)
count-le p (x ∷ xs) (suc i) c e = omega (arith, count-le p xs i c e)

-- An active call has a slot, is waited for and is a member of `conns`.
pub active_phase :
    (p : Phase) → in_active p ≡ true → (in_slot p ≡ true) × (in_wait p ≡ true) × (in_conns p ≡ true)
active_phase Lifecycle.top t = (refl, refl, refl)
active_phase Lifecycle.reading t = (refl, refl, refl)
active_phase Lifecycle.executing t = (refl, refl, refl)
active_phase Lifecycle.returned t = (refl, refl, refl)
active_phase Lifecycle.closed t = (refl, refl, refl)
active_phase Lifecycle.started t = absurd (cc)
active_phase Lifecycle.opened t = absurd (cc)
active_phase Lifecycle.refused t = absurd (cc)
active_phase Lifecycle.admitted t = absurd (cc)
active_phase Lifecycle.counted t = absurd (cc)
active_phase Lifecycle.registered t = absurd (cc)
active_phase Lifecycle.inactive t = absurd (cc)
active_phase Lifecycle.deregistered t = absurd (cc)
active_phase Lifecycle.done t = absurd (cc)
active_phase Lifecycle.gone t = absurd (cc)

-- None is in such a phase.
pub count-zero :
    (p : Phase → Bool) (xs : List Conn) → count p xs ≡ 0 → All (λ c. p c.phase ≡ false) xs
count-zero p [] e = tt
count-zero p (x ∷ xs) e = (first (p x.phase) (omega (arith, e)), count-zero p xs (omega (arith, e)))
  where
    first : (t : Bool) → one_if t ≡ 0 → t ≡ false
    first true e = absurd (omega (arith, e))
    first false e = refl

-- A call that is not waited for is not registered.
pub not_listed : (p : Phase) → in_wait p ≡ false → in_conns p ≡ false
not_listed Lifecycle.started t = refl
not_listed Lifecycle.opened t = refl
not_listed Lifecycle.refused t = refl
not_listed Lifecycle.admitted t = refl
not_listed Lifecycle.counted t = refl
not_listed Lifecycle.deregistered t = refl
not_listed Lifecycle.done t = refl
not_listed Lifecycle.gone t = refl
not_listed Lifecycle.registered t = absurd (cc)
not_listed Lifecycle.top t = absurd (cc)
not_listed Lifecycle.reading t = absurd (cc)
not_listed Lifecycle.executing t = absurd (cc)
not_listed Lifecycle.returned t = absurd (cc)
not_listed Lifecycle.closed t = absurd (cc)
not_listed Lifecycle.inactive t = absurd (cc)
