-- ===== src/Server/Shutdown.antt =====
-- internal/server/server.go: `Shutdown`, which waits for the connections that are served.
use mini_key_value_store.Prelude.{
  ℕ, ℕ_discrete, List, [], ◌∷◌, erase, Distinct, ◌<◌, Fresh, All, ◌≡◌, refl, sym, ◌⊎◌, inl, inr,
  if_pos, if_neg, subst, length, arith,
}

-- A connection that was served ends, or the context of the shutdown expires.
pub data Event : Type 0 where
  finishes : ℕ → Event
  expires : Event

-- `Shutdown` still waits for connections, or returns nil or the error of the context; with the
-- connections that it closes.
pub data Shutdown : Type 0 where
  waits : List ℕ → List ℕ → Shutdown
  clean : Shutdown
  forced : List ℕ → Shutdown

-- After the context expired: `closed` are the connections that `Shutdown` closed then.
unfoldable pub wait_closed : List ℕ → List ℕ → List Event → Shutdown
wait_closed closed [] es = forced closed
wait_closed closed (c ∷ cs) [] = waits closed (c ∷ cs)
wait_closed closed (c ∷ cs) (finishes id ∷ es) =
    wait_closed closed (erase ℕ_discrete id (c ∷ cs)) es
wait_closed closed (c ∷ cs) (expires ∷ es) = wait_closed closed (c ∷ cs) es

-- `Shutdown`, with the connections that are registered: each gets a deadline in the past first, so
-- that its reads fail.
unfoldable pub shutdown : List ℕ → List Event → Shutdown
unfolding wait_closed
shutdown [] es = clean
shutdown (c ∷ cs) [] = waits [] (c ∷ cs)
shutdown (c ∷ cs) (finishes id ∷ es) = shutdown (erase ℕ_discrete id (c ∷ cs)) es
shutdown (c ∷ cs) (expires ∷ es) = wait_closed (c ∷ cs) (c ∷ cs) es

-- The connection ends among the events.
abbrev pub Finishes : List Event → ℕ → Type 0
Finishes [] id = ⊥
Finishes (finishes other ∷ es) id = (id ≡ other) ⊎ Finishes es id
Finishes (expires ∷ es) id = Finishes es id

others-Finish :
    (id : ℕ) (es : List Event) (cs : List ℕ)
    → Fresh id cs
    → All (Finishes (finishes id ∷ es)) cs
    → All (Finishes es) cs
others-Finish id es [] f h = tt
others-Finish id es (c ∷ cs) f h =
    (elim h.0 [ inl e ↦ absurd (f.0 (sym e)) | inr g ↦ g ], others-Finish id es cs f.1 h.1)

Finishes-erase :
    (id : ℕ) (es : List Event) (cs : List ℕ)
    → Distinct cs
    → All (Finishes (finishes id ∷ es)) cs
    → All (Finishes es) (erase ℕ_discrete id cs)
Finishes-erase id es [] d h = tt
Finishes-erase id es (c ∷ cs) d h = elim (ℕ_discrete id c) [
  | yes e ↦
      subst (All (Finishes es)) (sym (if_pos (ℕ_discrete id c) e cs (c ∷ erase ℕ_discrete id cs)))
        (others-Finish id es cs (subst (λ k. Fresh k cs) (sym e) d.0) h.1)
  | no n ↦
      let first : Finishes es c = elim h.0 [ inl e ↦ absurd (n (sym e)) | inr g ↦ g ] in
      subst (All (Finishes es)) (sym (if_neg (ℕ_discrete id c) n cs (c ∷ erase ℕ_discrete id cs)))
        (first, Finishes-erase id es cs d.1 h.1)
]

Fresh-erase : (x id : ℕ) (cs : List ℕ) → Fresh x cs → Fresh x (erase ℕ_discrete id cs)
Fresh-erase x id [] f = tt
Fresh-erase x id (c ∷ cs) f = elim (ℕ_discrete id c) [
  | yes e ↦ subst (Fresh x) (sym (if_pos (ℕ_discrete id c) e cs (c ∷ erase ℕ_discrete id cs))) f.1
  | no n ↦
      subst (Fresh x) (sym (if_neg (ℕ_discrete id c) n cs (c ∷ erase ℕ_discrete id cs)))
        (f.0, Fresh-erase x id cs f.1)
]

erase-Distinct : (id : ℕ) (cs : List ℕ) → Distinct cs → Distinct (erase ℕ_discrete id cs)
erase-Distinct id [] d = tt
erase-Distinct id (c ∷ cs) d = elim (ℕ_discrete id c) [
  | yes e ↦ subst Distinct (sym (if_pos (ℕ_discrete id c) e cs (c ∷ erase ℕ_discrete id cs))) d.1
  | no n ↦
      subst Distinct (sym (if_neg (ℕ_discrete id c) n cs (c ∷ erase ℕ_discrete id cs)))
        (Fresh-erase c id cs d.0, erase-Distinct id cs d.1)
]

wait_closed-forced :
    (closed cs : List ℕ) (es : List Event)
    → Distinct cs
    → All (Finishes es) cs
    → wait_closed closed cs es ≡ forced closed
unfolding wait_closed
wait_closed-forced closed [] es d h = refl
wait_closed-forced closed (c ∷ cs) [] d h = absurd h.0
wait_closed-forced closed (c ∷ cs) (finishes id ∷ es) d h =
    wait_closed-forced closed (erase ℕ_discrete id (c ∷ cs)) es (erase-Distinct id (c ∷ cs) d)
      (Finishes-erase id es (c ∷ cs) d h)
wait_closed-forced closed (c ∷ cs) (expires ∷ es) d h = wait_closed-forced closed (c ∷ cs) es d h

-- The context does not expire.
abbrev pub InTime : List Event → Type 0
InTime [] = Unit
InTime (finishes id ∷ es) = InTime es
InTime (expires ∷ es) = ⊥

-- If each of the registered connections ends sooner or later, then `Shutdown` returns: nil, or,
-- only if its context expires, the error of the context after it has closed the connections that
-- were left, at least one.
pub shutdown-returns :
    (cs : List ℕ) (es : List Event)
    → Distinct cs
    → All (Finishes es) cs
    → (shutdown cs es ≡ clean)
      ⊎ ((¬ InTime es) × (closed : List ℕ) × (shutdown cs es ≡ forced closed) × (0 < length closed))
unfolding shutdown
shutdown-returns [] es d h = inl refl
shutdown-returns (c ∷ cs) [] d h = absurd h.0
shutdown-returns (c ∷ cs) (finishes id ∷ es) d h =
    shutdown-returns (erase ℕ_discrete id (c ∷ cs)) es (erase-Distinct id (c ∷ cs) d)
      (Finishes-erase id es (c ∷ cs) d h)
shutdown-returns (c ∷ cs) (expires ∷ es) d h =
    inr ((λ t. t), c ∷ cs, wait_closed-forced (c ∷ cs) (c ∷ cs) es d h, omega arith)
