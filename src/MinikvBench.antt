-- ===== src/MinikvBench.antt =====
-- cmd/minikv-bench/main.go: the services that a benchmark runs on. What a service is made of is a
-- parameter.
use mini_key_value_store.Prelude.{
  subst, ℕ, Option, none, some, List, [], ◌∷◌, ◌++◌, Bytes, bytes_discrete, All, ◌==◌,
  if◌then◌else◌, ◌≡◌, ◌≢◌, refl, sym, ap, ◌∙◌, arith, Outcome, returns, fails, and_then, Bool-cases,
  inl, inr,
}
use mini_key_value_store.Table
use mini_key_value_store.Table.{Table}
use mini_key_value_store.Config.Text.{trim_space}

-- `strings.Split(raw, ",")`
abbrev put_head : ℕ → List Bytes → List Bytes
put_head b [] = (b ∷ []) ∷ []
put_head b (token ∷ tokens) = (b ∷ token) ∷ tokens

unfoldable pub split : Bytes → List Bytes
split [] = [] ∷ []
split (b ∷ bs) = let rest = split bs in if b == b',' then [] ∷ rest else put_head b rest

pub data SelectError : Type 0 where
  unknown_service : Bytes → SelectError
  no_service : SelectError

-- The names among the tokens.
abbrev pub add_name : Bytes → List Bytes → List Bytes
add_name [] names = names
add_name (b ∷ bs) names = (b ∷ bs) ∷ names

abbrev pub names_of : List Bytes → List Bytes
names_of [] = []
names_of (token ∷ tokens) = add_name (trim_space token) (names_of tokens)

module _ {S : Type 0} where
  -- The loop of `selectServices`, on a token that is trimmed and on the tokens.
  abbrev pub select_name :
      (List S → Outcome SelectError (List S))
      → Table Bytes S
      → List S
      → Bytes
      → Outcome SelectError (List S)
  select_name rest registry selected [] = rest selected
  select_name rest registry selected (b ∷ bs) =
      elim (Table.lookup bytes_discrete (b ∷ bs) registry) [
        | none ↦ fails (unknown_service (b ∷ bs))
        | some svc ↦ rest (selected ++ svc ∷ [])
      ]

  unfoldable pub select_from : Table Bytes S → List Bytes → List S → Outcome SelectError (List S)
  select_from registry [] selected = returns selected
  select_from registry (token ∷ tokens) selected =
      select_name (select_from registry tokens) registry selected (trim_space token)

  abbrev pub at_least_one : List S → Outcome SelectError (List S)
  at_least_one [] = fails no_service
  at_least_one (svc ∷ selected) = returns (svc ∷ selected)

  unfoldable pub select_services : Bytes → Table Bytes S → Outcome SelectError (List S)
  unfolding split select_from
  select_services raw registry = and_then (select_from registry (split raw) []) at_least_one

  -- The service of each name in the registry.
  abbrev pub services_of : Table Bytes S → List Bytes → Outcome SelectError (List S)
  services_of registry [] = returns []
  services_of registry (name ∷ names) = elim (Table.lookup bytes_discrete name registry) [
    | none ↦ fails (unknown_service name)
    | some svc ↦ and_then (services_of registry names) (λ rest. returns (svc ∷ rest))
  ]

  append-cons : (xs : List S) (x : S) (ys : List S) → (xs ++ x ∷ []) ++ ys ≡ xs ++ x ∷ ys
  append-cons [] x ys = refl
  append-cons (a ∷ xs) x ys = ap (◌∷◌ a) (append-cons xs x ys)

  append-nil : (xs : List S) → xs ++ [] ≡ xs
  append-nil [] = refl
  append-nil (x ∷ xs) = ap (◌∷◌ x) (append-nil xs)

  -- The services after those that are selected.
  abbrev after : List S → Outcome SelectError (List S) → Outcome SelectError (List S)
  after selected o = and_then o (λ rest. returns (selected ++ rest))

  module _ (registry : Table Bytes S) where
    after-cons :
        (selected : List S) (svc : S) (o : Outcome SelectError (List S))
        → after (selected ++ svc ∷ []) o
          ≡ after selected (and_then o (λ rest. returns (svc ∷ rest)))
    after-cons selected svc (fails e) = refl
    after-cons selected svc (returns rest) = ap returns (append-cons selected svc rest)

    select_name-services :
        (tokens : List Bytes) (selected : List S) (name : Bytes)
        → ((sel : List S)
            → select_from registry tokens sel ≡ after sel (services_of registry (names_of tokens)))
        → select_name (select_from registry tokens) registry selected name
          ≡ after selected (services_of registry (add_name name (names_of tokens)))
    select_name-services tokens selected [] h = h selected
    select_name-services tokens selected (b ∷ bs) h =
        by_lookup (Table.lookup bytes_discrete (b ∷ bs) registry)
      where
        by_lookup :
            (o : Option S)
            → (elim o as (λ _. Outcome SelectError (List S)) [
              | none ↦ fails (unknown_service (b ∷ bs))
              | some svc ↦ select_from registry tokens (selected ++ svc ∷ [])
            ])
              ≡ after selected (elim o as (λ _. Outcome SelectError (List S)) [
                | none ↦ fails (unknown_service (b ∷ bs))
                | some svc ↦
                    and_then (services_of registry (names_of tokens)) (λ rest. returns (svc ∷ rest))
              ])
        by_lookup none = refl
        by_lookup (some svc) =
            h (selected ++ svc ∷ [])
            ∙ after-cons selected svc (services_of registry (names_of tokens))

    select_from-services :
        (tokens : List Bytes) (selected : List S)
        → select_from registry tokens selected
          ≡ after selected (services_of registry (names_of tokens))
    unfolding select_from
    select_from-services [] selected = ap returns (sym (append-nil selected))
    select_from-services (token ∷ tokens) selected =
        select_name-services tokens selected (trim_space token) (select_from-services tokens)

-- The tokens with commas between them.
abbrev pub join : List Bytes → Bytes
join [] = []
join (token ∷ []) = token
join (token ∷ next ∷ tokens) = token ++ b',' ∷ join (next ∷ tokens)

join-put_head :
    (b : ℕ) (token : Bytes) (tokens : List Bytes)
    → join (put_head b (token ∷ tokens)) ≡ b ∷ join (token ∷ tokens)
join-put_head b token [] = refl
join-put_head b token (next ∷ tokens) = refl

-- `split` takes a text apart at its commas, and nowhere else.
split-tokens :
    (raw : Bytes)
    → (token : Bytes) × (tokens : List Bytes) × (split raw ≡ token ∷ tokens)
      × (join (token ∷ tokens) ≡ raw)
      × All (All (λ b. b ≢ b',')) (token ∷ tokens)
unfolding split
split-tokens [] = ([], [], refl, refl, (tt, tt))
split-tokens (b ∷ bs) =
    let (token, tokens, e, j, a) = split-tokens bs in
    elim (Bool-cases (b == b',')) [
      | inl t ↦
          let comma : b ≡ b',' = ground arith in
          (
            [],
            token ∷ tokens,
            rw t (ap (◌∷◌ []) e),
            ap (◌∷◌ b',') j ∙ ap (λ x. x ∷ bs) (sym comma),
            (tt, a),
          )
      | inr t ↦
          let other : b ≢ b',' = ground arith in
          (
            b ∷ token,
            tokens,
            rw t (ap (put_head b) e),
            join-put_head b token tokens ∙ ap (◌∷◌ b) j,
            ((other, a.0), a.1),
          )
    ]

module _ {S : Type 0} where
  after-nil : (o : Outcome SelectError (List S)) → after [] o ≡ o
  after-nil (fails e) = refl
  after-nil (returns rest) = refl

  -- The tokens of `split` have no commas, and with commas between them they are the text.
  -- `select_services` gives the services of the names among the trimmed tokens, in their order, or
  -- fails at the first name that the registry lacks, or if there is none.
  pub select_services_lem :
      (raw : Bytes) (registry : Table Bytes S)
      → (join (split raw) ≡ raw)
        × All (All (λ b. b ≢ b',')) (split raw)
        × (select_services raw registry
            ≡ and_then (services_of registry (names_of (split raw))) (λ chosen.
              elim chosen as (λ _. Outcome SelectError (List S)) [
                | [] ↦ fails no_service
                | svc ∷ rest ↦ returns (svc ∷ rest)
              ]))
  unfolding select_services
  select_services_lem raw registry =
      let (token, tokens, e, j, a) = split-tokens raw in
      (
        ap join e ∙ j,
        subst (All (All (λ b. b ≢ b','))) (sym e) a,
        ap (λ o. and_then o at_least_one)
            (select_from-services registry (split raw) []
              ∙ after-nil (services_of registry (names_of (split raw)))),
      )
