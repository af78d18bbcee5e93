-- ===== src/Minikv/Doctor.antt =====
-- cmd/minikv/main.go: `doctorHandler`, without the texts of its lines.
use mini_key_value_store.Prelude.{
  ℕ, ◌+◌, ◌*◌, ◌-◌, ◌%◌, ◌<◌, Bool, true, false, Option, none, some, List, [], ◌∷◌, length, ◌≡◌,
  ◌⊎◌, inl, inr, refl, ap, ltb, ◌==◌, if◌then◌else◌, if_either, arith, lt→ltb,
}
use mini_key_value_store.Shard.Repr.{Limits}
use mini_key_value_store.Store.{Store, Stats, stats}
use mini_key_value_store.Store.Valid.{IsValid}
use mini_key_value_store.Store.Totals.{sum, stats_totals}
use mini_key_value_store.Config.{second}
use mini_key_value_store.Config.Float.{Float, float, divide, round}

-- A line of the body, with the number that its text shows.
pub data Line : Type 0 where
  memory_pressure : Float → Line
  shard_balance : Float → Line
  few_items : ℕ → Line
  uptime : ℕ → Line

pub record Report : Type 0 where
  pub status : ℕ
  pub failures : List Line
  pub ok : List Line

-- `x > y` on floats
unfoldable pub exceeds : Float → Float → Bool
exceeds x y = ltb (y.num * x.den) (x.num * y.den)

unfoldable pub pressure : Stats → Float
unfolding divide float
pressure st =
    if ltb 0 st.max_memory_bytes
    then divide (float st.memory_bytes) (float st.max_memory_bytes)
    else float 0

-- The least and the greatest number of the items of a shard, from those so far.
unfoldable pub min_items : ℕ → List ℕ → ℕ
min_items least [] = least
min_items least (n ∷ ns) = min_items (if ltb n least then n else least) ns

unfoldable pub max_items : ℕ → List ℕ → ℕ
max_items most [] = most
max_items most (n ∷ ns) = max_items (if ltb most n then n else most) ns

unfoldable pub ratio : ℕ → List ℕ → Float
unfolding min_items max_items divide float
ratio n ns =
    let least = min_items n (n ∷ ns) in
    divide (float (max_items n (n ∷ ns))) (float (if least == 0 then 1 else least))

-- A check is a failure, or not, with its line.
abbrev pub pressure_check : Stats → Bool × Line
pressure_check st = (exceeds (pressure st) (round 95 100), memory_pressure (pressure st))

-- `none` is the panic of an index out of range, for the first shard of none.
unfoldable pub balance_of : ℕ → List ℕ → Option (Bool × Line)
unfolding ratio exceeds
balance_of items [] = if ltb items 100 then some (false, few_items items) else none
balance_of items (n ∷ ns) =
    if ltb items 100
    then some (false, few_items items)
    else some (exceeds (ratio n ns) (float 4), shard_balance (ratio n ns))

-- `Duration.Round(time.Second)` of a duration that is not negative
unfoldable pub round_second : ℕ → ℕ
round_second d = let r = d % second in if ltb (r + r) second then d - r else d - r + second

abbrev pub failed : List (Bool × Line) → List Line
failed [] = []
failed ((true, line) ∷ checks) = line ∷ failed checks
failed ((false, line) ∷ checks) = failed checks

abbrev pub passed : List (Bool × Line) → List Line
passed [] = []
passed ((true, line) ∷ checks) = passed checks
passed ((false, line) ∷ checks) = line ∷ passed checks

abbrev pub status_of : List Line → ℕ
status_of [] = 200
status_of (l ∷ ls) = 503

abbrev pub report : List (Bool × Line) → Report
report checks = record {
  status = status_of (failed checks);
  failures = failed checks;
  ok = passed checks;
}

abbrev with_balance : ℕ → Stats → Option (Bool × Line) → Option Report
with_balance up st none = none
with_balance up st (some balance) =
    some (report (pressure_check st ∷ balance ∷ (false, uptime (round_second up)) ∷ []))

unfoldable pub doctor : ℕ → Stats → Option Report
unfolding pressure balance_of round_second
doctor up st = with_balance up st (balance_of st.items st.items_per_shard)

balance_of-some :
    (items : ℕ) (per : List ℕ)
    → items ≡ sum per
    → (b : Bool × Line) × (balance_of items per ≡ some b)
unfolding balance_of
balance_of-some items [] e =
    ((false, few_items items), rw (lt→ltb items 100 (omega (arith, e))) refl)
balance_of-some items (n ∷ ns) e =
    if_either (λ (o : Option (Bool × Line)). (b : Bool × Line) × (o ≡ some b)) (ltb items 100) _ _
      (_, refl) (_, refl)

-- Every check is in the body once.
length-report :
    (checks : List (Bool × Line)) → length (failed checks) + length (passed checks) ≡ length checks
length-report [] = omega arith
length-report ((true, line) ∷ checks) = omega (arith, length-report checks)
length-report ((false, line) ∷ checks) = omega (arith, length-report checks)

abbrev IsStatus : ℕ → List Line → Type 0
IsStatus status failures =
    ((status ≡ 200) × (length failures ≡ 0)) ⊎ ((status ≡ 503) × (0 < length failures))

status_of_lem : (failures : List Line) → IsStatus (status_of failures) failures
status_of_lem [] = inl (refl, refl)
status_of_lem (l ∷ ls) = inr (refl, omega arith)

-- On the statistics of a valid store, the doctor answers without a panic and with three lines, and
-- gives the status 200 if no check failed and 503 if one did.
pub doctor-IsValid :
    (lim : Limits) (n : ℕ) (s : Store) (up : ℕ)
    → IsValid lim n s
    → (r : Report) × (doctor up (stats s) ≡ some r)
      × (length r.failures + length r.ok ≡ 3)
      × (((r.status ≡ 200) × (length r.failures ≡ 0))
          ⊎ ((r.status ≡ 503) × (0 < length r.failures)))
unfolding doctor
doctor-IsValid lim n s up v =
    let (_, _, _, items, _, _, _) = stats_totals lim n s v in
    let (b, e) = balance_of-some (stats s).items (stats s).items_per_shard items in
    let checks = pressure_check (stats s) ∷ b ∷ (false, uptime (round_second up)) ∷ [] in
    (
      report checks,
      ap (with_balance up (stats s)) e,
      length-report checks,
      status_of_lem (failed checks),
    )
