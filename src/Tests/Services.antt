-- ===== src/Tests/Services.antt =====
-- Examples of the services that a benchmark runs on.
use mini_key_value_store.Prelude.{
  ℕ, List, [], ◌∷◌, Bytes, All, Outcome, returns, fails, and_then, ◌≡◌, ◌≢◌, refl,
}
use mini_key_value_store.Table.{Table}
use mini_key_value_store.Tests.{key_a, key_b, key_c}
use mini_key_value_store.MinikvBench.{
  join, split, names_of, services_of, at_least_one, select_services, unknown_service, no_service,
  select_services_lem,
}

abbrev services : Table Bytes ℕ
services = (key_a, 1) ∷ (key_b, 2) ∷ []

abbrev two_tokens : Bytes
two_tokens = b'b' ∷ b',' ∷ b' ' ∷ b'a' ∷ []

two_services : select_services two_tokens services ≡ returns (2 ∷ 1 ∷ [])
unfolding select_services mini_key_value_store.Config.Text.trim_space
    mini_key_value_store.Protocol.Fields.space_width mini_key_value_store.Table.lookup
    mini_key_value_store.Prelude.bytes_discrete mini_key_value_store.Prelude.ℕ_discrete
two_services = refl

stranger : select_services (b'a' ∷ b',' ∷ key_c) services ≡ fails (unknown_service key_c)
unfolding select_services mini_key_value_store.Config.Text.trim_space
    mini_key_value_store.Protocol.Fields.space_width mini_key_value_store.Table.lookup
    mini_key_value_store.Prelude.bytes_discrete mini_key_value_store.Prelude.ℕ_discrete
stranger = refl

commas_only : select_services (b',' ∷ b' ' ∷ []) services ≡ fails no_service
unfolding select_services mini_key_value_store.Config.Text.trim_space
    mini_key_value_store.Protocol.Fields.space_width mini_key_value_store.Table.lookup
    mini_key_value_store.Prelude.bytes_discrete mini_key_value_store.Prelude.ℕ_discrete
commas_only = refl

select_services_lem_example :
    (join (split two_tokens) ≡ two_tokens)
    × All (All (λ b. b ≢ b',')) (split two_tokens)
    × (select_services two_tokens services
        ≡ and_then (services_of services (names_of (split two_tokens))) at_least_one)
select_services_lem_example = select_services_lem two_tokens services
