-- ===== src/Minikv.antt =====
-- cmd/minikv/main.go: the configuration that the command starts with, and what it builds of it. The
-- file system, the network and the certificates are parameters.

pub mod Accept
pub mod Cleanup
pub mod Doctor
pub mod Safe
use mini_key_value_store.Prelude.{
  ℕ, Bool, true, false, not, ◌&&◌, Bytes, [], ◌∷◌, if◌then◌else◌, Outcome, returns, fails, and_then,
  wrap_error,
}
use mini_key_value_store.Store
use mini_key_value_store.Server.{Server, new_server, with_auth_token}
use mini_key_value_store.Config.{Config, is_empty, tls_enabled}
use mini_key_value_store.Config.Scanner.{File, token_too_long, read_failed}
use mini_key_value_store.Config.Load.{
  LoadError, load, open_failed, expected_key_value, bad_field, scan_failed, invalid,
}

abbrev pub default_config_path : Bytes
default_config_path =
    b'm' ∷ b'i' ∷ b'n' ∷ b'i' ∷ b'k' ∷ b'v' ∷ b'.' ∷ b'c' ∷ b'o' ∷ b'n' ∷ b'f' ∷ []

-- The errors of `loadConfig`.
pub data StartError (E : Type 0) : Type 0 where
  no_default_file : StartError E
  load_error : LoadError E → StartError E

-- `errors.Is(err, os.ErrNotExist)` for an error of `Load`, by the same test of the errors of the
-- file system.
abbrev pub is_missing : {E : Type 0} → (E → Bool) → LoadError E → Bool
is_missing not_exist (open_failed e) = not_exist e
is_missing not_exist (expected_key_value n) = false
is_missing not_exist (bad_field n e) = false
is_missing not_exist (scan_failed token_too_long) = false
is_missing not_exist (scan_failed (read_failed e)) = not_exist e
is_missing not_exist (invalid e) = false

abbrev pub start_error : {E : Type 0} → (E → Bool) → Bool → LoadError E → StartError E
start_error not_exist explicit e =
    if is_missing not_exist e && not explicit then no_default_file else load_error e

-- `loadConfig`, with the value of the flag.
unfoldable pub load_config :
    {E : Type 0} → (Bytes → Outcome E (File E)) → (E → Bool) → Bytes → Outcome (StartError E) Config
unfolding load
load_config open_file not_exist path =
    let explicit = not (is_empty path) in
    let resolved = if explicit then path else default_config_path in
    wrap_error (start_error not_exist explicit) (load (open_file resolved))

-- The configuration of the store that `run` builds.
unfoldable pub store_config : Config → Store.Config.Config
store_config cfg = record {
  max_value_bytes = cfg.max_value_bytes;
  max_memory_bytes = cfg.max_memory_bytes;
  item_overhead_bytes = cfg.item_overhead_bytes;
  shards = cfg.shards;
}

-- The server that `run` builds on its store.
abbrev pub build_server : Config → Store.Store → Server
build_server cfg kv = with_auth_token cfg.auth_token (new_server kv)

pub data Scheme : Type 0 where
  tcp tls : Scheme

pub data ListenError (E : Type 0) : Type 0 where
  keypair_failed listen_failed : E → ListenError E

-- `net.Listen`, `tls.LoadX509KeyPair` and `tls.Listen`, for listeners `L` and certificates `C`.
pub record Network (E L C : Type 0) : Type 0 where
  pub listen_tcp : Bytes → Outcome E L
  pub load_keypair : Bytes → Bytes → Outcome E C
  pub listen_tls : C → Bytes → Outcome E L

abbrev pub listen_plain :
    {E L C : Type 0} → Network E L C → Bytes → Outcome (ListenError E) (L × Scheme)
listen_plain net addr =
    and_then (wrap_error listen_failed (net.listen_tcp addr)) (λ l. returns (l, tcp))

abbrev pub listen_secure :
    {E L C : Type 0} → Network E L C → Bytes → C → Outcome (ListenError E) (L × Scheme)
listen_secure net addr cert =
    and_then (wrap_error listen_failed (net.listen_tls cert addr)) (λ l. returns (l, tls))

unfoldable pub listen :
    {E L C : Type 0} → Network E L C → Config → Outcome (ListenError E) (L × Scheme)
unfolding tls_enabled
listen net cfg =
    if not (tls_enabled cfg)
    then listen_plain net cfg.addr
    else and_then (wrap_error keypair_failed (net.load_keypair cfg.tls_cert cfg.tls_key))
        (listen_secure net cfg.addr)
