-- ===== src/Server/Launch.antt =====
-- server.go: `main` up to the point where it serves requests.
pub mod Exposure
pub mod Tied
pub mod Source
pub mod Laws
use goldfish.Prelude.{
  String, Bool, true, false, not, ◌&&◌, Option, none, some, List, [], ◌∷◌, ◌++◌, ◌==◌,
  if◌then◌else◌,
}
use goldfish.Types.{AuthInfo, empty_config}
use goldfish.World.{World, Client}
use goldfish.Exec.{State, Server, Flow, done, exit, panic, Exec, modify, ◌>>=◌, ◌>>◌}
use goldfish.Vault.Start.{start_goldfish_wrapper, load_runtime_config}
use goldfish.Config.{Config, ListenerConfig, Library, Outcome, parsed, failed, blocked, crashed}
use goldfish.Config.Parse.{load_config_file}
use goldfish.Config.Dev.{load_config_dev}

-- The command line.
pub record Flags : Type 0 where
  pub dev_mode : Bool
  pub print_version : Bool
  pub wrapping_token : String
  pub cfg_path : String

-- What is hung in front of the handlers, in the order of its calls. `csrf` has its key, and whether
-- its cookie is for https only; `secure` sets the security headers.
pub data Middleware : Type 0 where
  logger recover : Middleware
  csrf : String → Bool → Middleware
  secure : Middleware
  -- with the status 301
  https_redirect : Middleware

-- The listener: http at an address, https at port 443 with certificates of Let's Encrypt, or https at
-- an address with the files of a certificate and a key.
pub data Listen : Type 0 where
  http : String → Listen
  auto_tls : Listen
  tls : String → String → String → Listen

pub record Web : Type 0 where
  pub middleware : List Middleware
  -- the redirect in front of the router, with a second listener at port 80
  pub redirects : Bool
  -- the host for which certificates may be fetched
  pub host_policy : Option String
  pub listen : Listen

-- How `main` goes on. `serving` has the state at the moment when the listener starts.
pub data Launch : Type 0 where
  exited panicked hangs : Launch
  serving : Web → State → Launch

-- The package variables at the start. The client is nil; nothing reads it before it is assigned.
abbrev pub initial : State
initial = record {
  server = record {
    vault_address = "";
    vault_skip_tls = false;
    vault_token = "";
    vault_client = record { address = ""; skip_tls = false; token = ""; wrap_ttl = none };
    config = empty_config;
    config_hash = 0;
    github_current_commit = "";
  };
  auth = record { type = ""; id = ""; pass = "" };
  headers = [];
  trace = [];
}

-- neither of the files is given
unfoldable pub no_files : ListenerConfig → Bool
no_files l = l.tls_cert_file == "" && l.tls_key_file == ""

unfoldable pub listen_of : ListenerConfig → Listen
unfolding no_files
listen_of l =
    if l.tls_disable
    then http l.address
    else if no_files l
    then auto_tls
    else tls l.address l.tls_cert_file l.tls_key_file

-- The echo server that is set up, with the key of its CSRF protection.
unfoldable pub web_of : String → ListenerConfig → Web
unfolding listen_of no_files
web_of key l = record {
  middleware =
      (logger ∷ recover ∷ csrf key (not l.tls_disable) ∷ [])
      ++ (if l.tls_disable then [] else secure ∷ (if no_files l then https_redirect ∷ [] else []));
  redirects = not l.tls_disable && l.tls_autoredirect;
  host_policy = if not l.tls_disable && no_files l then some l.address else none;
  listen = listen_of l;
}

abbrev pub set_vault : Config → State → State
set_vault cfg s = record s {
  server = record s.server {
    vault_address = cfg.vault.address;
    vault_skip_tls = cfg.vault.tls_skip_verify;
  };
}

abbrev pub from_flow : {A : Type 0} → Flow String A → Outcome A
from_flow (done a) = parsed a
from_flow (exit e) = failed e
from_flow panic = crashed

abbrev pub with_token : String → Outcome Config → Outcome (Config × String)
with_token token (parsed cfg) = parsed (cfg, token)
with_token token (failed e) = failed e
with_token token blocked = blocked
with_token token crashed = crashed

module _ ⦃w : World⦄ where
  -- Vault is reached, and the run-time settings are read.
  unfoldable pub hook_up : Config → String → Exec String Unit
  hook_up cfg token = do
    modify (set_vault cfg)
    start_goldfish_wrapper token cfg.vault.approle_login cfg.vault.approle_id
    load_runtime_config cfg.vault.runtime_config

  unfoldable pub serve_if : Config → Flow String Unit × State → Launch
  serve_if cfg (done _, s) = serving (web_of (w.random_key s.trace 32) cfg.listener) s
  serve_if cfg (_, s) = panicked

module _ ⦃w : World⦄ ⦃lib : Library⦄ where
  -- The configuration and the wrapping token.
  unfoldable pub load_config : Flags → State → Outcome (Config × String) × State
  load_config flags s =
      if flags.dev_mode
      then (let (r, s') = load_config_dev s in (from_flow r, s'))
      else (with_token flags.wrapping_token (load_config_file flags.cfg_path), s)

  -- `main` behind the loading of the configuration
  unfoldable pub launch : Outcome (Config × String) × State → Launch
  unfolding serve_if
  launch (parsed (cfg, token), s) = serve_if cfg (hook_up cfg token s)
  launch (blocked, s) = hangs
  launch (_, s) = panicked

  unfoldable pub main : Flags → Launch
  unfolding launch load_config
  main flags = if flags.print_version then exited else launch (load_config flags initial)
