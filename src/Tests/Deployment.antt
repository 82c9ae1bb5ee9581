-- ===== src/Tests/Deployment.antt =====
-- Configurations, and starts of the server, with a small library for HCL.
use goldfish.Prelude.{
  ◌≡◌, ◌⊎◌, refl, String, true, false, ◌==◌, Option, none, some, List, [], ◌∷◌, All, if◌then◌else◌,
}
use mathlib.Core.List.{Memᴰ}
use mathlib.Core.Path.{subst}
use goldfish.Json.{get, lookup}
use goldfish.World.{World, Result, ok, err, Effect, Answer, vault, Call, start_vault}
use goldfish.Exec
use goldfish.Exec.{
  State, done, exit, try, perform, lift, deref, expect, require, pure, modify, gets,
}
use goldfish.Vault.Clients.{new_vault_client, call}
use goldfish.Vault.Settings.{check_webhook, update_config, update_if_new, load_config_from_vault}
use goldfish.Vault.Start.{start_goldfish_wrapper, load_runtime_config}
use goldfish.Config
use goldfish.Config.{
  Config, Node, object_list, object_type, other, Items, nil, cons, Item, items, Url, Library,
  parsed, blocked, ◌>>=◌,
}
use goldfish.Config.Parse.{
  parse_config, parse_root, parse_list, check_items, first_key, is_valid, only, parse_listener,
  section_key, section_fields, check_hcl_keys, listener_config, required, switch, redirect,
  parse_vault, vault_config, web_address, to_lower, load_config_file, root_keys,
}
use goldfish.Config.Outcomes.{HasKey, is_valid-mem}
use goldfish.Config.Spec.{IsConfig}
use goldfish.Config.Correct.{parse_config-IsConfig}
use goldfish.Config.Blocks.{IsNamed, parse_config-blocks}
use goldfish.Config.Dev.{
  dev_address, dev_config, init_dev_vault_core, setup_vault, root_client, set_address, set_up,
  generate_wrapped_secret_id, secret_id_client, load_config_dev,
}
use goldfish.Config.Setup.{
  setup_calls, root_of, connected, InOrder, FailedLast, setup_vault-InOrder,
}
use goldfish.Config.Wrapped.{IsDevelopment, load_config_dev-IsDevelopment}
use goldfish.Server.Launch.{
  Flags, Web, serving, initial, web_of, hook_up, serve_if, launch, load_config, main,
}
use goldfish.Server.Launch.Laws.{IsLaunched, main-IsLaunched}
use goldfish.Tests.Sample.{sample, answer}

abbrev assign : String → String → Items → Items
assign key text rest = cons (some key ∷ []) (other "*ast.LiteralType" text) 2 rest

abbrev block : String → String → Items → Items → Items
block section label body rest = cons (some section ∷ some label ∷ []) (object_type body) 0 rest

abbrev good_file : Items
good_file =
    block "listener" "tcp" (assign "address" "127.0.0.1:8000" (assign "tls_disable" "1" nil))
      (block "vault" "vault" (assign "address" "http://127.0.0.1:8200" nil) nil)

abbrev bad_file : Items
bad_file = block "listen" "tcp" nil nil

-- the texts that are assigned
abbrev pairs : Items → List (String × String)
pairs nil = []
pairs (cons (some key ∷ []) (other type text) line rest) = (key, text) ∷ pairs rest
pairs (cons _ _ line rest) = pairs rest

abbrev fields_of : Node → Result (List (String × String))
fields_of (object_type list) = ok (pairs list)
fields_of _ = err "not an object type for map"

abbrev named : String → List (Option String) → Item → List Item → List Item
named key (some k ∷ ks) item rest = if k == key then record item { keys = ks } ∷ rest else rest
named key _ item rest = rest

abbrev filter : String → List Item → List Item
filter key [] = []
filter key (item ∷ rest) = named key item.keys item (filter key rest)

abbrev pub library : Library
library = record {
  parse = λ d. if d == "good" then ok (object_list good_file) else ok (object_list bad_file);
  decode_config = λ node. ok tt;
  decode_map = fields_of;
  filter = filter;
  read_file = λ path. ok "good";
  parse_url = λ text. ok (record { scheme = "http"; text = text });
  lower = λ c. c;
  default_client = record { address = ""; skip_tls = false; token = ""; wrap_ttl = none };
}

abbrev file_config : Config
file_config = record {
  listener = record {
    type = "tcp";
    address = "127.0.0.1:8000";
    tls_disable = true;
    tls_cert_file = "";
    tls_key_file = "";
    tls_autoredirect = false;
  };
  vault = record {
    type = "vault";
    address = "http://127.0.0.1:8200";
    tls_skip_verify = false;
    runtime_config = "secret/goldfish";
    approle_login = "auth/approle/login";
    approle_id = "goldfish";
  };
}

file_parsed : parse_config ⦃lib = library⦄ "good" ≡ parsed file_config
unfolding parse_config parse_root parse_list check_items first_key is_valid ◌>>=◌ only
    goldfish.Config.on_error parse_listener section_key section_fields check_hcl_keys
    listener_config required switch redirect parse_vault vault_config web_address lookup to_lower
file_parsed = refl

parse_config-IsConfig_example : IsConfig ⦃lib = library⦄ "good" file_config
parse_config-IsConfig_example =
    (parse_config-IsConfig ⦃lib = library⦄ "good" file_config).0 file_parsed

bad_keys : All IsNamed (items bad_file)
bad_keys = (("listen", (some "tcp" ∷ [], refl)), tt)

unknown_key : ¬ All (HasKey root_keys) (items bad_file)
unfolding is_valid
unknown_key ((k, (rest, e), m), u) =
    let same : k ≡ "listen" = cc in
    let bad : is_valid root_keys "listen" ≡ true =
      (is_valid-mem root_keys "listen").1 (subst (λ x. Memᴰ x root_keys) same m) in
    cc

parse_config-blocks_example : parse_config ⦃lib = library⦄ "bad" ≡ blocked
parse_config-blocks_example =
    parse_config-blocks ⦃lib = library⦄ "bad" bad_file refl refl bad_keys unknown_key

setup_vault-InOrder_example :
    let url : Url = record { scheme = "http"; text = dev_address } in
    let (r, s) = setup_vault ⦃w = sample 0⦄ ⦃lib = library⦄ dev_address "goldfish" initial in
    ((e : String) × (r ≡ exit e)
      × (s ≡ connected ⦃w = sample 0⦄ ⦃lib = library⦄ initial)
      × FailedLast ⦃w = sample 0⦄ s.trace e)
    ⊎ InOrder ⦃w = sample 0⦄
        (root_of ⦃w = sample 0⦄ ⦃lib = library⦄ url "goldfish")
        setup_calls
        (connected ⦃w = sample 0⦄ ⦃lib = library⦄ initial)
        r
        s
setup_vault-InOrder_example =
    setup_vault-InOrder ⦃w = sample 0⦄ ⦃lib = library⦄ dev_address "goldfish" _ initial refl

-- a Vault in development mode
abbrev dev_answer : List Effect → (e : Effect) → Result (Answer e)
dev_answer t (start_vault _) = ok tt
dev_answer t (vault c (Call.mount _ _)) = ok tt
dev_answer t (vault c (Call.enable_auth _ _)) = ok tt
dev_answer t (vault c (Call.write path body)) =
    if path == "auth/approle/role/goldfish/secret-id"
    then ok (some (record { data_map = none; auth = none; wrap_token = some "wrapped" }))
    else answer t (vault c (Call.write path body))
dev_answer t e = answer t e

abbrev dev_world : World
dev_world = record (sample 0) { answer = dev_answer }

abbrev dev_url : Url
dev_url = record { scheme = "http"; text = dev_address }

abbrev dev_state : State
dev_state = (load_config_dev ⦃w = dev_world⦄ ⦃lib = library⦄ initial).1

dev_loaded :
    load_config_dev ⦃w = dev_world⦄ ⦃lib = library⦄ initial
    ≡ (done (dev_config dev_address, "wrapped"), dev_state)
unfolding load_config_dev init_dev_vault_core setup_vault root_client set_address set_up
    generate_wrapped_secret_id secret_id_client try perform lift deref expect require pure call
    goldfish.Exec.◌>>=◌
dev_loaded = refl

load_config_dev-IsDevelopment_example :
    IsDevelopment ⦃w = dev_world⦄ ⦃lib = library⦄ initial
      (dev_config dev_address)
      "wrapped"
      dev_state
load_config_dev-IsDevelopment_example =
    load_config_dev-IsDevelopment ⦃w = dev_world⦄ ⦃lib = library⦄ initial (dev_config dev_address)
      "wrapped" dev_state dev_loaded

abbrev pub flags : Flags
flags = record {
  dev_mode = false;
  print_version = false;
  wrapping_token = "token";
  cfg_path = "goldfish.hcl";
}

abbrev pub served : State
served = (hook_up ⦃w = sample 0⦄ file_config "token" initial).1

abbrev pub web : Web
web = web_of ((sample 0).random_key served.trace 32) file_config.listener

pub serving_now : main ⦃w = sample 0⦄ ⦃lib = library⦄ flags ≡ serving web served
unfolding main launch load_config load_config_file serve_if hook_up start_goldfish_wrapper
    load_runtime_config load_config_from_vault update_if_new update_config check_webhook
    new_vault_client call perform pure lift deref expect require modify gets
    goldfish.Config.on_error goldfish.Exec.◌>>=◌ get parse_config parse_root parse_list check_items
    first_key is_valid ◌>>=◌ only goldfish.Exec.on_error parse_listener section_key section_fields
    check_hcl_keys listener_config required switch redirect parse_vault vault_config web_address
    lookup to_lower
serving_now = refl

main-IsLaunched_example : IsLaunched ⦃w = sample 0⦄ ⦃lib = library⦄ flags web served
main-IsLaunched_example =
    main-IsLaunched ⦃w = sample 0⦄ ⦃lib = library⦄ flags web served serving_now
