-- ===== src/Config/Parse.antt =====
-- config/config.go: `LoadConfigFile`, `ParseConfig` and the functions that it calls.
use Prim.Native.Char.{Char}
use goldfish.Prelude.{
  String, Bool, true, false, ◌||◌, Option, none, some, List, [], ◌∷◌, ◌==◌, ◌<>◌, if◌then◌else◌,
}
use goldfish.Json.{lookup}
use goldfish.Config.{
  Config, ListenerConfig, VaultConfig, Node, object_list, object_type, other, Item, items, Library,
  Outcome, parsed, failed, blocked, crashed, lift, on_error, ◌>>=◌, ◌>>◌,
}

-- `&Config{Listener: &ListenerConfig{}, Vault: &VaultConfig{}}`
abbrev pub empty_config : Config
empty_config = record {
  listener = record {
    type = "";
    address = "";
    tls_disable = false;
    tls_cert_file = "";
    tls_key_file = "";
    tls_autoredirect = false;
  };
  vault = record {
    type = "";
    address = "";
    tls_skip_verify = false;
    runtime_config = "";
    approle_login = "";
    approle_id = "";
  };
}

abbrev pub root_keys : List String
root_keys = "listener" ∷ "vault" ∷ []

abbrev pub listener_keys : List String
listener_keys =
    "address" ∷ "tls_disable" ∷ "tls_cert_file" ∷ "tls_key_file" ∷ "tls_autoredirect" ∷ []

abbrev pub vault_keys : List String
vault_keys = "address" ∷ "tls_skip_verify" ∷ "runtime_config" ∷ "approle_login" ∷ "approle_id" ∷ []

-- `_, ok := validMap[key]`
unfoldable pub is_valid : List String → String → Bool
is_valid [] key = false
is_valid (v ∷ vs) key = v == key || is_valid vs key

-- `Keys[0].Token.Value().(string)`
unfoldable pub first_key : List (Option String) → Outcome String
first_key (some k ∷ _) = parsed k
first_key _ = crashed

-- The loop of `checkHCLKeys`. An invalid key is sent on `ch`, which is unbuffered, and from which
-- nothing receives; the error behind the loop is therefore nil.
unfoldable pub check_items : List String → List Item → Outcome Unit
check_items valid [] = parsed tt
check_items valid (item ∷ rest) = do
  key ← first_key item.keys
  let next = check_items valid rest
  if is_valid valid key then next else blocked

unfoldable pub check_hcl_keys : Node → List String → Outcome Unit
check_hcl_keys (object_list list) valid = check_items valid (items list)
check_hcl_keys (object_type list) valid = check_items valid (items list)
check_hcl_keys (other type text) valid = failed ("Cannot recognize HCL key type " <> type)

-- the key of a block, as in `listener "tcp" { … }`, and else the name of the section
unfoldable pub section_key : String → List (Option String) → Outcome String
unfolding first_key
section_key section [] = parsed section
section_key section (k ∷ ks) = first_key (k ∷ ks)

-- strings.ToLower, by what it does to a character
unfoldable pub to_lower : (Char → Char) → String → String
to_lower lower String.[] = ""
to_lower lower (String.◌∷◌ c s) = String.◌∷◌ (lower c) (to_lower lower s)

abbrev pub setting : Option String → String → String
setting none d = d
setting (some v) d = v

-- a field that is there and not empty
unfoldable pub required : Option String → String → Outcome String
required none e = failed e
required (some v) e = if v == "" then failed e else parsed v

-- A field that sets a flag by `1`, and leaves it by `0` or when it is not there.
unfoldable pub switch : Bool → Option String → String → Outcome Bool
switch old none e = parsed old
switch old (some v) e = if v == "1" then parsed true else if v == "0" then parsed old else failed e

-- The format's verb has no argument.
abbrev pub bad_redirect : String
bad_redirect = "listener.%!s(MISSING): tls_autoredirect can be 0 or 1"

abbrev pub conflict : String → String
conflict key = "listener." <> key <> ": tls_autoredirect conflicts with tls_disable"

-- `tls_autoredirect`, where `tls_disable` has been read
unfoldable pub redirect : Bool → Bool → Option String → String → Outcome Bool
redirect disabled old none key = parsed old
redirect disabled old (some v) key =
    if v == "1"
    then if disabled then failed (conflict key) else parsed true
    else if v == "0"
    then parsed old
    else failed bad_redirect

abbrev pub bad_scheme : String
bad_scheme = "vault.%!s(MISSING): address must be prefixed with scheme i.e. http:// or https://"

abbrev pub flag_error : String → String
flag_error key = "listener." <> key <> ": tls_disable can be 0 or 1"

module _ ⦃lib : Library⦄ where
  -- the fields of a section, whose keys are among `valid`
  unfoldable pub section_fields : Node → List String → Outcome (List (String × String))
  section_fields val valid = check_hcl_keys val valid >> lift (lib.decode_map val)

  unfoldable pub listener_config :
      ListenerConfig → String → List (String × String) → Outcome ListenerConfig
  listener_config old key m = do
    address ← required (lookup "address" m) ("listener." <> key <> ": address is required")
    disable ← switch old.tls_disable (lookup "tls_disable" m) (flag_error key)
    auto ← redirect disable old.tls_autoredirect (lookup "tls_autoredirect" m) key
    parsed (record {
      type = to_lower lib.lower key;
      address = address;
      tls_disable = disable;
      tls_cert_file = setting (lookup "tls_cert_file" m) old.tls_cert_file;
      tls_key_file = setting (lookup "tls_key_file" m) old.tls_key_file;
      tls_autoredirect = auto;
    })

  unfoldable pub parse_listener : Config → Item → Outcome Config
  parse_listener result listener = do
    key ← section_key "listener" listener.keys
    m ← on_error (λ e. "listener." <> key <> ": " <> e) (section_fields listener.val listener_keys)
    l ← listener_config result.listener key m
    parsed (record result { listener = l })

  -- the text of an address with a scheme of the web
  unfoldable pub web_address : String → Outcome String
  web_address address = do
    url ← on_error (λ e. "failed to set address: " <> e) (lift (lib.parse_url address))
    if url.scheme == "http" || url.scheme == "https" then parsed url.text else failed bad_scheme

  unfoldable pub vault_config : VaultConfig → String → List (String × String) → Outcome VaultConfig
  vault_config old key m = do
    given ← required (lookup "address" m) ("vault." <> key <> ": address is required")
    address ← web_address given
    skip ← switch old.tls_skip_verify (lookup "tls_skip_verify" m) (flag_error key)
    parsed (record {
      type = to_lower lib.lower key;
      address = address;
      tls_skip_verify = skip;
      runtime_config = setting (lookup "runtime_config" m) "secret/goldfish";
      approle_login = setting (lookup "approle_login" m) "auth/approle/login";
      approle_id = setting (lookup "approle_id" m) "goldfish";
    })

  unfoldable pub parse_vault : Config → Item → Outcome Config
  parse_vault result vault = do
    key ← section_key "vault" vault.keys
    m ← on_error (λ e. "vault." <> key <> ": " <> e) (section_fields vault.val vault_keys)
    v ← vault_config result.vault key m
    parsed (record result { vault = v })

  -- the one section of a name
  unfoldable pub only : List Item → String → Outcome Item
  only (item ∷ []) section = parsed item
  only _ section = failed ("Config requires exactly one '" <> section <> "' object")

  unfoldable pub parse_list : List Item → Outcome Config
  parse_list list = do
    check_items root_keys list
    listener ← only (lib.filter "listener" list) "listener"
    c ← on_error (λ e. "Error parsing 'listener': " <> e) (parse_listener empty_config listener)
    vault ← only (lib.filter "vault" list) "vault"
    on_error (λ e. "Error parsing 'vault': " <> e) (parse_vault c vault)

  unfoldable pub parse_root : Node → Outcome Config
  parse_root (object_list list) = parse_list (items list)
  parse_root _ = failed "[ERROR]: Config file doesn't have a root object"

  unfoldable pub parse_config : String → Outcome Config
  parse_config d = do node ← lift (lib.parse d); lift (lib.decode_config node); parse_root node

  unfoldable pub load_config_file : String → Outcome Config
  load_config_file path =
      if path == ""
      then failed "[ERROR]: Config file not specified"
      else lift (lib.read_file path) >>= parse_config
