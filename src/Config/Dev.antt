-- ===== src/Config/Dev.antt =====
-- config/dev.go, and `LoadConfigDev` of config/config.go: a Vault of this process, set up for
-- development. The command that runs it is Vault's.
use goldfish.Prelude.{String, true, false, not, Option, none, some, List, [], ◌∷◌, pos, ◌==◌, ◌<>◌}
use goldfish.Json.{Value, str, num}
use goldfish.World.{World, Client, Call, Secret, connect, start_vault}
use goldfish.Exec.{Exec, pure, lift, deref, expect, require, try, perform, ◌>>=◌, ◌>>◌}
use goldfish.Vault.Clients.{set_token, set_wrapping, call}
use goldfish.Config.{Config, VaultConfig, Library}

abbrev pub goldfish_policy_rules : String
goldfish_policy_rules =
    "\n" <> "# [mandatory]\n" <> "# credential transit key (stores logon tokens)\n"
    <> "# NO OTHER POLICY should be able to write to this key\n"
    <> "path \"transit/encrypt/goldfish\" {\n" <> "  capabilities = [\"read\", \"update\"]\n"
    <> "}\n" <> "path \"transit/decrypt/goldfish\" {\n"
    <> "  capabilities = [\"read\", \"update\"]\n" <> "}\n" <> "\n" <> "# [mandatory] [changable]\n"
    <> "# store goldfish run-time settings here\n"
    <> "# goldfish hot-reloads from this endpoint every minute\n" <> "path \"secret/goldfish*\" {\n"
    <> "  capabilities = [\"read\", \"update\"]\n" <> "}\n"

abbrev pub dev_arguments : List String
dev_arguments = "-dev" ∷ "-dev-listen-address=127.0.0.1:8200" ∷ "-dev-root-token-id=goldfish" ∷ []

-- the fields of a body, all of them texts
abbrev pub texts : List (String × String) → List (String × Value)
texts [] = []
texts ((k, v) ∷ rest) = (k, str v) ∷ texts rest

abbrev pub write_texts : String → List (String × String) → Call
write_texts path body = Call.write path (some (texts body))

abbrev pub approle : Call
approle = Call.write "auth/approle/role/goldfish" (
    some (
      ("role_name", str "goldfish")
      ∷ ("secret_id_ttl", str "5m")
      ∷ ("token_ttl", str "480h")
      ∷ ("secret_id_num_uses", num (pos 1))
      ∷ ("policies", str "default, goldfish")
      ∷ []))

abbrev pub runtime_settings : List (String × String)
runtime_settings =
    ("TransitBackend", "transit")
    ∷ ("UserTransitKey", "usertransit")
    ∷ ("ServerTransitKey", "goldfish")
    ∷ ("DefaultSecretPath", "secret/")
    ∷ ("BulletinPath", "secret/bulletins/")
    ∷ []

abbrev pub bulletin : String → String → String → Call
bulletin path message title =
    write_texts path (("message", message) ∷ ("title", title) ∷ ("type", "is-success") ∷ [])

-- `Config` of development mode, for the address that is written back
abbrev pub dev_config : String → Config
dev_config address = record {
  listener = record {
    type = "tcp";
    address = "127.0.0.1:8000";
    tls_disable = true;
    tls_cert_file = "";
    tls_key_file = "";
    tls_autoredirect = false;
  };
  vault = record {
    type = "vault";
    address = address;
    tls_skip_verify = false;
    runtime_config = "secret/goldfish";
    approle_login = "auth/approle/login";
    approle_id = "goldfish";
  };
}

abbrev pub dev_address : String
dev_address = "http://127.0.0.1:8200"

-- `resp != nil && resp.WrapInfo != nil`
abbrev pub wrapping_token : Option Secret → Option String
wrapping_token none = none
wrapping_token (some secret) = secret.wrap_token

module _ ⦃w : World⦄ ⦃lib : Library⦄ where
  -- `client.SetAddress`
  unfoldable pub set_address : Client → String → Exec String Client
  set_address c addr = do url ← lift (lib.parse_url addr); pure (record c { address = url.text })

  -- a client with the root token
  unfoldable pub root_client : String → String → Exec String Client
  root_client addr root_token = do
    perform (connect lib.default_client.skip_tls)
    c ← set_address lib.default_client addr
    pure (set_token c root_token)

  -- the calls of `SetupVault`
  unfoldable pub set_up : Client → Exec String Unit
  set_up c = do
    call c (Call.mount "transit" "transit")
    call c (Call.write "transit/keys/goldfish" (some []))
    call c (Call.put_policy "goldfish" goldfish_policy_rules)
    call c (Call.enable_auth "approle" "approle")
    call c approle
    call c (write_texts "auth/approle/role/goldfish/role-id" (("role_id", "goldfish") ∷ []))
    call c (write_texts "secret/goldfish" runtime_settings)
    call c (Call.enable_auth "userpass" "userpass")
    call c (bulletin "secret/bulletins/bulletina" "hello world" "sampleBulletinA")
    call c (bulletin "secret/bulletins/bulletinb" "this is sample b" "sampleBulletinB")
    call c (bulletin "secret/bulletins/bulletinc" "this is sample c" "sampleBulletinc")
    call c (Call.mount "pki" "pki")
    call c (write_texts "pki/root/generate/internal" (("common_name", "myvault.com") ∷ []))
    call c (
        write_texts "pki/config/urls" (
          ("issuing_certificates", "http://127.0.0.1:8200/v1/pki/ca")
          ∷ ("crl_distribution_points", "http://127.0.0.1:8200/v1/pki/crl")
          ∷ []))
    call c (
        write_texts "pki/roles/example-dot-com" (
          ("allowed_domains", "example.com")
          ∷ ("allow_subdomains", "true")
          ∷ ("max_ttl", "72h")
          ∷ []))
    call c (write_texts "pki/issue/example-dot-com" (("common_name", "blah.example.com") ∷ []))
    call c (write_texts "pki/issue/example-dot-com" (("common_name", "blah2.example.com") ∷ []))
    pure tt

  unfoldable pub setup_vault : String → String → Exec String Unit
  setup_vault addr root_token = root_client addr root_token >>= set_up

  -- The error of the client is not tested; a nil client is read by `SetAddress`.
  unfoldable pub secret_id_client : VaultConfig → String → Exec String Client
  secret_id_client v token = do
    made ← try (perform (connect lib.default_client.skip_tls))
    deref made
    c ← set_address lib.default_client v.address
    pure (set_wrapping (set_token c token) "5m")

  unfoldable pub generate_wrapped_secret_id : VaultConfig → String → Exec String String
  generate_wrapped_secret_id v token = do
    c ← secret_id_client v token
    resp ← call c (Call.write "auth/approle/role/goldfish/secret-id" (some []))
    wrapped ← expect (wrapping_token resp) "Failed to setup vault client"
    require (not (wrapped == "")) "Failed to setup vault client"
    pure wrapped

  unfoldable pub init_dev_vault_core : Exec String Unit
  init_dev_vault_core = do try {F = String} (perform (start_vault dev_arguments)); pure tt

  -- without the channel that stops Vault
  unfoldable pub load_config_dev : Exec String (Config × String)
  load_config_dev = do
    init_dev_vault_core
    setup_vault dev_address "goldfish"
    parsed ← try (lift (lib.parse_url dev_address))
    url ← deref parsed
    id ← generate_wrapped_secret_id (dev_config url.text).vault "goldfish"
    pure (dev_config url.text, id)
