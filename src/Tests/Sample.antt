-- ===== src/Tests/Sample.antt =====
-- A world, a state of the server and requests for the runs.
use goldfish.Prelude.{
  ℕ, false, String, ◌||◌, ◌==◌, Option, none, some, List, [], ◌∷◌, pos, if◌then◌else◌,
}
use goldfish.Json.{Value, str, null, arr, Dict, values}
use goldfish.Types.{AuthInfo, Config, empty_config, PolicyRequest}
use goldfish.World.{
  World, Request, Result, ok, err, Secret, RootStatus, File, Effect, Answer, connect, vault,
  compare_commits, get_contents, Call,
}
use goldfish.Exec.{State}

abbrev pub secret : Dict → Secret
secret m = record { data_map = some m; auth = none; wrap_token = none }

abbrev pub accessors : List Value
accessors = str "a1" ∷ str "a2" ∷ str "a3" ∷ []

-- a transit backend whose ciphers are the texts
abbrev pub echo : Option Dict → Option Secret
echo (some ((_, str text) ∷ [])) =
    some (secret (("ciphertext", str text) ∷ ("plaintext", str text) ∷ []))
echo _ = none

-- a login, a wrapping, or the transit backend
abbrev pub written : String → Option Dict → Option Secret
written path body =
    if path == "auth/github/login" || path == "auth/approle/login"
    then some (record {
      data_map = none;
      auth = some (record {
        client_token = "issued";
        accessor = "a";
        metadata = null;
        policies = [];
        lease_duration = pos 60;
      });
      wrap_token = none;
    })
    else if path == "/sys/wrapping/wrap"
    then some (record { data_map = none; auth = none; wrap_token = some "wrapped" })
    else echo body

abbrev stored : String → Option Secret
stored path = if path == "cubbyhole/unseal_wrapping_tokens/ab" then none else some (secret [])

abbrev status : RootStatus
status = record { required = 1; nonce = "n"; encoded_root_token = "enc" }

abbrev policy_file : File
policy_file = record { type = "file"; name = "dev.hcl"; content = ok "rules" }

abbrev pub answer : List Effect → (e : Effect) → Result (Answer e)
answer t (connect _) = ok tt
answer t (vault c Call.lookup_self) =
    ok (secret (("display_name", str "alice") ∷ ("accessor", str "acc") ∷ []))
answer t (vault c (Call.write path body)) = ok (written path body)
answer t (vault c (Call.read path)) = ok (stored path)
answer t (vault c (Call.list _)) = ok (some (secret (("keys", arr (values accessors)) ∷ [])))
answer t (vault c (Call.unwrap _)) =
    ok (some (secret (("unseal_token", str "key") ∷ ("secret_id", str "sid") ∷ [])))
answer t (vault c (Call.get_policy _)) = ok "old"
answer t (vault c Call.list_policies) = ok ("default" ∷ "dev" ∷ "ops" ∷ [])
answer t (vault c (Call.put_policy _ _)) = ok tt
answer t (vault c Call.revoke_self) = ok tt
answer t (vault c Call.root_status) = ok status
answer t (vault c (Call.root_init _)) = ok status
answer t (compare_commits _ _ _) = ok (record { ahead_by = pos 2; behind_by = pos 0 })
answer t (get_contents _ path _) =
    if path == "policies"
    then ok (record { file = none; folder = some (policy_file ∷ []) })
    else ok (record { file = some policy_file; folder = none })
answer t _ = err "Code: 400. Errors:\n\n* unsupported path"

abbrev pub request : ℕ → PolicyRequest
request progress = record {
  policy = "dev";
  current = "old";
  new = "rules";
  requester = "alice";
  requester_hash = "h";
  required = 1;
  progress = progress;
}

-- Requests that are read have this progress.
abbrev pub sample : ℕ → World
sample progress = record {
  answer = answer;
  date = λ t. "now";
  unix_time = λ t. pos 0;
  random_key = λ t n. "random";
  map_order = λ t m. m;
  encode_base64 = λ text. text;
  decode_base64 = ok;
  marshal = λ v. ok "{}";
  unmarshal = λ text. ok none;
  unmarshal_config = λ text. ok empty_config;
  unmarshal_user = λ text u. u;
  unmarshal_role = λ text role. role;
  hash_config = λ c. ok 7;
  map_config = λ c. [];
  hash_request = λ q. ok 171;
  map_request = λ q. [];
  decode_request = λ m. ok (request progress);
  sha256_hex = λ text. text;
  parse_hcl = λ text. ok tt;
  xor_base64 = λ a b. ok "bytes";
  format_uuid = λ text. ok "root-token";
  encode_cookie = λ t a. ok "cookie";
  decode_cookie = λ age t text. ok (record { type = "token"; id = "user-token"; pass = "" });
  csrf_token = λ r. "csrf";
  secret_value = λ s. null;
}

abbrev pub user : AuthInfo
user = record { type = "token"; id = "user-token"; pass = "" }

abbrev pub settings : Config
settings = record empty_config { transit_backend = "transit"; server_transit_key = "goldfish" }

abbrev pub running : State
running = record {
  server = record {
    vault_address = "http://127.0.0.1:8200";
    vault_skip_tls = false;
    vault_token = "server-token";
    vault_client = record {
      address = "http://127.0.0.1:8200";
      skip_tls = false;
      token = "server-token";
      wrap_ttl = none;
    };
    config = settings;
    config_hash = 0;
    github_current_commit = "";
  };
  auth = user;
  headers = [];
  trace = [];
}

abbrev pub visit : Option String → Request
visit cookie = record {
  cookie = cookie;
  query = λ name. if name == "policy" then "dev" else "";
  form = λ name. "";
  param = λ name. "ab";
  bind_auth = ok user;
  bind_mount = ok none;
  bind_token = ok null;
}

-- with a repository for policies
abbrev pub linked : State
linked = record running {
  server = record running.server {
    config = record settings {
      github_access_token = "t";
      github_repo_owner = "o";
      github_repo = "r";
      github_policies_path = "policies";
    };
  };
}
