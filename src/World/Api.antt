-- ===== src/World/Api.antt =====
-- The effects, and the parts of their answers that the program reads.
use goldfish.Prelude.{ℕ, ℤ, String, Bool, Option, List}
use goldfish.Json.{Value, Dict}

-- `(A, error)`, for a function whose value is not read when the error is not nil.
pub data Result {ℓ} (A : Type ℓ) : Type ℓ where
  ok : A → Result A
  err : String → Result A

-- An `*api.Client`: where it calls, its token, and the time to live if answers are to be wrapped.
pub record Client : Type 0 where
  pub address : String
  pub skip_tls : Bool
  pub token : String
  pub wrap_ttl : Option String

pub record SecretAuth : Type 0 where
  pub client_token : String
  pub accessor : String
  pub metadata : Value
  pub policies : List String
  pub lease_duration : ℤ

-- `api.Secret`. The pointers may be nil, and so may the map.
pub record Secret : Type 0 where
  pub data_map : Option Dict
  pub auth : Option SecretAuth
  -- the token of `WrapInfo`
  pub wrap_token : Option String

pub record RootStatus : Type 0 where
  pub required : ℕ
  pub nonce : String
  pub encoded_root_token : String

-- A method of `api.Client`, with its arguments. Request bodies that the program only hands on are
-- values.
pub data Call : Type 0 where
  -- Logical()
  read list delete unwrap : String → Call
  write : String → Option Dict → Call
  -- Auth().Token()
  lookup_self renew_self revoke_self : Call
  create_token : Value → Call
  -- Sys()
  capabilities_self mount_config get_policy delete_policy root_init : String → Call
  list_mounts list_policies root_status root_cancel : Call
  tune_mount : String → Value → Call
  put_policy root_update : String → String → Call
  -- Mount and EnableAuthWithOptions of a path and a type
  mount enable_auth : String → String → Call

-- A method's result beside its error. `Logical` methods may return a nil secret.
abbrev pub Reply : Call → Type 0
Reply (read _) = Option Secret
Reply (list _) = Option Secret
Reply (delete _) = Option Secret
Reply (unwrap _) = Option Secret
Reply (write _ _) = Option Secret
Reply lookup_self = Secret
Reply renew_self = Secret
Reply revoke_self = Unit {0}
Reply (create_token _) = Secret
Reply (capabilities_self _) = List String
Reply (mount_config _) = Value
Reply (get_policy _) = String
Reply (delete_policy _) = Unit {0}
Reply (root_init _) = RootStatus
Reply list_mounts = Value
Reply list_policies = List String
Reply root_status = RootStatus
Reply root_cancel = Unit {0}
Reply (tune_mount _ _) = Unit {0}
Reply (put_policy _ _) = Unit {0}
Reply (root_update _ _) = RootStatus
Reply (mount _ _) = Unit {0}
Reply (enable_auth _ _) = Unit {0}

-- `github.CommitsComparison`: how far the second commit is ahead of the first, and behind.
pub record Comparison : Type 0 where
  pub ahead_by : ℤ
  pub behind_by : ℤ

-- `github.RepositoryContent`; `content` is what `GetContent` decodes.
pub record File : Type 0 where
  pub type : String
  pub name : String
  pub content : Result String

-- Of `GetContents`: a file, or the entries of a folder.
pub record Contents : Type 0 where
  pub file : Option File
  pub folder : Option (List File)

pub record Repo : Type 0 where
  pub access_token : String
  pub owner : String
  pub repo : String

pub data Effect : Type 0 where
  -- api.NewClient, with TLS verification skipped or not
  connect : Bool → Effect
  vault : Client → Call → Effect
  -- http.Get with the read of the body, http.Post
  http_get : String → Effect
  http_post : String → String → String → Effect
  -- Repositories.CompareCommits of a base and a head, Repositories.GetContents of a path at a commit
  compare_commits get_contents : Repo → String → String → Effect
  -- the start of Vault's command `server` in a goroutine, with its arguments
  start_vault : List String → Effect

abbrev pub Answer : Effect → Type 0
Answer (connect _) = Unit {0}
Answer (vault _ q) = Reply q
Answer (http_get _) = String
Answer (http_post _ _ _) = Unit {0}
Answer (compare_commits _ _ _) = Comparison
Answer (get_contents _ _ _) = Contents
Answer (start_vault _) = Unit {0}
