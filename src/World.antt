-- ===== src/World.antt =====
-- What the program calls and does not implement: HashiCorp Vault's API client, GitHub's client,
-- HTTP, the clock, randomness, and the libraries that encode, decode, hash and parse. A value of
-- `World` stands for all of it. Whatever acts on the outside is an `Effect`; its answer is a
-- function of the effects before it, so a world may keep any state and fail at any time.
mod Api
pub use Api.*
use goldfish.Prelude.{ℕ, ℤ, String, Bool, Option, List}
use goldfish.Json.{Value, Dict}
use goldfish.Types.{AuthInfo, Config, PolicyRequest, User, Role}

-- One HTTP request, as echo hands it to a handler.
pub record Request : Type 0 where
  -- the value of the cookie `auth`
  pub cookie : Option String
  -- `c.QueryParam`, `c.FormValue`, `c.Param`: the empty text where there is none
  pub query : String → String
  pub form : String → String
  pub param : String → String
  -- `c.Bind`, by the type that is bound
  pub bind_auth : Result AuthInfo
  pub bind_mount : Result (Option Value)
  pub bind_token : Result Value

pub record World : Type 0 where
  -- the answers of the outside, newest effect first
  pub answer : List Effect → (e : Effect) → Result (Answer e)
  -- time.Now, as a date and as seconds, and securecookie.GenerateRandomKey, after these effects
  pub date : List Effect → String
  pub unix_time : List Effect → ℤ
  pub random_key : List Effect → ℕ → String
  -- the order in which `range` visits a map
  pub map_order : List Effect → List (String × String) → List (String × String)
  -- encoding/base64
  pub encode_base64 : String → String
  pub decode_base64 : String → Result String
  -- encoding/json; `null` decodes to the nil map
  pub marshal : Option Value → Result String
  pub unmarshal : String → Result (Option Dict)
  pub unmarshal_config : String → Result Config
  -- into a variable that has a value; what was decoded before an error stays
  pub unmarshal_user : String → User → User
  pub unmarshal_role : String → Role → Role
  -- mitchellh/hashstructure, fatih/structs, mitchellh/mapstructure
  pub hash_config : Config → Result ℕ
  pub map_config : Config → Dict
  pub hash_request : PolicyRequest → Result ℕ
  pub map_request : PolicyRequest → Dict
  pub decode_request : Option Dict → Result PolicyRequest
  -- crypto/sha256, in hexadecimal
  pub sha256_hex : String → String
  -- hashicorp/hcl: whether a text parses
  pub parse_hcl : String → Result (Unit {0})
  -- hashicorp/vault/helper/xor, hashicorp/go-uuid
  pub xor_base64 : String → String → Result String
  pub format_uuid : String → Result String
  -- gorilla/securecookie with the keys of this run: `Encode` at a time in seconds, which the cookie
  -- carries, and `Decode` with a maximal age at a time. gorilla/csrf
  pub encode_cookie : ℤ → AuthInfo → Result String
  pub decode_cookie : ℤ → ℤ → String → Result AuthInfo
  pub csrf_token : Request → String
  -- how encoding/json shows an `*api.Secret`
  pub secret_value : Option Secret → Value
