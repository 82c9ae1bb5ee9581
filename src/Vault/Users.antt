-- ===== src/Vault/Users.antt =====
-- vault/user.go. An offset is a Go `int` and may be negative.
pub mod Listings
pub mod Deletion
pub mod Pages
use goldfish.Prelude.{
  ℕ, zero, suc, ◌+◌, ◌-◌, String, ◌<>◌, false, not, Option, none, some, List, [], ◌∷◌, ◌==◌, ltb,
  length, get_elem?, if◌then◌else◌, ℤ, pos, negsuc,
}
use goldfish.Json.{Value, null, Dict, object, get, as_string, as_slice}
use goldfish.Types.{AuthInfo, User, Role}
use goldfish.World.{World, Result, Client, Secret, Call, ok, err}
use goldfish.Exec.{Exec, pure, leave, deref, expect, require, try, ◌>>=◌, ◌>>◌}
use goldfish.Vault.Clients.{set_wrapping, client, call}

-- What `ListUsers` returns as `interface{}`, and a JSON list in each case.
pub data Listing : Type 0 where
  tokens : List Value → Listing
  users : List User → Listing
  roles : List Role → Listing

abbrev pub page_size : ℕ
page_size = 300

-- The tests on the offset, for `n` accessors: how many to read, or `none` for the error.
unfoldable pub page_limit : ℕ → ℤ → Option ℕ
page_limit n (pos offset) =
    if ltb n offset
    then none
    else if ltb n (offset + page_size)
    then some (n - offset)
    else some page_size
page_limit n (negsuc k) = if ltb (n + suc k) page_size then some (n + suc k) else some page_size

-- `accessors[i+offset]`; `none` is an index out of range
unfoldable pub accessor_at : List Value → ℤ → ℕ → Option Value
accessor_at accessors (pos offset) i = get_elem? accessors (i + offset)
accessor_at accessors (negsuc k) i = if ltb i (suc k) then none else get_elem? accessors (i - suc k)

-- a map in an `interface{}`
abbrev pub from_map : Option Dict → Value
from_map none = null
from_map (some m) = object m

abbrev pub no_conversion : String
no_conversion = "Failed to convert response"

module _ ⦃w : World⦄ where
  -- The names or accessors below a path: `resp.Data["keys"].([]interface{})`.
  unfoldable pub list_keys : Client → String → Exec String (List Value)
  list_keys c path = do
    resp ← call c (Call.list path)
    secret ← deref resp
    expect (as_slice (get secret.data_map "keys")) no_conversion

  -- an accessor that Vault does not know leaves its place empty
  abbrev pub token_entry : Option (Option Secret) → Exec String Value
  token_entry none = pure null
  token_entry (some resp) = do secret ← deref resp; pure (from_map secret.data_map)

  unfoldable pub lookup_accessor : Client → Value → Exec String Value
  unfolding pure
  lookup_accessor c accessor = do
    found ←
        try (call c (Call.write "auth/token/lookup-accessor" (some (("accessor", accessor) ∷ []))))
    token_entry found

  -- the loop over the page: the rounds left, and `i`
  unfoldable pub fetch_tokens : Client → List Value → ℤ → ℕ → ℕ → Exec String (List Value)
  fetch_tokens c accessors offset zero i = pure []
  fetch_tokens c accessors offset (suc rounds) i = do
    accessor ← deref (accessor_at accessors offset i)
    token ← lookup_accessor c accessor
    rest ← fetch_tokens c accessors offset rounds (i + 1)
    pure (token ∷ rest)

  unfoldable pub list_tokens : Client → ℤ → Exec String Listing
  list_tokens c offset = do
    accessors ← list_keys c "auth/token/accessors"
    limit ← expect (page_limit (length accessors) offset) "Offset out of bound"
    found ← fetch_tokens c accessors offset limit 0
    pure (tokens found)

  -- `json.Marshal` of what was read, and `json.Unmarshal` into the entry, if both the read and
  -- the marshalling succeed
  abbrev pub merged : {A : Type 0} → (String → A → A) → A → Result String → A
  merged decode entry (ok text) = decode text entry
  merged decode entry (err _) = entry

  abbrev pub detailed : {A : Type 0} → (String → A → A) → A → Option (Option Secret) → Exec String A
  detailed decode entry none = pure entry
  detailed decode entry (some resp) = do
    secret ← deref resp
    pure (merged decode entry (w.marshal (some (from_map secret.data_map))))

  unfoldable pub get_user : Client → Value → Exec String User
  unfolding pure
  get_user c username = do
    name ← deref (as_string (some username))
    found ← try (call c (Call.read ("auth/userpass/users/" <> name)))
    detailed w.unmarshal_user (record { name = name; ttl = pos 0; max_ttl = pos 0; policies = "" })
        found

  unfoldable pub get_users : Client → List Value → Exec String (List User)
  get_users c [] = pure []
  get_users c (username ∷ usernames) = do
    user ← get_user c username
    rest ← get_users c usernames
    pure (user ∷ rest)

  abbrev pub new_role : String → Role
  new_role name = record {
    roleid = name;
    token_ttl = pos 0;
    token_max_ttl = pos 0;
    secret_id_ttl = pos 0;
    secret_id_num_uses = pos 0;
    policies = [];
    period = pos 0;
    bind_secret_id = false;
    bound_cidr_list = "";
  }

  unfoldable pub get_approle : Client → Value → Exec String Role
  unfolding pure
  get_approle c role = do
    name ← deref (as_string (some role))
    found ← try (call c (Call.read ("auth/approle/role/" <> name)))
    detailed w.unmarshal_role (new_role name) found

  unfoldable pub get_approles : Client → List Value → Exec String (List Role)
  get_approles c [] = pure []
  get_approles c (role ∷ rolenames) = do
    found ← get_approle c role
    rest ← get_approles c rolenames
    pure (found ∷ rest)

  unfoldable pub list_userpass : Client → Exec String Listing
  list_userpass c = do
    usernames ← list_keys c "auth/userpass/users"
    found ← get_users c usernames
    pure (users found)

  unfoldable pub list_approles : Client → Exec String Listing
  list_approles c = do
    rolenames ← list_keys c "auth/approle/role"
    found ← get_approles c rolenames
    pure (roles found)

  -- the switch of `ListUsers`
  unfoldable pub list_by : Client → String → ℤ → Exec String Listing
  unfolding leave
  list_by c backend offset =
      if backend == "token"
      then list_tokens c offset
      else if backend == "userpass"
      then list_userpass c
      else if backend == "approle"
      then list_approles c
      else leave "Unsupported user listing type"

  -- `ListUsers`
  unfoldable pub list_users : AuthInfo → String → ℤ → Exec String Listing
  list_users auth backend offset = do c ← client auth; list_by c backend offset

  -- the switch of `DeleteUser`
  unfoldable pub delete_by : Client → String → String → Exec String Unit
  unfolding leave
  delete_by c backend id =
      if backend == "token"
      then (do call c (Call.write ("/auth/token/revoke-accessor/" <> id) none); pure tt)
      else if backend == "userpass"
      then (do call c (Call.delete ("/auth/userpass/users/" <> id)); pure tt)
      else if backend == "approle"
      then (do call c (Call.delete ("/auth/approle/role/" <> id)); pure tt)
      else leave "Unsupported user deletion type"

  -- `DeleteUser`
  unfoldable pub delete_user : AuthInfo → String → String → Exec String Unit
  delete_user auth backend id = do
    c ← client auth
    require (not (id == "")) "Invalid deletion ID"
    delete_by c backend id

  -- `GetTokenCount`
  unfoldable pub get_token_count : AuthInfo → Exec String ℕ
  get_token_count auth = do
    c ← client auth
    accessors ← list_keys c "auth/token/accessors"
    pure (length accessors)

  -- `CreateToken`
  unfoldable pub create_token : AuthInfo → Value → String → Exec String Secret
  create_token auth opts wrapttl = do
    c ← client auth
    call (if wrapttl == "" then c else set_wrapping c wrapttl) (Call.create_token opts)

  abbrev pub role_names : Option Secret → Value
  role_names none = null
  role_names (some secret) = elim (get secret.data_map "keys") [ none ↦ null | some v ↦ v ]

  -- `ListRoles`
  unfoldable pub list_roles : AuthInfo → Exec String Value
  list_roles auth = do
    c ← client auth
    resp ← call c (Call.list "/auth/token/roles")
    pure (role_names resp)

  -- `GetRole`
  unfoldable pub get_role : AuthInfo → String → Exec String (Option Dict)
  get_role auth rolename = do
    require (not (rolename == "")) "Empty rolename"
    c ← client auth
    resp ← call c (Call.read ("/auth/token/roles/" <> rolename))
    secret ← deref resp
    pure secret.data_map
