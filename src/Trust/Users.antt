-- ===== src/Trust/Users.antt =====
-- vault/user.go: the tokens of its calls.
use goldfish.Prelude.{
  refl, true, arith, ◌≡◌, String, ◌==◌, Option, none, some, List, [], ◌∷◌, ℤ, ℕ, zero, suc, ◌+◌,
  if◌then◌else◌,
}
use goldfish.Json.{Value}
use goldfish.Types.{AuthInfo}
use goldfish.World.{World, Client, Call, Secret}
use goldfish.Exec.{State}
use goldfish.Exec.Keeps.{Keeps, Keeps-bind, Keeps-pure, Keeps-deref, keeps_rules}
use goldfish.Vault.Clients.{call, set_wrapping}
use goldfish.Vault.Users.{
  token_entry, detailed, list_keys, lookup_accessor, accessor_at, fetch_tokens, list_tokens,
  get_user, get_users, get_approle, get_approles, list_userpass, list_approles, list_by, list_users,
  delete_by, delete_user, get_token_count, create_token, list_roles, get_role,
}
use goldfish.Trust.Calls.{IsTrusted, is_user_call, Keeps-as_user, Keeps-bind_client}

module _ ⦃w : World⦄ {start : State} {user : String} (c : Client) (h : c.token ≡ user) where
  Keeps-call : (q : Call) → is_user_call q ≡ true → Keeps (IsTrusted start user) (call c q)
  Keeps-call q u = Keeps-as_user c q h u

  Keeps-list_keys : (path : String) → Keeps (IsTrusted start user) (list_keys c path)
  unfolding list_keys
  Keeps-list_keys path = search (keeps_rules, Keeps-call) depth 8

  Keeps-token_entry : (o : Option (Option Secret)) → Keeps (IsTrusted start user) (token_entry o)
  Keeps-token_entry none = Keeps-pure _
  Keeps-token_entry (some resp) = search keeps_rules

  Keeps-lookup_accessor : (a : Value) → Keeps (IsTrusted start user) (lookup_accessor c a)
  unfolding lookup_accessor
  Keeps-lookup_accessor a = search (keeps_rules, Keeps-call, Keeps-token_entry) depth 8

  Keeps-fetch_tokens :
      (accessors : List Value) (offset : ℤ) (rounds i : ℕ)
      → Keeps (IsTrusted start user) (fetch_tokens c accessors offset rounds i)
  unfolding fetch_tokens
  Keeps-fetch_tokens accessors offset zero i = Keeps-pure _
  Keeps-fetch_tokens accessors offset (suc rounds) i =
      Keeps-bind _ _ (Keeps-deref (accessor_at accessors offset i)) λ a.
        Keeps-bind _ _ (Keeps-lookup_accessor a) λ _.
          Keeps-bind _ _ (Keeps-fetch_tokens accessors offset rounds (i + 1)) (λ _. Keeps-pure _)

  Keeps-list_tokens : (offset : ℤ) → Keeps (IsTrusted start user) (list_tokens c offset)
  unfolding list_tokens
  Keeps-list_tokens offset = search (keeps_rules, Keeps-list_keys, Keeps-fetch_tokens) depth 9

  Keeps-detailed :
      {A : Type 0} (decode : String → A → A) (entry : A) (o : Option (Option Secret))
      → Keeps (IsTrusted start user) (detailed decode entry o)
  Keeps-detailed decode entry none = Keeps-pure _
  Keeps-detailed decode entry (some resp) = search keeps_rules

  Keeps-get_user : (v : Value) → Keeps (IsTrusted start user) (get_user c v)
  unfolding get_user
  Keeps-get_user v = search (keeps_rules, Keeps-call, Keeps-detailed) depth 9

  Keeps-get_users : (vs : List Value) → Keeps (IsTrusted start user) (get_users c vs)
  unfolding get_users
  Keeps-get_users [] = Keeps-pure _
  Keeps-get_users (v ∷ vs) =
      Keeps-bind _ _ (Keeps-get_user v) λ _. Keeps-bind _ _ (Keeps-get_users vs) (λ _. Keeps-pure _)

  Keeps-get_approle : (v : Value) → Keeps (IsTrusted start user) (get_approle c v)
  unfolding get_approle
  Keeps-get_approle v = search (keeps_rules, Keeps-call, Keeps-detailed) depth 9

  Keeps-get_approles : (vs : List Value) → Keeps (IsTrusted start user) (get_approles c vs)
  unfolding get_approles
  Keeps-get_approles [] = Keeps-pure _
  Keeps-get_approles (v ∷ vs) =
      Keeps-bind _ _ (Keeps-get_approle v)
        λ _. Keeps-bind _ _ (Keeps-get_approles vs) (λ _. Keeps-pure _)

  Keeps-list_by :
      (backend : String) (offset : ℤ) → Keeps (IsTrusted start user) (list_by c backend offset)
  unfolding list_by list_userpass list_approles
  Keeps-list_by backend offset =
      search (keeps_rules, Keeps-list_keys, Keeps-list_tokens, Keeps-get_users, Keeps-get_approles)
        depth 12

  Keeps-delete_by : (backend id : String) → Keeps (IsTrusted start user) (delete_by c backend id)
  unfolding delete_by
  Keeps-delete_by backend id = search (keeps_rules, Keeps-call) depth 12

module _ ⦃w : World⦄ {start : State} (auth : AuthInfo) where
  pub Keeps-list_users :
      (backend : String) (offset : ℤ)
      → Keeps (IsTrusted start auth.id) (list_users auth backend offset)
  unfolding list_users
  Keeps-list_users backend offset =
      Keeps-bind_client auth _ (λ c h. Keeps-list_by c h backend offset)

  pub Keeps-delete_user :
      (backend id : String) → Keeps (IsTrusted start auth.id) (delete_user auth backend id)
  unfolding delete_user
  Keeps-delete_user backend id = search (keeps_rules, Keeps-bind_client, Keeps-delete_by) depth 9

  pub Keeps-get_token_count : Keeps (IsTrusted start auth.id) (get_token_count auth)
  unfolding get_token_count
  Keeps-get_token_count = search (keeps_rules, Keeps-bind_client, Keeps-list_keys) depth 9

  Keeps-create_with :
      (c : Client) (opts : Value) (wrapttl : String)
      → c.token ≡ auth.id
      → Keeps
          (IsTrusted start auth.id)
          (call (if wrapttl == "" then c else set_wrapping c wrapttl) (Call.create_token opts))
  Keeps-create_with c opts wrapttl h =
      Keeps-as_user (if wrapttl == "" then c else set_wrapping c wrapttl) (Call.create_token opts)
        (ground arith) refl

  pub Keeps-create_token :
      (opts : Value) (wrapttl : String)
      → Keeps (IsTrusted start auth.id) (create_token auth opts wrapttl)
  unfolding create_token
  Keeps-create_token opts wrapttl =
      Keeps-bind_client auth _ (λ c h. Keeps-create_with c opts wrapttl h)

  pub Keeps-list_roles : Keeps (IsTrusted start auth.id) (list_roles auth)
  unfolding list_roles
  Keeps-list_roles = search (keeps_rules, Keeps-bind_client, Keeps-as_user) depth 9

  pub Keeps-get_role :
      (rolename : String) → Keeps (IsTrusted start auth.id) (get_role auth rolename)
  unfolding get_role
  Keeps-get_role rolename = search (keeps_rules, Keeps-bind_client, Keeps-as_user) depth 9
