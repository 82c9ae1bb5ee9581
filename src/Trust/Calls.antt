-- ===== src/Trust/Calls.antt =====
-- The calls that a handler may make for a user, and the rules that prove it of an action.
use mathlib.Core.Path.{subst}
use goldfish.Prelude.{◌≡◌, refl, sym, arith, String, ◌<>◌, Bool, true, false, Option}
use goldfish.Json.{Dict}
use goldfish.Types.{AuthInfo}
use goldfish.World.{
  World, Client, Call, Effect, Repo, connect, vault, http_post, compare_commits, get_contents,
}
use goldfish.Exec.{Server, State, Exec, pure, gets, perform, ◌>>=◌}
use goldfish.Exec.Trace.{Since, effect}
use goldfish.Exec.Keeps.{
  Keeps, Ensures, Keeps-pure, Keeps-bind, Keeps-bind_gets, Keeps-bind_Ensures, Keeps-perform,
}
use goldfish.Trust.Root.{IsRootToken}
use goldfish.Vault.Clients.{set_token, new_vault_client, client, call}

-- What the server's own client is used for while it serves a user.
pub data IsServerUse (srv : Server) (c : Client) : Call → Type 0 where
  reads_cubbyhole :
      (name : String) → c ≡ srv.vault_client → IsServerUse srv c (Call.read ("cubbyhole/" <> name))
  writes_cubbyhole :
      (name : String) (m : Option Dict)
      → c ≡ srv.vault_client
      → IsServerUse srv c (Call.write ("cubbyhole/" <> name) m)
  deletes_cubbyhole :
      (name : String)
      → c ≡ srv.vault_client
      → IsServerUse srv c (Call.delete ("cubbyhole/" <> name))
  decrypts :
      (key : String) (m : Option Dict)
      → c ≡ srv.vault_client
      → IsServerUse srv c (Call.write (srv.config.transit_backend <> "/decrypt/" <> key) m)
  wraps :
      (m : Option Dict)
      → c.token ≡ srv.vault_token
      → IsServerUse srv c (Call.write "/sys/wrapping/wrap" m)
  unwraps : (token : String) → c.token ≡ srv.vault_token → IsServerUse srv c (Call.unwrap token)

-- Root generation needs no token: the unseal keys are the authority.
pub data IsRootGeneration : Call → Type 0 where
  status : IsRootGeneration Call.root_status
  init : (otp : String) → IsRootGeneration (Call.root_init otp)
  update : (shard nonce : String) → IsRootGeneration (Call.root_update shard nonce)
  cancel : IsRootGeneration Call.root_cancel

-- The methods that a user's token may call.
abbrev pub is_user_call : Call → Bool
is_user_call (Call.put_policy _ _) = false
is_user_call (Call.root_init _) = false
is_user_call (Call.root_update _ _) = false
is_user_call Call.root_status = false
is_user_call Call.root_cancel = false
is_user_call Call.revoke_self = false
is_user_call (Call.unwrap _) = false
is_user_call (Call.mount _ _) = false
is_user_call (Call.enable_auth _ _) = false
is_user_call _ = true

-- What a generated root token is used for.
pub data IsRootUse : Call → Type 0 where
  looks_up : IsRootUse Call.lookup_self
  puts : (name rules : String) → IsRootUse (Call.put_policy name rules)
  revokes : IsRootUse Call.revoke_self

module _ ⦃w : World⦄ where
  -- The effects of a handler that serves the user with this token.
  pub data Allowed (srv : Server) (user : String) : Effect → Type 0 where
    connects : (b : Bool) → Allowed srv user (connect b)
    as_user :
        (c : Client) (q : Call)
        → c.token ≡ user
        → is_user_call q ≡ true
        → Allowed srv user (vault c q)
    as_server : (c : Client) (q : Call) → IsServerUse srv c q → Allowed srv user (vault c q)
    as_nobody :
        (c : Client) (q : Call) → c.token ≡ "" → IsRootGeneration q → Allowed srv user (vault c q)
    as_root :
        (c : Client) (q : Call) → IsRootToken c.token → IsRootUse q → Allowed srv user (vault c q)
    compares : (r : Repo) (base head : String) → Allowed srv user (compare_commits r base head)
    fetches : (r : Repo) (path head : String) → Allowed srv user (get_contents r path head)
    posts : (url type body : String) → Allowed srv user (http_post url type body)

  -- The server's variables are as they were at the start, and all effects since are allowed.
  pub record IsTrusted (start : State) (user : String) (s : State) : Type 0 where
    pub same_server : s.server ≡ start.server
    pub allowed : Since (λ e _. Allowed start.server user e) start.trace s.trace

  Ensures-new_vault_client : (P : State → Type 0) → Ensures P (λ c. c.token ≡ "") new_vault_client
  unfolding new_vault_client ◌>>=◌ gets perform pure
  Ensures-new_vault_client P = record { at = λ s c _. ground arith }

  Ensures-client :
      (P : State → Type 0) (auth : AuthInfo) → Ensures P (λ c. c.token ≡ auth.id) (client auth)
  unfolding client new_vault_client call ◌>>=◌ gets perform pure
  Ensures-client P auth = record { at = λ s c _. ground arith }

module _ ⦃w : World⦄ {start : State} {user : String} where
  pub Keeps-Allowed :
      (e : Effect) → Allowed start.server user e → Keeps (IsTrusted start user) (perform e)
  Keeps-Allowed e a =
      Keeps-perform e λ s h. record { same_server = h.same_server; allowed = effect a h.allowed }

  pub Keeps-as_user :
      (c : Client) (q : Call)
      → c.token ≡ user
      → is_user_call q ≡ true
      → Keeps (IsTrusted start user) (call c q)
  unfolding call
  Keeps-as_user c q h u = Keeps-Allowed (vault c q) (as_user c q h u)

  pub Keeps-as_server :
      (c : Client) (q : Call)
      → IsServerUse start.server c q
      → Keeps (IsTrusted start user) (call c q)
  unfolding call
  Keeps-as_server c q h = Keeps-Allowed (vault c q) (as_server c q h)

  pub Keeps-as_nobody :
      (c : Client) (q : Call)
      → c.token ≡ ""
      → IsRootGeneration q
      → Keeps (IsTrusted start user) (call c q)
  unfolding call
  Keeps-as_nobody c q h g = Keeps-Allowed (vault c q) (as_nobody c q h g)

  pub Keeps-as_root :
      (c : Client) (q : Call)
      → IsRootToken c.token
      → IsRootUse q
      → Keeps (IsTrusted start user) (call c q)
  unfolding call
  Keeps-as_root c q t g = Keeps-Allowed (vault c q) (as_root c q t g)

  Keeps-new_vault_client : Keeps (IsTrusted start user) new_vault_client
  unfolding new_vault_client
  Keeps-new_vault_client =
      Keeps-bind_gets _ _ λ s h.
        Keeps-bind _ _ (Keeps-Allowed _ (connects s.server.vault_skip_tls)) (λ _. Keeps-pure _)

  -- A client that is made has no token.
  pub Keeps-bind_new_vault_client :
      {A : Type 0} (f : Client → Exec String A)
      → ((c : Client) → c.token ≡ "" → Keeps (IsTrusted start user) (f c))
      → Keeps (IsTrusted start user) (new_vault_client >>= f)
  Keeps-bind_new_vault_client f k =
      Keeps-bind_Ensures (λ c. c.token ≡ "") _ f Keeps-new_vault_client (Ensures-new_vault_client _)
        k

  -- A client of some credentials carries their token, which may look itself up.
  bind_client :
      {A : Type 0} (auth : AuthInfo) (f : Client → Exec String A)
      → ((c : Client) → c.token ≡ auth.id → Keeps (IsTrusted start user) (call c Call.lookup_self))
      → ((c : Client) → c.token ≡ auth.id → Keeps (IsTrusted start user) (f c))
      → Keeps (IsTrusted start user) (client auth >>= f)
  unfolding client
  bind_client auth f look k =
      Keeps-bind_Ensures (λ c. c.token ≡ auth.id) _ f
        (Keeps-bind_new_vault_client _
          λ c _. Keeps-bind _ _ (look (set_token c auth.id) refl) (λ _. Keeps-pure _))
        (Ensures-client _ auth) k

  pub Keeps-bind_root :
      {A : Type 0} (root : AuthInfo) (f : Client → Exec String A)
      → IsRootToken root.id
      → ((c : Client) → c.token ≡ root.id → Keeps (IsTrusted start user) (f c))
      → Keeps (IsTrusted start user) (client root >>= f)
  Keeps-bind_root root f t k =
      bind_client root f
        (λ c h. Keeps-as_root c Call.lookup_self (subst IsRootToken (sym h) t) looks_up) k

module _ ⦃w : World⦄ {start : State} where
  -- the user's own
  pub Keeps-bind_client :
      {A : Type 0} (auth : AuthInfo) (f : Client → Exec String A)
      → ((c : Client) → c.token ≡ auth.id → Keeps (IsTrusted start auth.id) (f c))
      → Keeps (IsTrusted start auth.id) (client auth >>= f)
  Keeps-bind_client auth f k = bind_client auth f (λ c h. Keeps-as_user c Call.lookup_self h refl) k
