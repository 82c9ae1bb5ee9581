-- ===== src/Handlers/Requests/Quorum/Calls.antt =====
-- The invariant, and the calls of Vault that keep it.
use goldfish.Prelude.{◌≡◌, arith, ℕ, ◌+◌, ◌≤◌, String, ◌<>◌, Bool, Option, some, List, [], ◌∷◌}
use goldfish.Json.{Dict}
use goldfish.Types.{AuthInfo}
use goldfish.World.{World, Client, Call, Effect, connect, vault}
use goldfish.Exec.{State, done, gets, pure, perform, deref, on_error, ◌>>=◌}
use goldfish.Exec.Trace.{Since, effect}
use goldfish.Exec.Keeps.{Keeps, Keeps-bind, Keeps-gets, Keeps-perform, keeps_rules}
use goldfish.Vault.Clients.{new_vault_client, client, call}
use goldfish.Vault.Auth.{revoke_self}
use goldfish.Vault.Policies
use goldfish.Vault.Helper.{
  server_client, generate_root_status, generate_root_init, generate_root_update,
  generate_root_cancel, read_from_cubbyhole, write_to_cubbyhole, delete_from_cubbyhole, wrap_data,
  unwrap_data,
}

abbrev pub is_unwrap : Effect → ℕ
is_unwrap (vault _ (Call.unwrap _)) = 1
is_unwrap _ = 0

-- How many wrapping tokens were unwrapped.
abbrev pub unwraps : List Effect → ℕ
unwraps [] = 0
unwraps (e ∷ t) = is_unwrap e + unwraps t

-- `J name rules before` is what justifies a write of a policy, `before` which these effects were made.
abbrev pub Justification : Type 1
Justification = String → String → List Effect → Type 0

abbrev pub Writes : Justification → Effect → List Effect → Type 0
Writes J (vault _ (Call.put_policy name rules)) before = J name rules before
Writes J _ before = Unit

-- Every write since `base` is justified, and at least `n` unwraps were made.
pub record IsFair (J : Justification) (base : List Effect) (n : ℕ) (s : State) : Type 0 where
  pub justified : Since (Writes J) base s.trace
  pub counted : n ≤ unwraps s.trace

-- a call that writes no policy
abbrev pub IsPlain : Call → Type 0
IsPlain (Call.put_policy _ _) = ⊥
IsPlain _ = Unit

plain-Writes :
    (J : Justification) (c : Client) (q : Call) (t : List Effect)
    → IsPlain q
    → Writes J (vault c q) t
plain-Writes J c (Call.put_policy _ _) t h = absurd h
plain-Writes J c _ t h = tt

module _ ⦃w : World⦄ {J : Justification} {base : List Effect} {n : ℕ} where
  pub Keeps-plain : (c : Client) (q : Call) → IsPlain q → Keeps (IsFair J base n) (call c q)
  unfolding call
  Keeps-plain c q h = Keeps-perform (vault c q) λ s f. record {
    justified = effect (plain-Writes J c q s.trace h) f.justified;
    counted = omega (arith, f.counted);
  }

  Keeps-new_vault_client : Keeps (IsFair J base n) new_vault_client
  unfolding new_vault_client
  Keeps-new_vault_client = search (keeps_rules, connecting) depth 8
    where
      connecting : (b : Bool) → Keeps (IsFair J base n) (perform (connect b))
      connecting b =
          Keeps-perform {P = IsFair J base n} (connect b)
            λ s f. record { justified = effect tt f.justified; counted = omega (arith, f.counted) }

  pub Keeps-client : (auth : AuthInfo) → Keeps (IsFair J base n) (client auth)
  unfolding client
  Keeps-client auth = search (keeps_rules, Keeps-new_vault_client, Keeps-plain, tt) depth 8

  client_call :
      (auth : AuthInfo) (q : Call)
      → IsPlain q
      → Keeps (IsFair J base n) (client auth >>= λ c. call c q)
  client_call auth q h = Keeps-bind _ _ (Keeps-client auth) (λ c. Keeps-plain c q h)

  nobody_call :
      (q : Call) → IsPlain q → Keeps (IsFair J base n) (new_vault_client >>= λ c. call c q)
  nobody_call q h = Keeps-bind _ _ Keeps-new_vault_client (λ c. Keeps-plain c q h)

  server_call :
      (q : Call)
      → IsPlain q
      → Keeps
          (IsFair J base n)
          (new_vault_client >>= λ _. gets (λ s. s.server.vault_client) >>= λ api. call api q)
  server_call q h =
      Keeps-bind _ _ Keeps-new_vault_client
        λ _. Keeps-bind _ _ (Keeps-gets _) (λ c. Keeps-plain c q h)

  pub Keeps-generate_root_status : Keeps (IsFair J base n) generate_root_status
  unfolding generate_root_status
  Keeps-generate_root_status = nobody_call Call.root_status tt

  pub Keeps-generate_root_init : (otp : String) → Keeps (IsFair J base n) (generate_root_init otp)
  unfolding generate_root_init
  Keeps-generate_root_init otp = nobody_call (Call.root_init otp) tt

  pub Keeps-generate_root_update :
      (shard nonce : String) → Keeps (IsFair J base n) (generate_root_update shard nonce)
  unfolding generate_root_update
  Keeps-generate_root_update shard nonce = nobody_call (Call.root_update shard nonce) tt

  pub Keeps-generate_root_cancel : Keeps (IsFair J base n) generate_root_cancel
  unfolding generate_root_cancel
  Keeps-generate_root_cancel = nobody_call Call.root_cancel tt

  pub Keeps-revoke_self : (auth : AuthInfo) → Keeps (IsFair J base n) (revoke_self auth)
  unfolding revoke_self
  Keeps-revoke_self auth = client_call auth Call.revoke_self tt

  pub Keeps-read_from_cubbyhole :
      (name : String) → Keeps (IsFair J base n) (read_from_cubbyhole name)
  unfolding read_from_cubbyhole
  Keeps-read_from_cubbyhole name = server_call (Call.read ("cubbyhole/" <> name)) tt

  pub Keeps-write_to_cubbyhole :
      (name : String) (m : Dict) → Keeps (IsFair J base n) (write_to_cubbyhole name m)
  unfolding write_to_cubbyhole
  Keeps-write_to_cubbyhole name m = server_call (Call.write ("cubbyhole/" <> name) (some m)) tt

  pub Keeps-delete_from_cubbyhole :
      (name : String) → Keeps (IsFair J base n) (delete_from_cubbyhole name)
  unfolding delete_from_cubbyhole
  Keeps-delete_from_cubbyhole name = server_call (Call.delete ("cubbyhole/" <> name)) tt

  get_call : (c : Client) (name : String) → Keeps (IsFair J base n) (call c (Call.get_policy name))
  get_call c name = Keeps-plain c (Call.get_policy name) tt

  pub Keeps-get_policy :
      (auth : AuthInfo) (name : String) → Keeps (IsFair J base n) (Policies.get_policy auth name)
  unfolding Policies.get_policy
  Keeps-get_policy auth name = search (keeps_rules, Keeps-client, get_call) depth 8

  Keeps-server_client : Keeps (IsFair J base n) server_client
  unfolding server_client
  Keeps-server_client = search (keeps_rules, Keeps-new_vault_client) depth 8

  pub Keeps-wrap_data : (ttl : String) (m : Dict) → Keeps (IsFair J base n) (wrap_data ttl m)
  unfolding wrap_data
  Keeps-wrap_data ttl m = search (keeps_rules, Keeps-server_client, Keeps-plain, tt) depth 9

  pub Keeps-unwrap_data : (token : String) → Keeps (IsFair J base n) (unwrap_data token)
  unfolding unwrap_data
  Keeps-unwrap_data token = search (keeps_rules, Keeps-server_client, Keeps-plain, tt) depth 9

  -- The write itself, which has to be justified by the unwraps.
  Keeps-put :
      (c : Client) (name rules : String)
      → ((t : List Effect) → n ≤ unwraps t → J name rules t)
      → Keeps (IsFair J base n) (call c (Call.put_policy name rules))
  unfolding call
  Keeps-put c name rules j =
      Keeps-perform {P = IsFair J base n} (vault c (Call.put_policy name rules)) λ s f. record {
        justified = effect (j s.trace f.counted) f.justified;
        counted = omega (arith, f.counted);
      }

  pub Keeps-put_policy :
      (auth : AuthInfo) (name rules : String)
      → ((t : List Effect) → n ≤ unwraps t → J name rules t)
      → Keeps (IsFair J base n) (Policies.put_policy auth name rules)
  unfolding Policies.put_policy
  Keeps-put_policy auth name rules j = search (keeps_rules, Keeps-client, writing) depth 8
    where
      writing : (c : Client) → Keeps (IsFair J base n) (call c (Call.put_policy name rules))
      writing c = Keeps-put c name rules j

module _ ⦃w : World⦄ where
  -- An unwrap that returns was made.
  pub unwraps-unwrap_data :
      (token : String) (s : State) (m : Option Dict)
      → (unwrap_data token s).0 ≡ done m
      → unwraps s.trace + 1 ≤ unwraps (unwrap_data token s).1.trace
  unfolding unwrap_data server_client new_vault_client call on_error perform ◌>>=◌ gets pure deref
  unwraps-unwrap_data token s m h = ground arith
