-- ===== src/Vault/Settings/Failure.antt =====
-- vault/config.go: a reload of the settings that fails.
use goldfish.Prelude.{◌≡◌, refl, ◌⊎◌, inl, inr, ℕ, String, nat_eq}
use goldfish.Types.{Config}
use goldfish.World.{World, Client, Call, vault}
use goldfish.Exec.{Server, State, done}
use goldfish.Exec.Keeps.{
  Keeps, Keeps-perform, Keeps-pure, Keeps-gets, Keeps-lift, Keeps-expect, Keeps-on_error,
}
use goldfish.Exec.Fails.{Fails, Fails-bind, Fails-if, Fails-modify, Fails-Keeps}
use goldfish.Vault.Clients.{call}
use goldfish.Vault.Settings.{update_config, update_if_new, load_config_from_vault}

record SameServer (server : Server) (s : State) : Type 0 where
  pub same : s.server ≡ server

module _ ⦃w : World⦄ {server : Server} where
  Keeps-call : (c : Client) (q : Call) → Keeps (SameServer server) (call c q)
  unfolding call
  Keeps-call c q = Keeps-perform {P = SameServer server} (vault c q) λ s h. record { same = h.same }

  updates :
      (path : String) (temp : Config) (new_hash : ℕ)
      → Fails (SameServer server) (update_config path temp new_hash)
  unfolding update_config
  updates path temp new_hash =
      search (Fails-bind, Fails-modify, Keeps-gets, Keeps-on_error, Keeps-call) depth 10

  updates_if_new :
      (path : String) (temp : Config) (new_hash old_hash : ℕ)
      → Fails (SameServer server) (update_if_new path temp new_hash old_hash)
  unfolding update_if_new
  updates_if_new path temp new_hash old_hash =
      Fails-if (nat_eq new_hash old_hash) _ (update_config path temp new_hash)
        (Fails-Keeps _ (Keeps-pure tt)) (updates path temp new_hash)

  loads : (path : String) → Fails (SameServer server) (load_config_from_vault path)
  unfolding load_config_from_vault
  loads path =
      search (Fails-bind, updates_if_new, Keeps-gets, Keeps-lift, Keeps-expect, Keeps-call) depth 12

module _ ⦃w : World⦄ where
  -- A reload of the settings returns no error, or it leaves all variables of the server as they were,
  -- the settings and their hash among them, at whichever step it fails.
  pub load_config_from_vault-Fails :
      (path : String) (s : State)
      → ((load_config_from_vault path s).0 ≡ done tt)
        ⊎ ((load_config_from_vault path s).1.server ≡ s.server)
  load_config_from_vault-Fails path s = elim ((loads path).at s (record { same = refl })) [
    | inl (_, h) ↦ inl h
    | inr h ↦ inr h.same
  ]
