-- ===== src/Vault/Settings/Laws.antt =====
-- vault/config.go, vault/vault.go: what the run-time settings always are.
use goldfish.Prelude.{◌≡◌, refl, ℕ, String, true, false, ◌⊎◌, inl, inr, starts_with, if◌then◌else◌}
use goldfish.Types.{Config}
use goldfish.World.{World, Client, Call, vault}
use goldfish.Exec.{State, modify}
use goldfish.Exec.Keeps.{Keeps, Keeps-modify, Keeps-perform, keeps_rules}
use goldfish.Vault.Clients.{call}
use goldfish.Vault.Settings.{
  slack_prefix, check_webhook, install, update_config, update_if_new, load_config_from_vault,
}

-- The webhook is that of Slack, or there is neither webhook nor channel.
abbrev pub IsSafe : Config → Type 0
IsSafe c =
    (starts_with c.slack_webhook slack_prefix ≡ true)
    ⊎ ((c.slack_webhook ≡ "") × (c.slack_channel ≡ ""))

pub record HasSafeConfig (commit : String) (s : State) : Type 0 where
  pub safe : IsSafe s.server.config
  pub same_commit : s.server.github_current_commit ≡ commit

check_webhook-IsSafe : (c : Config) → IsSafe (check_webhook c)
unfolding check_webhook
check_webhook-IsSafe c =
    elim (starts_with c.slack_webhook slack_prefix)
        as (λ b.
          (starts_with c.slack_webhook slack_prefix ≡ b)
          → IsSafe (if b then c else record c { slack_webhook = ""; slack_channel = "" })) [
            | true ↦ λ e. inl e
            | false ↦ λ e. inr (refl, refl)
          ]
      refl

module _ ⦃w : World⦄ {commit : String} where
  pub Keeps-call : (c : Client) (q : Call) → Keeps (HasSafeConfig commit) (call c q)
  unfolding call
  Keeps-call c q =
      Keeps-perform {P = HasSafeConfig commit} (vault c q)
        λ s h. record { safe = h.safe; same_commit = h.same_commit }

  Keeps-update :
      (path : String) (temp : Config) (new_hash old_hash : ℕ)
      → IsSafe temp
      → Keeps (HasSafeConfig commit) (update_if_new path temp new_hash old_hash)
  unfolding update_if_new update_config
  Keeps-update path temp new_hash old_hash safe =
      search (keeps_rules, Keeps-call, installing) depth 10
    where
      installing :
          (time : String)
          → Keeps {E = String}
              (HasSafeConfig commit)
              (modify (install (record temp { last_updated = time }) new_hash))
      installing time = Keeps-modify _ λ s h. record { safe = safe; same_commit = h.same_commit }

  pub Keeps-load_config_from_vault :
      (path : String) → Keeps (HasSafeConfig commit) (load_config_from_vault path)
  unfolding load_config_from_vault
  Keeps-load_config_from_vault path = search (keeps_rules, Keeps-call, taking) depth 14
    where
      taking :
          (c : Config) (new_hash old_hash : ℕ)
          → Keeps (HasSafeConfig commit) (update_if_new path (check_webhook c) new_hash old_hash)
      taking c new_hash old_hash =
          Keeps-update path (check_webhook c) new_hash old_hash (check_webhook-IsSafe c)
