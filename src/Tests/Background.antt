-- ===== src/Tests/Background.antt =====
-- Runs of the background work, and of listings.
use goldfish.Prelude.{◌⊎◌, ◌≡◌, refl, ℕ, ◌<◌, some, [], ◌∷◌, false, length, pos, negsuc}
use goldfish.Json.{object, str, Value, get, lookup}
use goldfish.Exec.{
  pure, require, gets, modify, on_error, try, done, panic, perform, deref, expect, ◌>>=◌,
}
use goldfish.Vault.Clients.{new_vault_client, client, call}
use goldfish.Vault.Users.{
  tokens, fetch_tokens, lookup_accessor, accessor_at, list_keys, list_tokens, page_limit,
}
use goldfish.Exec.{State}
use goldfish.Exec.Runs.{Returns}
use goldfish.Vault.Users.{delete_by, delete_user}
use goldfish.Vault.Users.Deletion.{IsDeletion, delete_user-IsDeletion}
use goldfish.Vault.Users.Pages.{Page, page_limit-in_range, list_tokens-panics}
use goldfish.Vault.Users.Listings.{IsPage, list_tokens-IsPage}
use goldfish.Vault.Settings.{load_config_from_vault}
use goldfish.Vault.Settings.Failure.{load_config_from_vault-Fails}
use goldfish.Vault.Start.Ready.{IsReady, start_goldfish_wrapper-IsReady}
use goldfish.Vault.Start.{reload, renew, Workers, run_background, start_goldfish_wrapper}
use goldfish.Vault.Start.Laws.{run_background-stops}
use goldfish.Tests.Sample.{sample, user, running, accessors}

abbrev workers : Workers
workers = record { state = running; reload_blocks = false; renew_blocks = false }

run_background-stops_example :
    run_background ⦃w = sample 0⦄ "config"
      (renew ∷ reload ∷ [])
      (run_background ⦃w = sample 0⦄ "config" (reload ∷ renew ∷ []) workers)
    ≡ run_background ⦃w = sample 0⦄ "config" (reload ∷ renew ∷ []) workers
run_background-stops_example =
    run_background-stops ⦃w = sample 0⦄ "config" (renew ∷ reload ∷ []) workers

limited : page_limit (length accessors) (pos 1) ≡ some 2
unfolding page_limit
limited = refl

page_limit-in_range_example :
    Page (length accessors) 1 2
    × ((i : ℕ) → i < 2 → (a : Value) × (accessor_at accessors (pos 1) i ≡ some a))
page_limit-in_range_example = page_limit-in_range accessors 1 2 limited

keys_listed :
    list_keys ⦃w = sample 0⦄ running.server.vault_client "auth/token/accessors" running ≡ (
      done accessors,
      (list_keys ⦃w = sample 0⦄ running.server.vault_client "auth/token/accessors" running).1,
    )
unfolding list_keys call perform ◌>>=◌ deref expect get lookup
keys_listed = refl

list_tokens-panics_example :
    list_tokens ⦃w = sample 0⦄ running.server.vault_client (negsuc 4) running ≡ (
      panic,
      (list_keys ⦃w = sample 0⦄ running.server.vault_client "auth/token/accessors" running).1,
    )
list_tokens-panics_example =
    list_tokens-panics ⦃w = sample 0⦄ running.server.vault_client accessors 4 running _ keys_listed

abbrev looked_up : Value
looked_up = object (("ciphertext", str "a3") ∷ ("plaintext", str "a3") ∷ [])

page_read :
    (list_tokens ⦃w = sample 0⦄ running.server.vault_client (pos 2) running).0
    ≡ done (tokens (looked_up ∷ []))
unfolding list_tokens list_keys fetch_tokens lookup_accessor page_limit accessor_at call perform
    ◌>>=◌ deref expect pure get lookup try
page_read = refl

list_tokens-IsPage_example :
    IsPage ⦃w = sample 0⦄ running.server.vault_client accessors 2 (tokens (looked_up ∷ []))
list_tokens-IsPage_example =
    list_tokens-IsPage ⦃w = sample 0⦄ running.server.vault_client accessors 2 running _ _
      keys_listed page_read

load_config_from_vault-Fails_example :
    ((load_config_from_vault ⦃w = sample 0⦄ "config" running).0 ≡ done tt)
    ⊎ ((load_config_from_vault ⦃w = sample 0⦄ "config" running).1.server ≡ running.server)
load_config_from_vault-Fails_example = load_config_from_vault-Fails ⦃w = sample 0⦄ "config" running

started :
    (start_goldfish_wrapper ⦃w = sample 0⦄ "wrapped" "auth/approle/login" "goldfish" running).0
    ≡ done tt
unfolding start_goldfish_wrapper new_vault_client require modify get lookup call perform gets ◌>>=◌
    deref expect pure on_error
started = refl

start_goldfish_wrapper-IsReady_example :
    IsReady
      (start_goldfish_wrapper ⦃w = sample 0⦄ "wrapped" "auth/approle/login" "goldfish" running).1
start_goldfish_wrapper-IsReady_example =
    start_goldfish_wrapper-IsReady ⦃w = sample 0⦄ "wrapped" "auth/approle/login" "goldfish" running
      started

abbrev deleted : State
deleted = (delete_user ⦃w = sample 0⦄ user "token" "a1" running).1

deletes : Returns (delete_user ⦃w = sample 0⦄ user "token" "a1") running tt deleted
unfolding delete_user delete_by client new_vault_client call perform gets ◌>>=◌ require pure
deletes = refl

delete_user-IsDeletion_example : IsDeletion ⦃w = sample 0⦄ user "token" "a1" running deleted
delete_user-IsDeletion_example =
    delete_user-IsDeletion ⦃w = sample 0⦄ user "token" "a1" running deleted deletes
