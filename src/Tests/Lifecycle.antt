-- ===== src/Tests/Lifecycle.antt =====
-- A request from its submission to its attempt, in a world whose cubbyhole stores.
use mathlib.Core.Path.{subst}
use goldfish.Prelude.{◌≡◌, refl, sym, ℕ, String, none, List, [], ◌∷◌, pos}
use goldfish.Prelude.Text.{is_space, format_hex, trim_suffix, has_prefix, size}
use goldfish.Json.{get, lookup}
use goldfish.Types.{PolicyRequest}
use goldfish.World.{ok}
use goldfish.Exec.{
  State, Flow, done, exit, panic, perform, pure, lift, deref, expect, require, gets, modify,
  on_error, defer, ◌>>=◌,
}
use goldfish.Exec.Runs.{Returns}
use goldfish.Vault.Auth.{get_config, revoke_self}
use goldfish.Vault.Clients.{new_vault_client, client, call}
use goldfish.Vault.Policies
use goldfish.Vault.Policies.{get_policy, put_policy}
use goldfish.Vault.Helper.{
  server_client, read_from_cubbyhole, write_to_cubbyhole, delete_from_cubbyhole, wrap_data,
  unwrap_data, generate_root_status, generate_root_init,
}
use goldfish.Handlers.Responses.{Response}
use goldfish.Handlers.Session.{send_csrf_token}
use goldfish.Handlers.Requests.Tokens.{encode_tokens, decode_tokens, store_tokens, unwrap_all}
use goldfish.Handlers.Requests.Verify.{verify_request, load_request}
use goldfish.Handlers.Requests.Root.{generate_root, feed_if_needed}
use goldfish.Handlers.Requests.Add.{notify, submit}
use goldfish.Handlers.Requests.Update.{
  earlier_tokens, store_progress, discard_request, discard_tokens, apply_change, attempt_change,
  with_tokens, update_by_change_id,
}
use goldfish.Github.{
  is_policy_file, insert, fetch_file, collect_files, check_commits, get_hcl_files_from_path,
}
use goldfish.Handlers.Requests.Diffs.{
  compare_github_vault, changed_policies, removed_policies, read_existing,
}
use goldfish.Handlers.Requests.Commit.{
  tokens_in, keep_tokens, with_commit_tokens, update_by_commit_hash,
}
use goldfish.Handlers.Requests.Pending.Held.{HoldsTokens}
use goldfish.Handlers.Requests.Pending.Commits.{Continues, update_by_commit_hash-Continues}
use goldfish.Handlers.Requests.Pending.{ok-inj, IsPending}
use goldfish.Handlers.Requests.Pending.Advance.{Advances, update_by_change_id-Advances}
use goldfish.Handlers.Requests.Pending.Rounds.{Entry, enter_keys, IsAttempted}
use goldfish.Handlers.Requests.Pending.Submitted.{submit-IsPending, submit-IsAttempted}
use goldfish.Tests.Sample.{user, visit, running, linked}
use goldfish.Tests.Store.{memory, memory-IsReliable}

abbrev asked : PolicyRequest
asked = record {
  policy = "dev";
  current = "old";
  new = "rules";
  requester = "alice";
  requester_hash = "h";
  required = 2;
  progress = 0;
}

abbrev entry : String → Entry
entry key = record { request = visit none; auth = user; key = key }

-- the value of an action that returns
abbrev value : {A : Type 0} → A → Flow Response A → A
value d (done a) = a
value d (exit e) = d
value d panic = d

abbrev no_response : Response
no_response = record { status = pos 0; body = [] }

abbrev submitted_state : State
submitted_state = (submit ⦃w = memory⦄ asked running).1

abbrev submitted_response : Response
submitted_response = value no_response (submit ⦃w = memory⦄ asked running).0

submits : Returns (submit ⦃w = memory⦄ asked) running submitted_response submitted_state
unfolding submit on_error lift write_to_cubbyhole new_vault_client gets perform call pure get_config
    notify ◌>>=◌
submits = refl

submit-IsPending_example :
    (n : ℕ) × (memory.hash_request asked ≡ ok n)
    × IsPending ⦃w = memory⦄ running.server (format_hex n) asked [] submitted_state
submit-IsPending_example =
    submit-IsPending ⦃w = memory⦄ asked running submitted_response submitted_state refl submits

pending : IsPending ⦃w = memory⦄ running.server (format_hex 171) asked [] submitted_state
pending =
    let (n, hashed, p) =
      submit-IsPending ⦃w = memory⦄ asked running submitted_response submitted_state refl submits in
    subst (λ m. IsPending ⦃w = memory⦄ running.server (format_hex m) asked [] submitted_state)
      (ok-inj n 171 (sym hashed)) p

abbrev hash : String
hash = format_hex 171

abbrev first_response : Response
first_response =
    value no_response
      (update_by_change_id ⦃w = memory⦄ (visit none) user hash "key" submitted_state).0

abbrev first_state : State
first_state = (update_by_change_id ⦃w = memory⦄ (visit none) user hash "key" submitted_state).1

first_key :
    Returns
      (update_by_change_id ⦃w = memory⦄ (visit none) user hash "key")
      submitted_state
      first_response
      first_state
unfolding submit on_error lift write_to_cubbyhole new_vault_client gets perform call pure get_config
    notify ◌>>=◌ update_by_change_id load_request verify_request read_from_cubbyhole get_policy
    client generate_root_status earlier_tokens wrap_data server_client with_tokens store_progress
    store_tokens deref expect require format_hex encode_tokens is_space
first_key = refl

update_by_change_id-Advances_example :
    Advances ⦃w = memory⦄ running.server
      (visit none)
      user
      hash
      "key"
      asked
      []
      first_response
      first_state
update_by_change_id-Advances_example =
    update_by_change_id-Advances ⦃w = memory⦄ running.server memory-IsReliable (visit none) user
      hash "key" asked [] submitted_state first_response first_state pending first_key

abbrev answers : List Response
answers = elim (enter_keys ⦃w = memory⦄ hash (entry "key" ∷ entry "other" ∷ []) submitted_state).0 [
  | done rs ↦ rs
  | _ ↦ []
]

abbrev last_state : State
last_state = (enter_keys ⦃w = memory⦄ hash (entry "key" ∷ entry "other" ∷ []) submitted_state).1

both_keys :
    Returns
      (enter_keys ⦃w = memory⦄ hash (entry "key" ∷ entry "other" ∷ []))
      submitted_state
      answers
      last_state
unfolding submit on_error lift write_to_cubbyhole new_vault_client gets perform call pure get_config
    notify ◌>>=◌ update_by_change_id load_request verify_request read_from_cubbyhole get_policy
    client generate_root_status earlier_tokens wrap_data server_client with_tokens store_progress
    store_tokens deref expect require format_hex encode_tokens is_space get lookup decode_tokens
    enter_keys attempt_change discard_tokens discard_request delete_from_cubbyhole defer unwrap_all
    unwrap_data generate_root generate_root_init feed_if_needed apply_change revoke_self put_policy
    send_csrf_token modify
both_keys = refl

submit-IsAttempted_example :
    IsAttempted ⦃w = memory⦄ hash asked [] (entry "key" ∷ []) (entry "other") answers last_state
submit-IsAttempted_example =
    submit-IsAttempted ⦃w = memory⦄ memory-IsReliable asked (entry "key" ∷ []) (entry "other") 171
      running submitted_response submitted_state answers last_state refl refl refl submits both_keys

no_tokens : HoldsTokens ⦃w = memory⦄ linked.server "head" [] linked
no_tokens = record {
  body = none;
  is_stored = record { same_server = refl; is_stored = refl };
  nothing_yet = λ e. refl;
  same_tokens = λ n. absurd (n refl);
  plain = tt;
}

abbrev kept_response : Response
kept_response =
    value no_response (update_by_commit_hash ⦃w = memory⦄ (visit none) user "head" "key" linked).0

abbrev kept_state : State
kept_state = (update_by_commit_hash ⦃w = memory⦄ (visit none) user "head" "key" linked).1

commit_key :
    Returns
      (update_by_commit_hash ⦃w = memory⦄ (visit none) user "head" "key")
      linked
      kept_response
      kept_state
unfolding update_by_commit_hash with_commit_tokens keep_tokens tokens_in compare_github_vault
    get_config changed_policies removed_policies read_existing lookup Policies.list_policies
    get_policy client new_vault_client call get_hcl_files_from_path check_commits collect_files
    fetch_file is_policy_file insert trim_suffix has_prefix size perform ◌>>=◌ gets pure deref
    require lift on_error read_from_cubbyhole wrap_data server_client generate_root_status get
    store_tokens write_to_cubbyhole encode_tokens is_space
commit_key = refl

update_by_commit_hash-Continues_example :
    Continues ⦃w = memory⦄ linked.server "head"
      (visit none)
      user
      "key"
      linked
      []
      kept_response
      kept_state
update_by_commit_hash-Continues_example =
    update_by_commit_hash-Continues ⦃w = memory⦄ linked.server "head" memory-IsReliable (visit none)
      user "key" [] linked kept_response kept_state no_tokens commit_key
