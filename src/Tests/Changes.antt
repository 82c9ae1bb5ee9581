-- ===== src/Tests/Changes.antt =====
-- Runs of changes of policies.
use mathlib.Core.Path.{subst}
use goldfish.Handlers.Requests.Verify.Ids.{HasShortHashes, verify_request-same_hash}
use goldfish.Prelude.{arith, ◌<◌, ◌^◌, List, false, nat_eq, ◌≡◌, ◌↔◌, refl, none, [], ◌∷◌, All}
use goldfish.Prelude.Text.{is_space, format_hex, trim_suffix, has_prefix, size}
use Prim.Native.Char.{Char, code}
use goldfish.Handlers.Requests.Tokens.Pieces.{IsPlain}
use goldfish.Handlers.Requests.Tokens.RoundTrip.{decode_tokens-encode_tokens}
use goldfish.Types.{PolicyRequest, PolicyDiff}
use goldfish.Vault.Auth.{get_config}
use goldfish.Handlers.Requests.Diffs.{
  compare_github_vault, changed_policies, removed_policies, read_existing,
}
use goldfish.Handlers.Requests.Diffs.Differences.{IsComparison}
use goldfish.Handlers.Requests.Diffs.Compared.{compare_github_vault-IsComparison}
use goldfish.World.{Repo, RootStatus}
use goldfish.Exec.{
  State, done, panic, gets, pure, deref, expect, require, lift, on_error, perform, ◌>>=◌,
}
use goldfish.Exec.Trace.{Since}
use goldfish.Vault.Clients.{new_vault_client, client, call}
use goldfish.Vault.Helper.{read_from_cubbyhole, generate_root_status}
use goldfish.Vault.Policies
use goldfish.Github.{
  is_policy_file, insert, fetch_file, collect_files, check_branch, check_commits,
  get_hcl_files_from_path,
}
use goldfish.Github.Laws.{Parses, Compared, get_hcl_files_from_path-Parses}
use goldfish.Json.{get, lookup}
use goldfish.Vault.Login.{lookup_self}
use goldfish.Handlers.Requests.Add.{new_request}
use goldfish.Handlers.Requests.Add.Laws.{IsNew, new_request-verify_request}
use goldfish.Handlers.Requests.Tokens.{
  is_bracket, encode_tokens, decode_tokens, requests_path, tokens_path,
}
use goldfish.Handlers.Requests.Verify.{verify_request, load_request}
use goldfish.Handlers.Requests.Verify.Laws.{IsValid, verify_request-IsValid}
use goldfish.Handlers.Requests.Update.{apply_change, with_tokens, update_by_change_id}
use goldfish.Handlers.Requests.Cleanup.{
  IsRevoked, apply_changes-revokes, Deleted, Revoked, apply_change-revokes,
}
use goldfish.Handlers.Requests.Cleanup.Discards.{with_tokens-discards, with_commit_tokens-discards}
use goldfish.Handlers.Requests.Progress.{update_by_change_id-panics}
use goldfish.Handlers.Requests.Quorum.Calls.{Writes}
use goldfish.Handlers.Requests.Quorum.Request.{ByRequest, update_by_change_id-ByRequest}
use goldfish.Handlers.Requests.Quorum.Commit.{Differs, update_by_commit_hash-Differs}
use goldfish.Handlers.Requests.Commit.{apply_changes, with_commit_tokens, update_by_commit_hash}
use goldfish.Tests.Sample.{linked, sample, running, visit, user, request}

update_by_change_id-ByRequest_example :
    Since
      (Writes (ByRequest ⦃w = sample 0⦄ "ab" []))
      []
      (update_by_change_id ⦃w = sample 0⦄ (visit none) user "ab" "key" running).1.trace
update_by_change_id-ByRequest_example =
    update_by_change_id-ByRequest ⦃w = sample 0⦄ "ab" [] (visit none) user "key" running refl

update_by_commit_hash-Differs_example :
    Since
      (Writes (Differs ⦃w = sample 0⦄ "head" user running))
      []
      (update_by_commit_hash ⦃w = sample 0⦄ (visit none) user "head" "key" running).1.trace
update_by_commit_hash-Differs_example =
    update_by_commit_hash-Differs ⦃w = sample 0⦄ "head" user running (visit none) "key"

verify_request-IsValid_example :
    (verify_request ⦃w = sample 0⦄ (request 0) "ab" "old" ≡ none)
    ↔ IsValid ⦃w = sample 0⦄ (request 0) "ab" "old"
verify_request-IsValid_example = verify_request-IsValid ⦃w = sample 0⦄ (request 0) "ab" "old"

abbrev status : RootStatus
status = record { required = 1; nonce = "n"; encoded_root_token = "enc" }

with_tokens-discards_example :
    Deleted ⦃w = sample 0⦄ running.server.vault_client
      (tokens_path "ab")
      (with_tokens ⦃w = sample 0⦄
        (visit none)
        user
        "ab"
        (request 0)
        status
        ("t" ∷ [])
        running).1.trace
with_tokens-discards_example =
    with_tokens-discards ⦃w = sample 0⦄ (visit none) user "ab" (request 0) status ("t" ∷ []) running
      (λ t b. refl) refl

apply_change-revokes_example :
    Revoked ⦃w = sample 0⦄ "root-token"
      (requests_path "ab")
      (apply_change ⦃w = sample 0⦄ (visit none) user "ab" (request 0) "root-token" running).1.trace
apply_change-revokes_example =
    apply_change-revokes ⦃w = sample 0⦄ (visit none) user "ab" (request 0) "root-token" running
      (λ t b. refl) (λ t c e. (_, refl))

with_commit_tokens-discards_example :
    Deleted ⦃w = sample 0⦄ running.server.vault_client
      (tokens_path "head")
      (with_commit_tokens ⦃w = sample 0⦄ (visit none) "head" [] status ("t" ∷ []) running).1.trace
with_commit_tokens-discards_example =
    with_commit_tokens-discards ⦃w = sample 0⦄ (visit none) "head" [] status ("t" ∷ []) running
      (λ t b. refl) refl

apply_changes-revokes_example :
    IsRevoked ⦃w = sample 0⦄ "root-token"
      (apply_changes ⦃w = sample 0⦄
        (visit none)
        (record { policy = "dev"; current = "old"; new = "rules" } ∷ [])
        "root-token"
        running).1.trace
apply_changes-revokes_example =
    apply_changes-revokes ⦃w = sample 0⦄ (visit none)
      (record { policy = "dev"; current = "old"; new = "rules" } ∷ []) "root-token" running
      (λ t b. refl) (λ t c e. (_, refl))

abbrev behind_load : State
behind_load =
    (load_request ⦃w = sample 1⦄ user "ab" "Change appears to be malformed"
      "Request outdated by vault rekey" running).1

loaded :
    load_request ⦃w = sample 1⦄ user "ab" "Change appears to be malformed"
      "Request outdated by vault rekey" running
    ≡ (done (request 1, status), behind_load)
unfolding load_request verify_request format_hex read_from_cubbyhole generate_root_status
    Policies.get_policy client new_vault_client call perform ◌>>=◌ gets pure deref expect require
    lift on_error
loaded = refl

tokens_gone :
    read_from_cubbyhole ⦃w = sample 1⦄ (tokens_path "ab") behind_load
    ≡ (done none, (read_from_cubbyhole ⦃w = sample 1⦄ (tokens_path "ab") behind_load).1)
unfolding load_request verify_request format_hex read_from_cubbyhole generate_root_status
    Policies.get_policy client new_vault_client call perform ◌>>=◌ gets pure deref expect require
    lift on_error
tokens_gone = refl

update_by_change_id-panics_example :
    update_by_change_id ⦃w = sample 1⦄ (visit none) user "ab" "key" running
    ≡ (panic, (read_from_cubbyhole ⦃w = sample 1⦄ (tokens_path "ab") behind_load).1)
update_by_change_id-panics_example =
    update_by_change_id-panics ⦃w = sample 1⦄ (visit none) user "ab" "key" (request 1) status 0
      running behind_load _ loaded refl tokens_gone

abbrev asked : PolicyRequest
asked = record {
  policy = "dev";
  current = "old";
  new = "rules";
  requester = "alice";
  requester_hash = "acc";
  required = 1;
  progress = 0;
}

asking : (new_request ⦃w = sample 0⦄ user "dev" "rules" running).0 ≡ done asked
unfolding new_request lookup_self get lookup Policies.get_policy client new_vault_client call
    generate_root_status perform ◌>>=◌ gets pure expect require lift on_error
asking = refl

new_request-verify_request_example :
    IsNew ⦃w = sample 0⦄ "dev" "rules" asked
    × (verify_request ⦃w = sample 0⦄ asked (format_hex 171) "old" ≡ none)
new_request-verify_request_example =
    new_request-verify_request ⦃w = sample 0⦄ user "dev" "rules" running asked 171 asking refl

abbrev repo : Repo
repo = record { access_token = "t"; owner = "o"; repo = "r" }

found :
    (get_hcl_files_from_path ⦃w = sample 0⦄ repo "master" "policies" "base" "head" running).0
    ≡ done (("dev", "rules") ∷ [])
unfolding get_hcl_files_from_path check_commits check_branch collect_files fetch_file is_policy_file
    insert trim_suffix has_prefix size perform ◌>>=◌ pure deref require lift on_error
found = refl

get_hcl_files_from_path-Parses_example : All (Parses ⦃w = sample 0⦄) (("dev", "rules") ∷ [])
get_hcl_files_from_path-Parses_example =
    get_hcl_files_from_path-Parses ⦃w = sample 0⦄ repo "master" "policies" "base" "head" running
      (("dev", "rules") ∷ []) found

abbrev differences : List PolicyDiff
differences =
    record { policy = "dev"; current = "old"; new = "rules" }
    ∷ record { policy = "ops"; current = "old"; new = "" }
    ∷ []

compared : (compare_github_vault ⦃w = sample 0⦄ user "head" linked).0 ≡ done differences
unfolding compare_github_vault get_config changed_policies removed_policies read_existing lookup
    Policies.list_policies Policies.get_policy client new_vault_client call get_hcl_files_from_path
    check_commits collect_files fetch_file is_policy_file insert trim_suffix has_prefix size perform
    ◌>>=◌ gets pure deref require lift on_error
compared = refl

compare_github_vault-IsComparison_example :
    IsComparison ⦃w = sample 0⦄ user "head" linked differences
compare_github_vault-IsComparison_example =
    compare_github_vault-IsComparison ⦃w = sample 0⦄ user "head" linked differences
      (λ t m x. (λ k. k, λ k. k)) compared

plain :
    {c : Char}
    → is_space (code c) ≡ false
    → nat_eq 59 (code c) ≡ false
    → is_bracket (code c) ≡ false
    → IsPlain c
plain a b c = record { no_space = a; no_semicolon = b; no_bracket = c }

decode_tokens-encode_tokens_example :
    decode_tokens (encode_tokens ("a-1" ∷ "b-2" ∷ [])) ≡ "a-1" ∷ "b-2" ∷ []
unfolding is_space
decode_tokens-encode_tokens_example = decode_tokens-encode_tokens "a-1" ("b-2" ∷ []) (
  (plain refl refl refl, (plain refl refl refl, (plain refl refl refl, tt))),
  ((plain refl refl refl, (plain refl refl refl, (plain refl refl refl, tt))), tt),
)

short_hashes : HasShortHashes ⦃w = sample 0⦄
short_hashes q n h = let same : 171 ≡ n = cc in subst (λ m. m < 2 ^ 64) same (omega arith)

verify_request-same_hash_example :
    (sample 0).hash_request (request 0) ≡ (sample 0).hash_request (request 2)
unfolding verify_request format_hex
verify_request-same_hash_example =
    verify_request-same_hash ⦃w = sample 0⦄ short_hashes (request 0) (request 2) "ab" "old" "old"
      refl refl
