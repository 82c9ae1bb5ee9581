-- ===== src/Handlers/Requests/Pending/Submitted.antt =====
-- handlers/policy.go, `AddPolicyRequest`: a request that was submitted waits for its keys.
use goldfish.Prelude.{
  ◌≡◌, ◌∙◌, arith, refl, sym, ap, ℕ, String, ◌==◌, Option, none, some, List, [], ◌∷◌, ◌++◌, length,
}
use goldfish.Prelude.Text.{format_hex}
use mathlib.Core.Path.{subst}
use goldfish.Json.{Dict}
use goldfish.Types.{Config, PolicyRequest}
use goldfish.World.{World, ok, http_post}
use goldfish.Exec.{State, Server, perform}
use goldfish.Exec.Keeps.{Keeps, Keeps-perform, Keeps-if, keeps_rules}
use goldfish.Exec.Runs.{Returns, from_first, Returns-lift, Returns-on_error}
use goldfish.Slack.{post_message_webhook}
use goldfish.Vault.Auth.{get_config}
use goldfish.Vault.Helper.{write_to_cubbyhole}
use goldfish.Handlers.Responses.{Response}
use goldfish.Handlers.Requests.Tokens.{requests_path, tokens_path}
use goldfish.Handlers.Requests.Add.{posted, notify, submit}
use goldfish.Handlers.Requests.Memory.{in_cubbyhole, stored, HasStored, requests-tokens}
use goldfish.Handlers.Requests.Memory.Cells.{write-HasStored, write-HasStored_other}
use goldfish.Handlers.Requests.Pending.{ok-inj, IsReliable, IsPending}
use goldfish.Handlers.Requests.Pending.Steps.{length-append_one, IsPending-at}
use goldfish.Handlers.Requests.Pending.Rounds.{
  Entry, enter_keys, IsAttempted, enter_keys-IsAttempted,
}

module _ ⦃w : World⦄ {srv : Server} {name : String} {v : Option Dict} where
  Keeps-post :
      (url type body : String) → Keeps (HasStored srv name v) (perform (http_post url type body))
  Keeps-post url type body =
      Keeps-perform {P = HasStored srv name v} (http_post url type body)
        λ s h. record { same_server = h.same_server; is_stored = h.is_stored }

  Keeps-message :
      (channel main_text text webhook : String)
      → Keeps (HasStored srv name v) (post_message_webhook channel main_text text webhook)
  unfolding post_message_webhook
  Keeps-message channel main_text text webhook = search (keeps_rules, Keeps-post) depth 8

  Keeps-posted :
      (hash : String) (o : Option (Unit {0})) → Keeps (HasStored srv name v) (posted hash o)
  Keeps-posted hash none = search (keeps_rules) depth 2
  Keeps-posted hash (some _) = search (keeps_rules) depth 2

  Keeps-notify : (conf : Config) (hash : String) → Keeps (HasStored srv name v) (notify conf hash)
  unfolding notify
  Keeps-notify conf hash =
      Keeps-if (conf.slack_webhook == "") _ _ (search (keeps_rules) depth 2)
        (search (keeps_rules, Keeps-message, Keeps-posted) depth 6)

module _ ⦃w : World⦄ where
  -- A request without progress that `AddPolicyRequest` submits with an answer, whether or not Slack is
  -- told: it is stored under its hash in the server's cubbyhole, and waits for its first unseal key.
  pub submit-IsPending :
      (request : PolicyRequest) (s : State) (response : Response) (s' : State)
      → request.progress ≡ 0
      → Returns (submit request) s response s'
      → (n : ℕ) × (w.hash_request request ≡ ok n) × IsPending s.server (format_hex n) request [] s'
  unfolding submit get_config
  submit-IsPending request s response s' none_yet h = from_first _ _ s response s' h λ n s1 hh h1.
      from_first _ _ s1 response s' h1 λ o s2 hw h2.
        from_first _ _ s2 response s' h2 λ conf s3 hc h3.
          let (hashed, q1) = Returns-lift _ n s s1 (Returns-on_error _ _ s n s1 hh) in
          let hash = format_hex n in
          let writes =
            Returns-on_error _ (write_to_cubbyhole (requests_path hash) (w.map_request request)) s1
              o s2 hw in
          let first : (x : String)
              → HasStored s1.server x
                  (stored s1.server.vault_client.token (in_cubbyhole x) s1.trace) s1 =
            λ x. record { same_server = refl; is_stored = refl } in
          let at2 : IsPending s1.server hash request [] s2 = record {
            request_stored =
                subst (λ r. HasStored s1.server (requests_path hash) (some (w.map_request r)) s2)
                  (ap (λ k. record request { progress = k }) none_yet)
                  (write-HasStored (w.map_request request) s1 o s2 (first (requests_path hash))
                    writes);
            body = stored s1.server.vault_client.token (in_cubbyhole (tokens_path hash)) s1.trace;
            tokens_stored =
                write-HasStored_other (requests_path hash) (w.map_request request) s1 o s2
                  (requests-tokens hash) (first (tokens_path hash)) writes;
            same_tokens = λ e. absurd (e refl);
            plain = tt;
          } in
          let at3 =
            IsPending-at get_config hash request [] s2 conf s3 (λ x v. search (keeps_rules) depth 2)
              hc at2 in
          let at4 =
            IsPending-at (notify conf hash) hash request [] s3 response s'
              (λ x v. Keeps-notify conf hash) h3 at3 in
          (n, hashed, subst (λ x. IsPending x.server hash request [] s') q1 at4)

  -- From the submission to the attempt: if Vault's cubbyhole stores, requests survive it, and Vault's
  -- tokens are plain, then a request that is submitted with an answer, and for which users enter as
  -- many unseal keys as it requires, each with an answer and with nothing else in between, is attempted
  -- with the last of them and not before, with one token for each key.
  pub submit-IsAttempted :
      (v : IsReliable) (request : PolicyRequest) (es : List Entry) (last : Entry) (n : ℕ)
      (s : State) (response : Response) (s1 : State) (responses : List Response) (s' : State)
      → request.progress ≡ 0
      → w.hash_request request ≡ ok n
      → length (es ++ last ∷ []) ≡ request.required
      → Returns (submit request) s response s1
      → Returns (enter_keys (format_hex n) (es ++ last ∷ [])) s1 responses s'
      → IsAttempted (format_hex n) request [] es last responses s'
  submit-IsAttempted v request es last n s response s1 responses s' none_yet hashed many h k =
      let (m, hashed', p) = submit-IsPending request s response s1 none_yet h in
      let same : m ≡ n = ok-inj m n (sym hashed' ∙ hashed) in
      let p' = subst (λ x. IsPending s.server (format_hex x) request [] s1) same p in
      enter_keys-IsAttempted s.server v (format_hex n) request last [] es s1 responses s' p'
        (omega (arith, length-append_one es last, many)) k
