-- ===== src/Trust/Root.antt =====
-- handlers/policy.go: which tokens the generation of a root token returns.
use goldfish.Prelude.{
  ◌≡◌, ◌∙◌, ap, String, true, false, Bool, Option, none, some, List, [], ◌∷◌, if◌then◌else◌,
}
use goldfish.World.{World, RootStatus, Client, Call, Effect, ok, vault}
use goldfish.Exec.{State, Flow, pure, gets, leave, require, lift, on_error, try}
use mathlib.Core.Path.{subst}
use goldfish.Exec.Keeps.{Ensures}
use goldfish.Exec.Runs.{
  Returns, from_first, Returns-pure, Returns-lift, Returns-on_error, Returns-try, Returns-perform,
}
use goldfish.Vault.Clients.{new_vault_client, call}
use goldfish.Vault.Helper.{generate_root_init, generate_root_update}
use goldfish.Handlers.Responses.{Response}
use goldfish.Handlers.Session.{checked}
use goldfish.Handlers.Requests.Root.{
  generation_failed, cancel_generation, next_status, feed, feed_if_needed, generate_root,
}

module _ ⦃w : World⦄ where
  -- A status that Vault gave for the start of a root generation, or for an unseal key.
  pub data IsRootAnswer (status : RootStatus) : Type 0 where
    started :
        (before : List Effect) (c : Client) (otp : String)
        → w.answer before (vault c (Call.root_init otp)) ≡ ok status
        → IsRootAnswer status
    updated :
        (before : List Effect) (c : Client) (shard nonce : String)
        → w.answer before (vault c (Call.root_update shard nonce)) ≡ ok status
        → IsRootAnswer status

  -- A token that Vault encoded in such an answer, decoded by a pad of 16 random bytes.
  pub record IsRootToken (token : String) : Type 0 where
    pub status : RootStatus
    pub answered : IsRootAnswer status
    pub before : List Effect
    pub bytes : String
    pub decoded :
        w.xor_base64 status.encoded_root_token (w.encode_base64 (w.random_key before 16)) ≡ ok bytes
    pub formatted : w.format_uuid bytes ≡ ok token

  init-IsRootAnswer :
      (otp : String) (s s1 : State) (status : RootStatus)
      → Returns (generate_root_init otp) s status s1
      → IsRootAnswer status
  unfolding generate_root_init call
  init-IsRootAnswer otp s s1 status h = from_first new_vault_client _ s status s1 h λ c sa hc h1.
      started sa.trace c otp (Returns-perform (vault c (Call.root_init otp)) sa status s1 h1).0

  update-IsRootAnswer :
      (shard nonce : String) (s s1 : State) (status : RootStatus)
      → Returns (generate_root_update shard nonce) s status s1
      → IsRootAnswer status
  unfolding generate_root_update call
  update-IsRootAnswer shard nonce s s1 status h =
      from_first new_vault_client _ s status s1 h λ c sa hc h1.
        updated sa.trace c shard nonce
          (Returns-perform (vault c (Call.root_update shard nonce)) sa status s1 h1).0

  next_status-IsRootAnswer :
      (shard nonce : String) (o : Option RootStatus) (next : RootStatus) (s sa sb : State)
      → Returns {E = Response} (try (generate_root_update shard nonce)) s o sa
      → Returns (next_status o) sa next sb
      → IsRootAnswer next
  unfolding cancel_generation leave
  next_status-IsRootAnswer shard nonce none next s sa sb h k =
      from_first _ _ sa next sb k λ u sc h1 h2. cc
  next_status-IsRootAnswer shard nonce (some status) next s sa sb h k =
      subst IsRootAnswer (Returns-pure status next sa sb k).0 (
        update-IsRootAnswer shard nonce s sa status
          (Returns-try (generate_root_update shard nonce) s status sa h))

  -- The answer to the last key that was fed, or the status before the first.
  feed-IsRootAnswer :
      (unseals : List String) (start status : RootStatus) (s s1 : State)
      → IsRootAnswer start
      → Returns (feed unseals start) s status s1
      → IsRootAnswer status
  unfolding feed
  feed-IsRootAnswer [] start status s s1 a h =
      subst IsRootAnswer (Returns-pure start status s s1 h).0 a
  feed-IsRootAnswer (u ∷ unseals) start status s s1 a h =
      from_first (try (generate_root_update u start.nonce)) _ s status s1 h λ o sa ha h1.
        from_first (next_status o) _ sa status s1 h1 λ next sb hb h2.
          feed-IsRootAnswer unseals next status sb s1
            (next_status-IsRootAnswer u start.nonce o next s sa sb ha hb) h2

  chosen-IsRootAnswer :
      (b : Bool) (unseals : List String) (start status : RootStatus) (s s1 : State)
      → IsRootAnswer start
      → Returns (if b then feed unseals start else pure start) s status s1
      → IsRootAnswer status
  chosen-IsRootAnswer true unseals start status s s1 a h =
      feed-IsRootAnswer unseals start status s s1 a h
  chosen-IsRootAnswer false unseals start status s s1 a h =
      subst IsRootAnswer (Returns-pure start status s s1 h).0 a

  generate_root-IsRootToken :
      (e : Response) (unseals : List String) (s s1 : State) (token : String)
      → Returns (generate_root e unseals) s token s1
      → IsRootToken token
  unfolding generate_root gets feed_if_needed
  generate_root-IsRootToken e unseals s s1 token h =
      from_first (gets (λ t. w.encode_base64 (w.random_key t.trace 16))) _ s token s1 h
        λ otp sa ho h1.
          from_first (checked (generate_root_init otp)) _ sa token s1 h1 λ start sb hi h2.
            from_first (feed_if_needed unseals start) _ sb token s1 h2 λ status sc hf h3.
              from_first (require _ generation_failed) _ sc token s1 h3 λ u sd hr h4.
                from_first (on_error (λ _. e) (lift (w.xor_base64 status.encoded_root_token otp))) _
                  sd token s1 h4
                  λ bytes se hx h5.
                    let same : w.encode_base64 (w.random_key s.trace 16) ≡ otp = cc in
                    record {
                      status = status;
                      answered =
                          chosen-IsRootAnswer _ unseals start status sb sc
                            (init-IsRootAnswer otp sa sb start
                              (Returns-on_error _ (generate_root_init otp) sa start sb hi))
                            hf;
                      before = s.trace;
                      bytes = bytes;
                      decoded =
                          ap (λ (x : String). w.xor_base64 status.encoded_root_token x) same
                          ∙ (Returns-lift _ bytes sd se (Returns-on_error _ _ sd bytes se hx)).0;
                      formatted =
                          (Returns-lift _ token se s1 (Returns-on_error _ _ se token s1 h5)).0;
                    }

  pub Ensures-generate_root :
      {P : State → Type 0} (e : Response) (unseals : List String)
      → Ensures P IsRootToken (generate_root e unseals)
  Ensures-generate_root e unseals = record {
    at = λ s token p h.
        let (_, t) = generate_root e unseals s in
        generate_root-IsRootToken e unseals s t token
          (ap {B = Flow Response String × State} (λ r. (r, t)) h);
  }
