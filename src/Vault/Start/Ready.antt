-- ===== src/Vault/Start/Ready.antt =====
-- vault/vault.go: the server behind its start.
use goldfish.Prelude.{◌≡◌, refl, String, List, ◌∷◌}
use goldfish.World.{World, Client, Call, Effect, vault}
use goldfish.Exec.{State, done, modify, pure, perform, ◌>>◌}
use goldfish.Exec.Ends.{Ends, Ends-pure, Ends-bind, Ends-bind_Ends, Anything, nothing_needed}
use goldfish.Vault.Clients.{set_token, call}
use goldfish.Vault.Start.{set_server_token, start_goldfish_wrapper}

-- The server's client has the server's token, and Vault's last call was the lookup of this token.
pub record IsReady (s : State) : Type 0 where
  pub same_token : s.server.vault_client.token ≡ s.server.vault_token
  pub earlier : List Effect
  pub is_last : s.trace ≡ vault s.server.vault_client Call.lookup_self ∷ earlier

module _ ⦃w : World⦄ where
  takes_token :
      (t : String) (c : Client)
      → Ends Anything
          (λ _. IsReady)
          (modify {E = String} (set_server_token t c)
            >> (call (set_token c t) Call.lookup_self >> pure tt))
  unfolding call modify perform
  takes_token t c =
      Ends-bind_Ends (λ _ s. (s.server.vault_client ≡ set_token c t) × (s.server.vault_token ≡ t)) _
        _ installed λ _. Ends-bind_Ends (λ _. IsReady) _ _ looked λ _. Ends-pure tt (λ s h. h)
    where
      installed :
          Ends Anything
            (λ _ s. (s.server.vault_client ≡ set_token c t) × (s.server.vault_token ≡ t))
            (modify {E = String} (set_server_token t c))
      installed = record { at = λ s a p h. (refl, refl) }

      looked :
          Ends
            (λ s. (s.server.vault_client ≡ set_token c t) × (s.server.vault_token ≡ t))
            (λ _. IsReady)
            (call (set_token c t) Call.lookup_self)
      looked = record {
        at = λ s a (same, mine) h. record {
          same_token = rw (same, mine) refl;
          earlier = s.trace;
          is_last = rw (same) refl;
        };
      }

  -- A start that returns no error, whatever Vault answers: the client of the server carries the token
  -- of the server, and Vault's last call was the lookup of that token by this client.
  pub start_goldfish_wrapper-IsReady :
      (wrapping_token login id : String) (s : State)
      → (start_goldfish_wrapper wrapping_token login id s).0 ≡ done tt
      → IsReady (start_goldfish_wrapper wrapping_token login id s).1
  unfolding start_goldfish_wrapper
  start_goldfish_wrapper-IsReady wrapping_token login id s h = starts.at s tt tt h
    where
      starts : Ends Anything (λ _. IsReady) (start_goldfish_wrapper wrapping_token login id)
      starts = Ends-bind _ _ (nothing_needed _) λ _. Ends-bind _ _ (nothing_needed _) λ c.
          Ends-bind _ _ (nothing_needed _) λ _. Ends-bind _ _ (nothing_needed _) λ unwrapped.
            Ends-bind _ _ (nothing_needed _) λ secret. Ends-bind _ _ (nothing_needed _) λ secret_id.
              Ends-bind _ _ (nothing_needed _) λ resp.
                Ends-bind _ _ (nothing_needed _) λ granted.
                  Ends-bind _ _ (nothing_needed _) λ auth. takes_token auth.client_token c
