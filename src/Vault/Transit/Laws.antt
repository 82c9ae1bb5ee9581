-- ===== src/Vault/Transit/Laws.antt =====
-- vault/auth.go, vault/transit.go: encryption and decryption by the transit backend.
use goldfish.Prelude.{not, true, ◌==◌, ◌≡◌, refl, String, ◌<>◌, none, some, List, [], ◌∷◌}
use goldfish.Json.{str, get, as_string}
use goldfish.Types.{AuthInfo}
use goldfish.World.{World, Client, Secret, Call, Effect, ok, connect, vault}
use goldfish.Exec.{State, done, ◌>>=◌, gets, modify, deref, expect, lift, require, pure, perform}
use goldfish.Vault.Clients.{new_vault_client, client, call}
use goldfish.Vault.Transit.{key_or_default, encrypt_transit, decrypt_transit}
use goldfish.Vault.Auth.{get_config, encrypt_auth, decrypt_auth}

module _ ⦃w : World⦄ where
  -- Decoding undoes encoding.
  abbrev pub DecodesBase64 : Type 0
  DecodesBase64 = (text : String) → w.decode_base64 (w.encode_base64 text) ≡ ok text

  -- Vault's transit backend at this mount, with this key: it answers an encryption with a cipher, and
  -- the decryption of that cipher, at any later time, with the text.
  pub record IsTransit (c : Client) (backend key : String) : Type 0 where
    pub seal : String → String
    pub sealed : String → Secret
    pub opened : String → Secret
    pub encrypts :
        (t : List Effect) (text : String)
        → w.answer t (
            vault c
              (Call.write (backend <> "/encrypt/" <> key) (some (("plaintext", str text) ∷ []))))
          ≡ ok (some (sealed text))
    pub has_cipher :
        (text : String) → as_string (get (sealed text).data_map "ciphertext") ≡ some (seal text)
    pub decrypts :
        (t : List Effect) (text : String)
        → w.answer t (
            vault c (
              Call.write
                (backend <> "/decrypt/" <> key)
                (some (("ciphertext", str (seal text)) ∷ []))))
          ≡ ok (some (opened text))
    pub has_text : (text : String) → as_string (get (opened text).data_map "plaintext") ≡ some text

  -- If Vault's transit backend answers and base64 decodes what it encoded: encryption and decryption
  -- of the credentials return no error, and what is encrypted when a user logs in is decrypted to the
  -- same credentials in any later state of the same server whose credentials are those of the cookie.
  pub encrypt_auth-decrypt_auth :
      (s later : State)
      → DecodesBase64
      → IsTransit s.server.vault_client s.server.config.transit_backend
          s.server.config.server_transit_key
      → later.server ≡ s.server
      → later.auth ≡ (encrypt_auth s).1.auth
      → ((encrypt_auth s).0 ≡ done tt)
        × ((decrypt_auth later).0 ≡ done tt)
        × ((decrypt_auth later).1.auth ≡ s.auth)
  unfolding encrypt_auth decrypt_auth get_config gets call perform ◌>>=◌ deref expect lift modify
      pure
  encrypt_auth-decrypt_auth s later b t e a = (encrypted.0, decrypted.0, decrypted.1)
    where
      encrypted :
          ((encrypt_auth s).0 ≡ done tt)
          × ((encrypt_auth s).1.auth ≡ record s.auth { id = t.seal (w.encode_base64 s.auth.id) })
      encrypted = rw (t.encrypts, t.has_cipher) (refl, refl)

      decrypted : ((decrypt_auth later).0 ≡ done tt) × ((decrypt_auth later).1.auth ≡ s.auth)
      decrypted = rw (e, a, encrypted.1, t.decrypts, t.has_text, b) (refl, refl)

  -- The client of a user, and what Vault needs to hand it out.
  abbrev pub user_client : State → AuthInfo → Client
  user_client s auth = record {
    address = s.server.vault_address;
    skip_tls = s.server.vault_skip_tls;
    token = auth.id;
    wrap_ttl = none;
  }

  abbrev pub IsKnown : Client → Type 0
  IsKnown c =
      ((t : List Effect) → w.answer t (connect c.skip_tls) ≡ ok tt)
      × ((t : List Effect) → (found : Secret) × (w.answer t (vault c Call.lookup_self) ≡ ok found))

  -- If Vault knows the user's token, its transit backend answers, base64 decodes what it encoded
  -- and there is a key, given or the default one: a text that a user encrypts is what the user
  -- gets by decrypting the cipher with that key in any later state of the same server, and neither
  -- step fails.
  pub encrypt_transit-decrypt_transit :
      (auth : AuthInfo) (key text : String) (s later : State)
      → DecodesBase64
      → IsKnown (user_client s auth)
      → not (key_or_default s.server.config key == "") ≡ true
      → (t : IsTransit
          (user_client s auth)
          s.server.config.transit_backend
          (key_or_default s.server.config key))
      → later.server ≡ s.server
      → ((encrypt_transit auth key text s).0 ≡ done (t.seal (w.encode_base64 text)))
        × ((decrypt_transit auth key (t.seal (w.encode_base64 text)) later).0 ≡ done text)
  unfolding encrypt_transit decrypt_transit client new_vault_client get_config gets call perform
      ◌>>=◌ deref expect require lift pure
  encrypt_transit-decrypt_transit auth key text s later b (connects, looks) nonempty t e =
      let (found, known) = looks (connect s.server.vault_skip_tls ∷ s.trace) in
      let (found_later, known_later) = looks (connect s.server.vault_skip_tls ∷ later.trace) in
      (
        rw (nonempty, connects, known, t.encrypts, t.has_cipher) refl,
        rw (e, nonempty, connects, known_later, t.decrypts, t.has_text, b) refl,
      )
