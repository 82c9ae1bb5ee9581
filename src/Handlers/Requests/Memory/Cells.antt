-- ===== src/Handlers/Requests/Memory/Cells.antt =====
-- vault/helper.go: what `ReadFromCubbyhole` and `WriteToCubbyhole` do to the memory.
use goldfish.Prelude.{◌≡◌, ◌∙◌, refl, sym, ap, String, ◌==◌, eq_refl, false, Option, some}
use mathlib.Core.Bool.{and-false}
use mathlib.Core.Path.{subst}
use goldfish.Json.{Dict}
use goldfish.World.{World, Call, Secret, ok, Effect, vault}
use goldfish.Exec.{State, Server, gets, ◌>>=◌}
use goldfish.Exec.Runs.{Returns, performed, from_first, Returns-perform}
use goldfish.Vault.Clients.{new_vault_client, call}
use goldfish.Vault.Clients.Runs.{connects, new_vault_client-Returns}
use goldfish.Vault.Helper.{read_from_cubbyhole, write_to_cubbyhole}
use goldfish.Handlers.Requests.Memory.{in_cubbyhole, contents, stored, IsCubbyhole, HasStored}

module _ ⦃w : World⦄ where
  read-Returns :
      (name : String) (s : State) (o : Option Secret) (s' : State)
      → Returns (read_from_cubbyhole name) s o s'
      → w.answer (connects s).trace (vault s.server.vault_client (Call.read (in_cubbyhole name)))
        ≡ ok o
  unfolding read_from_cubbyhole call gets ◌>>=◌
  read-Returns name s o s' h = from_first new_vault_client _ s o s' h λ c s1 hc h1.
      let q = (new_vault_client-Returns s c s1 hc).1 in
      let e : Effect = vault s1.server.vault_client (Call.read (in_cubbyhole name)) in
      let (a, r) = Returns-perform e s1 o s' h1 in
      subst
        (λ x. w.answer x.trace (vault x.server.vault_client (Call.read (in_cubbyhole name))) ≡ ok o)
        q a

  pub read-contents :
      {srv : Server} {name : String} {v : Option Dict} (m : IsCubbyhole) (s : State)
      (o : Option Secret) (s' : State)
      → HasStored srv name v s
      → Returns (read_from_cubbyhole name) s o s'
      → contents o ≡ v
  read-contents {srv} {name} {v} m s o s' k h =
      m.reads (connects s).trace s.server.vault_client name o (read-Returns name s o s' h)
      ∙ ap (λ x. stored x.vault_client.token (in_cubbyhole name) s.trace) k.same_server
      ∙ k.is_stored

  write-Returns :
      (name : String) (d : Dict) (s : State) (o : Option Secret) (s' : State)
      → Returns (write_to_cubbyhole name d) s o s'
      → let e : Effect = vault s.server.vault_client (Call.write (in_cubbyhole name) (some d)) in
        (w.answer (connects s).trace e ≡ ok o) × (s' ≡ performed e (connects s))
  unfolding write_to_cubbyhole call gets ◌>>=◌
  write-Returns name d s o s' h = from_first new_vault_client _ s o s' h λ c s1 hc h1.
      let q = (new_vault_client-Returns s c s1 hc).1 in
      subst
        (λ x.
          let e : Effect = vault x.server.vault_client (Call.write (in_cubbyhole name) (some d)) in
          (w.answer x.trace e ≡ ok o) × (s' ≡ performed e x))
        q
        (Returns-perform (vault s1.server.vault_client (Call.write (in_cubbyhole name) (some d))) s1
          o s' h1)

  -- what was written is stored
  pub write-HasStored :
      {srv : Server} {name : String} {v : Option Dict} (d : Dict) (s : State) (o : Option Secret)
      (s' : State)
      → HasStored srv name v s
      → Returns (write_to_cubbyhole name d) s o s'
      → HasStored srv name (some d) s'
  write-HasStored {srv} {name} {v} d s o s' k h =
      let (a, q) = write-Returns name d s o s' h in
      subst (HasStored srv name (some d)) (sym q) (record {
        same_server = k.same_server;
        is_stored =
            rw (a, k.same_server, eq_refl srv.vault_client.token, eq_refl (in_cubbyhole name)) refl;
      })

  -- and what is stored elsewhere stays
  pub write-HasStored_other :
      {srv : Server} {name : String} {v : Option Dict} (other : String) (d : Dict) (s : State)
      (o : Option Secret) (s' : State)
      → (in_cubbyhole other == in_cubbyhole name) ≡ false
      → HasStored srv name v s
      → Returns (write_to_cubbyhole other d) s o s'
      → HasStored srv name v s'
  write-HasStored_other {srv} {name} {v} other d s o s' n k h =
      let (a, q) = write-Returns other d s o s' h in
      subst (HasStored srv name v) (sym q) (record {
        same_server = k.same_server;
        is_stored =
            rw (n, and-false (s.server.vault_client.token == srv.vault_client.token)) k.is_stored;
      })
