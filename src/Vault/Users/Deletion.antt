-- ===== src/Vault/Users/Deletion.antt =====
-- vault/user.go, `DeleteUser`: what a deletion deletes.
use goldfish.Prelude.{
  ◌≡◌, ◌≢◌, ◌⊎◌, ◌∙◌, refl, sym, ap, inl, inr, String, ◌<>◌, ◌==◌, eq_iff, not, Bool, true, false,
  none, if◌then◌else◌,
}
use mathlib.Core.Path.{subst}
use goldfish.Types.{AuthInfo}
use goldfish.World.{World, Client, Call, Reply, ok, vault}
use goldfish.Exec.{State, Exec, pure, leave, ◌>>◌}
use goldfish.Exec.Runs.{
  Returns, performed, from_first, Returns-pure, Returns-require, Returns-perform,
}
use goldfish.Vault.Clients.{client, call}
use goldfish.Vault.Clients.Runs.{client_of, looked_up, client-Returns}
use goldfish.Vault.Users.{delete_by, delete_user}

-- The call of Vault that deletes this user.
abbrev pub Deletes : String → String → Call → Type 0
Deletes backend id q =
    ((backend ≡ "token") × (q ≡ Call.write ("/auth/token/revoke-accessor/" <> id) none))
    ⊎ ((backend ≡ "userpass") × (q ≡ Call.delete ("/auth/userpass/users/" <> id)))
    ⊎ ((backend ≡ "approle") × (q ≡ Call.delete ("/auth/approle/role/" <> id)))

not_empty : (id : String) → not (id == "") ≡ true → id ≢ ""
not_empty id h e = let r : not ("" == "") ≡ true = subst (λ x. not (x == "") ≡ true) e h in cc

choose :
    {C : Type 0} (b : Bool) (m n : Exec String Unit) (s s' : State)
    → Returns (if b then m else n) s tt s'
    → (b ≡ true → Returns m s tt s' → C)
    → (Returns n s tt s' → C)
    → C
choose true m n s s' h f g = f refl h
choose false m n s s' h f g = g h

module _ ⦃w : World⦄ where
  pub record IsDeletion (auth : AuthInfo) (backend id : String) (s s' : State) : Type 0 where
    pub not_empty : id ≢ ""
    pub deletion : Call
    pub deletes : Deletes backend id deletion
    pub reply : Reply deletion
    pub answered : w.answer (looked_up auth s).trace (vault (client_of auth s) deletion) ≡ ok reply
    pub final : s' ≡ performed (vault (client_of auth s) deletion) (looked_up auth s)

  made_by :
      (auth : AuthInfo) (backend id : String) (q : Call) (c : Client) (s s1 s' : State)
      → id ≢ ""
      → Deletes backend id q
      → client_of auth s ≡ c
      → s1 ≡ looked_up auth s
      → Returns (call c q >> pure tt) s1 tt s'
      → IsDeletion auth backend id s s'
  unfolding call
  made_by auth backend id q c s s1 s' n d ec e1 h =
      from_first (call c q) _ s1 tt s' h λ reply s2 hq h2.
        let (a, q2) = Returns-perform (vault c q) s1 reply s2 hq in
        let (b, q3) = Returns-pure tt tt s2 s' h2 in
        record {
          not_empty = n;
          deletion = q;
          deletes = d;
          reply = reply;
          answered =
              subst (λ x. w.answer (looked_up auth s).trace (vault x q) ≡ ok reply) (sym ec)
                (subst (λ x. w.answer x.trace (vault c q) ≡ ok reply) e1 a);
          final =
              q3
              ∙ q2
              ∙ ap (performed (vault c q)) e1
              ∙ ap (λ x. performed (vault x q) (looked_up auth s)) (sym ec);
        }

  by_backend :
      (auth : AuthInfo) (backend id : String) (c : Client) (s s1 s' : State)
      → id ≢ ""
      → client_of auth s ≡ c
      → s1 ≡ looked_up auth s
      → Returns (delete_by c backend id) s1 tt s'
      → IsDeletion auth backend id s s'
  unfolding delete_by leave
  by_backend auth backend id c s s1 s' n ec e1 h =
      let token = call c (Call.write ("/auth/token/revoke-accessor/" <> id) none) >> pure tt in
      let userpass = call c (Call.delete ("/auth/userpass/users/" <> id)) >> pure tt in
      let approle = call c (Call.delete ("/auth/approle/role/" <> id)) >> pure tt in
      choose (backend == "token") token _ s1 s' h
        (λ e h1. made_by auth backend id _ c s s1 s' n (inl ((eq_iff _ _).0 e, refl)) ec e1 h1)
        λ h2.
          choose (backend == "userpass") userpass _ s1 s' h2
            (λ e h3.
              made_by auth backend id _ c s s1 s' n (inr (inl ((eq_iff _ _).0 e, refl))) ec e1 h3)
            λ h4.
              choose (backend == "approle") approle _ s1 s' h4
                (λ e h5.
                  made_by auth backend id _ c s s1 s' n (inr (inr ((eq_iff _ _).0 e, refl))) ec e1
                    h5)
                λ h6. cc

  -- A deletion that returns no error: the id is not empty; the user's token was looked up, and then
  -- exactly one call was made with this token, which is the one that deletes this id in this backend,
  -- one of the three that are supported; Vault answered it without an error; and nothing else was done.
  pub delete_user-IsDeletion :
      (auth : AuthInfo) (backend id : String) (s s' : State)
      → Returns (delete_user auth backend id) s tt s'
      → IsDeletion auth backend id s s'
  unfolding delete_user
  delete_user-IsDeletion auth backend id s s' h = from_first (client auth) _ s tt s' h λ c s1 hc h1.
      from_first _ _ s1 tt s' h1 λ u s2 hr h2.
        let (ec, q1) = client-Returns auth s c s1 hc in
        let (n, q2) = Returns-require _ _ u s1 s2 hr in
        by_backend auth backend id c s s2 s' (not_empty id n) ec (q2 ∙ q1) h2
