-- ===== src/Handlers/Requests/Diffs/Removed.antt =====
-- handlers/policy.go, `compareGithubVault`: the loop over the policies of Vault.
use goldfish.Prelude.{
  ◌≡◌, refl, sym, arith, inl, inr, String, ◌||◌, true, false, Option, none, some, List, [], ◌∷◌,
}
use mathlib.Core.List.{Memᴰ}
use mathlib.Core.List.Memᴰ
use mathlib.Core.Path.{subst}
use goldfish.Json.{lookup}
use goldfish.Types.{AuthInfo, PolicyDiff}
use goldfish.World.{World}
use goldfish.Exec.{State, pure, ◌>>=◌}
use goldfish.Exec.Runs.{Returns, from_first, Returns-pure}
use goldfish.Handlers.Requests.Diffs.{is_builtin, is_known, read_existing, removed_policies}
use goldfish.Handlers.Requests.Diffs.Differences.{
  diff_of, IsVaultText, IsRemoval, IsCovered, read_existing-IsVaultText,
}

module _ ⦃w : World⦄ where
  IsRemoval-more :
      {auth : AuthInfo} {files : List (String × String)} {names : List String} (name : String)
      (d : PolicyDiff)
      → IsRemoval auth files names d
      → IsRemoval auth files (name ∷ names) d
  IsRemoval-more name d h = record {
    listed = Memᴰ.tail h.listed;
    not_builtin = h.not_builtin;
    not_in_commit = h.not_in_commit;
    in_vault = h.in_vault;
    emptied = h.emptied;
  }

  not_known : (o : Option String) → is_known o ≡ false → o ≡ none
  not_known none h = refl
  not_known (some v) h = cc

  pub IsCovered-more :
      {auth : AuthInfo} {diffs more : List PolicyDiff} (files : List (String × String))
      (name : String)
      → ((d : PolicyDiff) → Memᴰ d diffs → Memᴰ d more)
      → IsCovered auth files diffs name
      → IsCovered auth files more name
  IsCovered-more files name k (inl h) = inl h
  IsCovered-more files name k (inr (text, t, m)) = inr (text, t, k _ m)

  -- what the removals of a list of policies are
  abbrev IsRemoved : AuthInfo → List (String × String) → List String → List PolicyDiff → Type 0
  IsRemoved auth files names diffs =
      ((d : PolicyDiff) → Memᴰ d diffs → IsRemoval auth files names d)
      × ((name : String) → Memᴰ name names → IsCovered auth files diffs name)

  skipped :
      (auth : AuthInfo) (files : List (String × String)) (name : String) (names : List String)
      (diffs : List PolicyDiff)
      → (is_builtin name || is_known (lookup name files)) ≡ true
      → IsRemoved auth files names diffs
      → IsRemoved auth files (name ∷ names) diffs
  skipped auth files name names diffs e (sound, complete) = (
    λ d m. IsRemoval-more name d (sound d m),
    λ n m. elim (Memᴰ.cases_cons m) [
      | inl q ↦ subst (IsCovered auth files diffs) (sym q) (inl e)
      | inr k ↦ complete n k
    ],
  )

  listed_new :
      (auth : AuthInfo) (files : List (String × String)) (name current : String)
      (names : List String) (diffs : List PolicyDiff)
      → (is_builtin name || is_known (lookup name files)) ≡ false
      → IsVaultText auth name current
      → IsRemoved auth files names diffs
      → IsRemoved auth files (name ∷ names) (diff_of name current "" ∷ diffs)
  listed_new auth files name current names diffs e t (sound, complete) =
      let builtin : is_builtin name ≡ false = ground (arith, e) in
      let known : is_known (lookup name files) ≡ false = ground (arith, e) in
      let here : IsRemoval auth files (name ∷ names) (diff_of name current "") = record {
        listed = Memᴰ.head refl;
        not_builtin = builtin;
        not_in_commit = not_known (lookup name files) known;
        in_vault = t;
        emptied = refl;
      } in
      (
        λ d m. elim (Memᴰ.cases_cons m) [
          | inl q ↦ subst (IsRemoval auth files (name ∷ names)) (sym q) here
          | inr k ↦ IsRemoval-more name d (sound d k)
        ],
        λ n m. elim (Memᴰ.cases_cons m) [
          | inl q ↦
              subst (IsCovered auth files (diff_of name current "" ∷ diffs)) (sym q)
                (inr (current, t, Memᴰ.head refl))
          | inr k ↦ IsCovered-more files n (λ d l. Memᴰ.tail l) (complete n k)
        ],
      )

  pub removed_policies-Returns :
      (auth : AuthInfo) (files : List (String × String)) (names : List String) (s : State)
      (diffs : List PolicyDiff) (s' : State)
      → Returns (removed_policies auth files names) s diffs s'
      → IsRemoved auth files names diffs
  unfolding removed_policies
  removed_policies-Returns auth files [] s diffs s' h =
      let e : [] ≡ diffs = (Returns-pure [] diffs s s' h).0 in
      (λ d m. absurd (Memᴰ.not-nil (subst (Memᴰ d) (sym e) m)), λ name m. absurd (Memᴰ.not-nil m))
  removed_policies-Returns auth files (name ∷ names) s diffs s' h =
      elim (is_builtin name || is_known (lookup name files))
          as (λ b.
            ((is_builtin name || is_known (lookup name files)) ≡ b)
            → Returns
                (elim b [
                  | true ↦ removed_policies auth files names
                  | false ↦ read_existing auth name >>= λ current.
                      removed_policies auth files names >>= λ rest.
                      pure (diff_of name current "" ∷ rest)
                ])
                s diffs s'
            → IsRemoved auth files (name ∷ names) diffs) [
              | true ↦ λ e k.
                  skipped auth files name names diffs e
                    (removed_policies-Returns auth files names s diffs s' k)
              | false ↦ λ e k.
                  from_first (read_existing auth name) _ s diffs s' k λ current s1 hr h1.
                    from_first (removed_policies auth files names) _ s1 diffs s' h1 λ rest s2 hn h2.
                      subst (IsRemoved auth files (name ∷ names))
                        (Returns-pure (diff_of name current "" ∷ rest) diffs s2 s' h2).0
                        (listed_new auth files name current names rest e
                          (read_existing-IsVaultText auth name current s s1 hr)
                          (removed_policies-Returns auth files names s1 rest s2 hn))
            ]
        refl h
