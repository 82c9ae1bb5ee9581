-- ===== src/Handlers/Requests/Diffs/Changed.antt =====
-- handlers/policy.go, `compareGithubVault`: the loop over the files of the commit.
use goldfish.Prelude.{
  ◌≡◌, refl, sym, inl, inr, String, ◌==◌, true, false, Bool-cases, List, [], ◌∷◌, ◌++◌,
}
use mathlib.Core.List.{Memᴰ}
use mathlib.Core.List.Memᴰ
use mathlib.Core.Path.{subst}
use goldfish.Types.{AuthInfo, PolicyDiff}
use goldfish.World.{World}
use goldfish.Exec.{State}
use goldfish.Exec.Runs.{Returns, from_first, Returns-pure}
use goldfish.Handlers.Requests.Diffs.{change, read_existing, changed_policies}
use goldfish.Handlers.Requests.Diffs.Differences.{
  diff_of, IsVaultText, IsChange, IsCompared, read_existing-IsVaultText,
}

module _ ⦃w : World⦄ where
  change-none :
      (name current future : String) → (current == future) ≡ true → change name current future ≡ []
  change-none name current future e = rw (e) refl

  change-one :
      (name current future : String)
      → (current == future) ≡ false
      → change name current future ≡ diff_of name current future ∷ []
  change-one name current future e = rw (e) refl

  change-IsChange :
      (auth : AuthInfo) (name current future : String) (files : List (String × String))
      (d : PolicyDiff)
      → Memᴰ (name, future) files
      → IsVaultText auth name current
      → Memᴰ d (change name current future)
      → IsChange auth files d
  change-IsChange auth name current future files d here t m =
      elim (Bool-cases (current == future)) [
        | inl e ↦ absurd (Memᴰ.not-nil (subst (Memᴰ d) (change-none name current future e) m))
        | inr e ↦
            let same : d ≡ diff_of name current future =
              Memᴰ.eq_of_singleton (subst (Memᴰ d) (change-one name current future e) m) in
            subst (IsChange auth files) (sym same)
              (record { in_commit = here; in_vault = t; differs = e })
      ]

  change-IsCompared :
      (auth : AuthInfo) (name current future : String) (rest : List PolicyDiff)
      → IsVaultText auth name current
      → IsCompared auth (change name current future ++ rest) name future
  change-IsCompared auth name current future rest t = elim (Bool-cases (current == future)) [
    | inl e ↦ (current, t, inl e)
    | inr e ↦
        let here = subst (Memᴰ _) (sym (change-one name current future e)) (Memᴰ.head refl) in
        (current, t, inr (Memᴰ.append_left rest here))
  ]

  pub IsChange-more :
      {auth : AuthInfo} {files more : List (String × String)} (d : PolicyDiff)
      → ((x : String × String) → Memᴰ x files → Memᴰ x more)
      → IsChange auth files d
      → IsChange auth more d
  IsChange-more d k h = record {
    in_commit = k _ h.in_commit;
    in_vault = h.in_vault;
    differs = h.differs;
  }

  pub IsCompared-more :
      {auth : AuthInfo} {diffs more : List PolicyDiff} (name future : String)
      → ((d : PolicyDiff) → Memᴰ d diffs → Memᴰ d more)
      → IsCompared auth diffs name future
      → IsCompared auth more name future
  IsCompared-more name future k (current, t, inl e) = (current, t, inl e)
  IsCompared-more name future k (current, t, inr m) = (current, t, inr (k _ m))

  pub changed_policies-Returns :
      (auth : AuthInfo) (files : List (String × String)) (s : State) (diffs : List PolicyDiff)
      (s' : State)
      → Returns (changed_policies auth files) s diffs s'
      → ((d : PolicyDiff) → Memᴰ d diffs → IsChange auth files d)
        × ((name future : String) → Memᴰ (name, future) files → IsCompared auth diffs name future)
  unfolding changed_policies
  changed_policies-Returns auth [] s diffs s' h =
      let e : [] ≡ diffs = (Returns-pure [] diffs s s' h).0 in
      (
        λ d m. absurd (Memᴰ.not-nil (subst (Memᴰ d) (sym e) m)),
        λ name future m. absurd (Memᴰ.not-nil m),
      )
  changed_policies-Returns auth ((name, future) ∷ files) s diffs s' h =
      from_first (read_existing auth name) _ s diffs s' h λ current s1 hr h1.
        from_first (changed_policies auth files) _ s1 diffs s' h1 λ rest s2 hc h2.
          let e = (Returns-pure (change name current future ++ rest) diffs s2 s' h2).0 in
          let t = read_existing-IsVaultText auth name current s s1 hr in
          let (sound, complete) = changed_policies-Returns auth files s1 rest s2 hc in
          let sound_here : (d : PolicyDiff)
              → Memᴰ d (change name current future ++ rest)
              → IsChange auth ((name, future) ∷ files) d =
            λ d m. elim (Memᴰ.append_cases (change name current future) m) [
              | inl k ↦ change-IsChange auth name current future _ d (Memᴰ.head refl) t k
              | inr k ↦ IsChange-more d (λ x l. Memᴰ.tail l) (sound d k)
            ] in
          let complete_here : (n f : String)
              → Memᴰ (n, f) ((name, future) ∷ files)
              → IsCompared auth (change name current future ++ rest) n f =
            λ n f m. elim (Memᴰ.cases_cons m) [
              | inl q ↦
                  subst
                    (λ (x : String × String).
                      IsCompared auth (change name current future ++ rest) x.0 x.1)
                    (sym q) (change-IsCompared auth name current future rest t)
              | inr k ↦
                  IsCompared-more n f (λ d l. Memᴰ.append_right (change name current future) l)
                    (complete n f k)
            ] in
          subst
            (λ ds.
              ((d : PolicyDiff) → Memᴰ d ds → IsChange auth ((name, future) ∷ files) d)
              × ((n f : String) → Memᴰ (n, f) ((name, future) ∷ files) → IsCompared auth ds n f))
            e (sound_here, complete_here)
