-- ===== src/Handlers/Requests/Diffs/Compared.antt =====
-- handlers/policy.go, `compareGithubVault` as a whole.
use goldfish.Prelude.{◌≡◌, ◌∙◌, sym, ap, inl, inr, String, List, ◌++◌}
use mathlib.Core.List.{Memᴰ}
use mathlib.Core.List.Memᴰ
use mathlib.Core.Path.{subst}
use goldfish.Types.{AuthInfo, PolicyDiff}
use goldfish.World.{World}
use goldfish.Exec.{State, Flow, done, gets, on_error}
use goldfish.Exec.Runs.{Returns, from_first, Returns-pure, Returns-on_error}
use goldfish.Vault.Auth.{get_config}
use goldfish.Vault.Policies.{list_policies}
use goldfish.Handlers.Requests.Diffs.{
  without_details, changed_policies, removed_policies, compare_github_vault,
}
use goldfish.Handlers.Requests.Diffs.Differences.{
  VisitsMap, fetch_by, IsComparison, list_policies-IsVaultList,
}
use goldfish.Handlers.Requests.Diffs.Changed.{
  IsChange-more, IsCompared-more, changed_policies-Returns,
}
use goldfish.Handlers.Requests.Diffs.Removed.{IsCovered-more, removed_policies-Returns}

module _ ⦃w : World⦄ where
  gets-Returns :
      {A : Type 0} (f : State → A) (s : State) (a : A) (s' : State)
      → Returns {E = String} (gets f) s a s'
      → (f s ≡ a) × (s' ≡ s)
  unfolding gets
  gets-Returns f s a s' h = (cc, cc)

  -- If the comparison of a commit with Vault returns, and `range` visits what is in a map: the
  -- differences are those of the files that the commit has, as fetched from the start, and of the
  -- policies that Vault listed to the user. Each difference is a file of the commit whose text is
  -- not the one that Vault answered for the policy, or a policy of Vault's list, neither "root" nor
  -- "default" nor in the commit, that is to get the empty text. And none is missing: each file of
  -- the commit is among the differences or equal to Vault's text, and each policy of Vault's list is
  -- built in, in the commit, or among the differences with the empty text.
  pub compare_github_vault-IsComparison :
      (auth : AuthInfo) (hash : String) (s : State) (diffs : List PolicyDiff)
      → VisitsMap
      → (compare_github_vault auth hash s).0 ≡ done diffs
      → IsComparison auth hash s diffs
  unfolding compare_github_vault get_config
  compare_github_vault-IsComparison auth hash s diffs visits e =
      let s' = (compare_github_vault auth hash s).1 in
      let run : Returns (compare_github_vault auth hash) s diffs s' =
        ap {B = Flow String (List PolicyDiff) × State} (λ r. (r, s')) e in
      from_first get_config _ s diffs s' run λ conf s1 hc h1.
        from_first (gets (λ t. t.server.github_current_commit)) _ s1 diffs s' h1 λ base s2 hb h2.
          from_first (on_error without_details (fetch_by conf base hash)) _ s2 diffs s' h2
            λ files s3 hf h3.
              from_first (on_error _ (list_policies auth)) _ s3 diffs s' h3 λ names s4 hl h4.
                from_first (gets (λ t. w.map_order t.trace files)) _ s4 diffs s' h4
                  λ ordered s5 ho h5.
                    from_first (changed_policies auth ordered) _ s5 diffs s' h5 λ changes s6 hd h6.
                      from_first (removed_policies auth files names) _ s6 diffs s' h6
                        λ removed s7 hr h7.
                          let (is_conf, q1) = gets-Returns (λ t. t.server.config) s conf s1 hc in
                          let (is_base, q2) =
                            gets-Returns (λ t. t.server.github_current_commit) s1 base s2 hb in
                          let base_at_start : s.server.github_current_commit ≡ base =
                            ap (λ (t : State). t.server.github_current_commit) (sym q1) ∙ is_base in
                          let got : (fetch_by conf base hash s2).0 ≡ done files =
                            ap (λ x. x.0)
                              (Returns-on_error without_details (fetch_by conf base hash) s2 files
                                s3 hf) in
                          let fetched : (fetch_by s.server.config s.server.github_current_commit
                                hash s).0
                              ≡ done files =
                            ap (λ c. (fetch_by c s.server.github_current_commit hash s).0) is_conf
                            ∙ ap (λ b. (fetch_by conf b hash s).0) base_at_start
                            ∙ ap (λ t. (fetch_by conf base hash t).0) (sym (q2 ∙ q1))
                            ∙ got in
                          let is_ordered = (gets-Returns _ s4 ordered s5 ho).0 in
                          let there : (x : String × String) → Memᴰ x ordered → Memᴰ x files = λ x m.
                            (visits s4.trace files x).0 (subst (Memᴰ x) (sym is_ordered) m) in
                          let back : (x : String × String) → Memᴰ x files → Memᴰ x ordered =
                            λ x m. subst (Memᴰ x) is_ordered ((visits s4.trace files x).1 m) in
                          let (sound1, complete1) =
                            changed_policies-Returns auth ordered s5 changes s6 hd in
                          let (sound2, complete2) =
                            removed_policies-Returns auth files names s6 removed s7 hr in
                          subst (IsComparison auth hash s)
                            (Returns-pure (changes ++ removed) diffs s7 s' h7).0
                            (record {
                              files = files;
                              fetched = fetched;
                              names = names;
                              listed =
                                  list_policies-IsVaultList auth names s3 s4
                                    (Returns-on_error _ (list_policies auth) s3 names s4 hl);
                              sound = λ d m. elim (Memᴰ.append_cases changes m) [
                                | inl k ↦ inl (IsChange-more d there (sound1 d k))
                                | inr k ↦ inr (sound2 d k)
                              ];
                              has_changes = λ name future m.
                                  IsCompared-more name future (λ d k. Memᴰ.append_left removed k)
                                    (complete1 name future (back _ m));
                              has_removals = λ name m.
                                  IsCovered-more files name (λ d k. Memᴰ.append_right changes k)
                                    (complete2 name m);
                            })
