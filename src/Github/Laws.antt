-- ===== src/Github/Laws.antt =====
-- github/github.go: what the policies of a commit are.
use goldfish.Prelude.{◌≡◌, String, ◌==◌, true, false, List, [], ◌∷◌, All, if◌then◌else◌}
use goldfish.World.{World, ok, File, Repo, Effect, Comparison, compare_commits}
use goldfish.Exec.{State, done, ◌>>=◌}
use goldfish.Exec.Ends.{
  Anything, nothing_needed, Ends-lift, Ends, Ends-pure, Ends-bind, Ends-bind_Ends,
}
use goldfish.Github.{
  below_one, above_one, insert, is_policy_file, fetch_file, collect_files, get_hcl_files_from_path,
}

module _ ⦃w : World⦄ where
  -- the text of a policy parses
  abbrev pub Parses : String × String → Type 0
  Parses (name, content) = w.parse_hcl content ≡ ok tt

  insert-All :
      (name content : String) (m : List (String × String))
      → w.parse_hcl content ≡ ok tt
      → All Parses m
      → All Parses (insert name content m)
  unfolding insert
  insert-All name content [] p h = (p, tt)
  insert-All name content ((j, u) ∷ m) p (q, h) =
      elim (j == name)
        as (λ b. All Parses (if b then (name, content) ∷ m else (j, u) ∷ insert name content m)) [
          | true ↦ (p, h)
          | false ↦ (q, insert-All name content m p h)
        ]

  fetched-Parses :
      (repo : Repo) (path head name : String)
      → Ends Anything (λ found _. Parses found) (fetch_file repo path head name)
  unfolding fetch_file
  fetched-Parses repo path head name = Ends-bind _ _ (nothing_needed _) λ contents.
      Ends-bind _ _ (nothing_needed _) λ file. Ends-bind _ _ (nothing_needed _) λ content.
        Ends-bind_Ends _ _ _ (Ends-lift _ (w.parse_hcl content)) λ _. Ends-pure _ λ s h. h

  collected-Parses :
      (repo : Repo) (path head : String) (fs : List File) (policies : List (String × String))
      → All Parses policies
      → Ends Anything (λ found _. All Parses found) (collect_files repo path head fs policies)
  unfolding collect_files
  collected-Parses repo path head [] policies h = Ends-pure policies λ s _. h
  collected-Parses repo path head (f ∷ fs) policies h =
      elim (is_policy_file f)
        as (λ b.
          Ends Anything (λ found _. All Parses found)
            (elim b [
              | false ↦ collect_files repo path head fs policies
              | true ↦ fetch_file repo path head f.name >>= λ found.
                  collect_files repo path head fs (insert found.0 found.1 policies)
            ])) [
              | false ↦ collected-Parses repo path head fs policies h
              | true ↦ Ends-bind_Ends _ _ _ (fetched-Parses repo path head f.name) λ found. record {
                at = λ s a p e.
                    (collected-Parses repo path head fs _
                        (insert-All found.0 found.1 policies p h)).at
                      s a tt e;
              }
            ]

  -- If the policies of a commit are returned, each of their texts parses as HCL, whatever GitHub
  -- answers.
  pub get_hcl_files_from_path-Parses :
      (repo : Repo) (branch path base head : String) (s : State) (found : List (String × String))
      → (get_hcl_files_from_path repo branch path base head s).0 ≡ done found
      → All Parses found
  unfolding get_hcl_files_from_path
  get_hcl_files_from_path-Parses repo branch path base head s found h = all_parse.at s found tt h
    where
      all_parse :
          Ends Anything
            (λ found _. All Parses found)
            (get_hcl_files_from_path repo branch path base head)
      all_parse = Ends-bind _ _ (nothing_needed _) λ _. Ends-bind _ _ (nothing_needed _) λ _.
          Ends-bind _ _ (nothing_needed _) λ contents.
            Ends-bind _ _ (nothing_needed _) λ _. collected-Parses repo path head _ [] tt

  -- A comparison that passes the test.
  pub record IsAhead (c : Comparison) : Type 0 where
    pub ahead : below_one c.ahead_by ≡ false
    pub behind : above_one c.behind_by ≡ false

  abbrev pub Compared : Repo → String → String → List Effect → Type 0
  Compared repo base head t =
      (c : Comparison) × (w.answer t (compare_commits repo base head) ≡ ok c) × IsAhead c
