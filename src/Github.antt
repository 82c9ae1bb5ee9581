-- ===== src/Github.antt =====
-- github/github.go: the policies in a folder of a commit.
pub mod Laws
use goldfish.Prelude.{
  String, ◌<>◌, Bool, true, false, not, ◌&&◌, ◌||◌, Option, none, some, List, [], ◌∷◌, ◌==◌, ℤ, pos,
  negsuc, ltb, if◌then◌else◌,
}
use goldfish.Prelude.Text.{trim_suffix}
use goldfish.World.{World, File, Repo, compare_commits, get_contents}
use goldfish.Exec.{Exec, pure, deref, require, lift, on_error, perform, ◌>>=◌, ◌>>◌}

-- `n < 1` and `n > 1` of an `int`
abbrev pub below_one : ℤ → Bool
below_one (pos n) = ltb n 1
below_one (negsuc n) = true

abbrev pub above_one : ℤ → Bool
above_one (pos n) = ltb 1 n
above_one (negsuc n) = false

-- a Go map from names to texts: `m[k] = v`
unfoldable pub insert : String → String → List (String × String) → List (String × String)
insert k v [] = (k, v) ∷ []
insert k v ((j, u) ∷ m) = if j == k then (k, v) ∷ m else (j, u) ∷ insert k v m

-- strings.TrimSuffix with ".hcl", and strings.HasSuffix
abbrev pub stem : String → String
stem name = elim (trim_suffix ".hcl" name) [ none ↦ name | some s ↦ s ]

abbrev pub is_hcl : String → Bool
is_hcl name = elim (trim_suffix ".hcl" name) [ none ↦ false | some _ ↦ true ]

-- the files that are looked at
unfoldable pub is_policy_file : File → Bool
is_policy_file f = f.type == "file" && is_hcl f.name && not (f.name == "root.hcl")

abbrev entries : Option (List File) → List File
entries none = []
entries (some fs) = fs

abbrev is_empty : List File → Bool
is_empty [] = true
is_empty _ = false

module _ ⦃w : World⦄ where
  -- a file's text, and the name under which it comes
  unfoldable pub fetch_file : Repo → String → String → String → Exec String (String × String)
  fetch_file repo path head name = do
    contents ← perform (get_contents repo (path <> "/" <> name) head)
    file ← deref contents.file
    content ← lift file.content
    on_error (λ _. "Could not parse " <> file.name <> " as an HCL file")
        (lift (w.parse_hcl content))
    pure (stem file.name, content)

  -- the loop over the folder, with the policies found so far
  unfoldable pub collect_files :
      Repo
      → String
      → String
      → List File
      → List (String × String)
      → Exec String (List (String × String))
  collect_files repo path head [] policies = pure policies
  collect_files repo path head (f ∷ fs) policies = elim (is_policy_file f) [
    | false ↦ collect_files repo path head fs policies
    | true ↦ do
      (name, content) ← fetch_file repo path head f.name
      collect_files repo path head fs (insert name content policies)
  ]

  -- The head has to be on the target branch, if one is configured.
  unfoldable pub check_branch : Repo → String → String → Exec String Unit
  check_branch repo branch head = if branch == "" then pure tt else (do
    comparison ← perform (compare_commits repo head branch)
    require (not (above_one comparison.behind_by)) "Head must be on configured branch")

  -- The tests on the commits, which are made if there is a base.
  unfoldable pub check_commits : Repo → String → String → String → Exec String Unit
  check_commits repo branch base head = if base == "" then pure tt else (do
    comparison ← perform (compare_commits repo base head)
    require (not (below_one comparison.ahead_by || above_one comparison.behind_by))
        "Head must be strictly ahead of base"
    check_branch repo branch head)

  -- `GetHCLFilesFromPath`
  unfoldable pub get_hcl_files_from_path :
      Repo → String → String → String → String → Exec String (List (String × String))
  get_hcl_files_from_path repo branch path base head = do
    require (not (repo.access_token == "" || repo.owner == "" || repo.repo == "" || head == ""))
        "Config_path does not include GitHub info required"
    check_commits repo branch base head
    contents ← perform (get_contents repo path head)
    require (not (is_empty (entries contents.folder))) "No .hcl files found in commit and path"
    collect_files repo path head (entries contents.folder) []
