-- ===== src/VersionTracker/Commands.antt =====
-- tools/version-tracker/pkg/util/{file/file.go,tar/tar.go,version/version.go}: files that are
-- downloaded, the file that is extracted from a tarball, and the Go version of a binary. Paths are
-- joined with a slash, as `filepath.Join` does with the clean, relative parts that stand here.
use eks_anywhere_build_tooli.Prelude.{
  String, ◌<>◌, List, [], ◌∷◌, if◌then◌else◌, string_eq, ◌==◌, nat_eq, contains, ◌⟨/⟩◌,
}
use eks_anywhere_build_tooli.Prelude.System.{
  Program, ◌>>=◌, ◌>>◌, lift, wrapped, attempt, run, for_each, exec, create, mkdir_all, http_get,
  copy_to,
}
use eks_anywhere_build_tooli.Prelude.Outcome.{wrap, Outcome, ok, crash}
use eks_anywhere_build_tooli.VersionTracker.Types.{Tools}

unfoldable pub download : String → String → Program (Unit {0})
download url filepath = do run (http_get url); run (create filepath); run (copy_to filepath)

unfoldable pub read_url : String → Program String
read_url url = attempt (http_get url)

-- `path.Dir` of a clean path, the entries of a tarball, and how the reading of it ends
pub record Tarball : Type 0 where
  pub entries : List String
  pub at_end : Outcome (Unit {0})

module _ (dir : String → String) where
  unfoldable pub extract_entry : String → String → String → Program (Unit {0})
  extract_entry tarball_download_path target_file name = do
    if contains name "/"
        then wrapped "creating parent directory for archive contents"
            (run (mkdir_all (tarball_download_path ⟨/⟩ dir name) 493))
        else lift (ok tt)
    wrapped "creating file from archive" (run (create (tarball_download_path ⟨/⟩ name)))
    wrapped "copying file to output destination" (run (copy_to (tarball_download_path ⟨/⟩ name)))

  -- Every entry with the name of the file is written. An error of the reader, and of none but it,
  -- ends the loop, and is one unless the archive is at its end.
  unfoldable pub extract_file_from_tarball : String → Outcome Tarball → String → Program (Unit {0})
  unfolding extract_entry
  extract_file_from_tarball tarball_download_path stream target_file = do
    tarball ← lift stream
    for_each
        (λ name.
          if name == target_file
          then extract_entry tarball_download_path target_file name
          else lift (ok tt))
        tarball.entries
    lift (wrap "advancing to next entry in archive" tarball.at_end)

-- `matches[1]`
abbrev pub group_1 : List String → Outcome String
group_1 [] = crash
group_1 (match ∷ []) = crash
group_1 (match ∷ group ∷ groups) = ok group

unfoldable pub get_go_version : {V : Type 0} → Tools V → String → Program String
get_go_version t go_binary_location = do
  output ←
      wrapped "running Go version command"
        (attempt (exec ("go" ∷ "version" ∷ "-m" ∷ go_binary_location ∷ [])))
  lift (group_1 (t.find_submatch ("^" <> go_binary_location <> ": go(.*)\\.\\d+\\n") output))
