-- ===== src/VersionTracker/HostContainers.antt =====
-- tools/version-tracker/pkg/commands/upgrade/upgrade.go: the images of Bottlerocket's host containers.
use eks_anywhere_build_tooli.Prelude.{
  String, ◌<>◌, none, some, List, [], ◌∷◌, ◌++◌, map, if◌then◌else◌, string_eq, ◌==◌, nat_eq,
  replace_all, split, to_upper, ◌⟨/⟩◌, find_key,
}
use eks_anywhere_build_tooli.Prelude.System.{
  Program, ◌>>=◌, lift, wrapped, attempt, run, exec, read_file, write_file,
}
use eks_anywhere_build_tooli.Prelude.Outcome.{wrap, Outcome, ok, crash}
use eks_anywhere_build_tooli.VersionTracker.Types.{Tools}
use eks_anywhere_build_tooli.VersionTracker.Constants.{
  bottlerocket_container_metadata_file_format, bottlerocket_host_containers_toml_file,
  bottlerocket_host_containers,
}
use eks_anywhere_build_tooli.VersionTracker.Github.{get_file_contents}

module _ {V : Type 0} (t : Tools V) where
  abbrev source_of : String → List (String × String) → Outcome String
  source_of container sources = elim (find_key container sources) [
    | none ↦ crash
    | some source ↦ ok source
  ]

  -- `strings.Split(image, ":")[1]`
  abbrev second_part : List String → Outcome String
  second_part [] = crash
  second_part (name ∷ []) = crash
  second_part (name ∷ tag ∷ parts) = ok tag

  -- A round for one container: the file that was written, if its tag was another one.
  unfoldable pub update_host_container :
      String → String → List (String × String) → String × String → Program (List String)
  update_host_container project_root_filepath project_path sources (container, upper) = do
    let file = replace_all bottlerocket_container_metadata_file_format "%s" upper
    contents ←
        wrapped ("reading Bottlerocket " <> container <> " container metadata file")
          (attempt (read_file (project_root_filepath ⟨/⟩ file)))
    metadata ← lift (
        wrap ("unmarshalling Bottlerocket " <> container <> " container metadata file")
          (t.decode_image_metadata contents))
    source ← lift (source_of container sources)
    source_tag ← lift (second_part (split source ":"))
    if metadata.tag == source_tag
        then lift (ok [])
        else (wrapped "running skopeo inspect command" (
              attempt (
                exec (
                  "skopeo"
                  ∷ "inspect"
                  ∷ ("docker://" <> source)
                  ∷ "--override-os"
                  ∷ "linux"
                  ∷ "--override-arch"
                  ∷ "amd64"
                  ∷ "--format"
                  ∷ "{{.Digest}}"
                  ∷ [])))
            >>= λ stdout.
                lift (
                  wrap ("marshalling updated Bottlerocket " <> container <> " container")
                    (t.encode_image_metadata (record { tag = source_tag; image_digest = stdout })))
                >>= λ text.
                    wrapped "writing Bottlerocket releases file"
                      (run (write_file (project_root_filepath ⟨/⟩ file) text 420))
                    >>= λ _. lift (ok ((project_path ⟨/⟩ file) ∷ [])))

  unfoldable pub update_host_containers :
      String → String → List (String × String) → List (String × String) → Program (List String)
  update_host_containers project_root_filepath project_path sources [] = lift (ok [])
  update_host_containers project_root_filepath project_path sources (container ∷ containers) = do
    files ← update_host_container project_root_filepath project_path sources container
    rest ← update_host_containers project_root_filepath project_path sources containers
    lift (ok (files ++ rest))

  unfoldable pub update_bottlerocket_host_container_metadata :
      String → String → String → Program (List String)
  update_bottlerocket_host_container_metadata project_root_filepath project_path latest_version = do
    contents ← wrapped "getting contents of Bottlerocket host containers file" (
        get_file_contents t "bottlerocket-os" "bottlerocket" bottlerocket_host_containers_toml_file
          latest_version)
    sources ←
        lift (
          wrap "unmarshalling Bottlerocket host containers file"
            (t.decode_host_containers contents))
    update_host_containers project_root_filepath project_path sources
        (map (λ container. (container, to_upper container)) bottlerocket_host_containers)
