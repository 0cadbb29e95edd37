-- ===== src/Bottlerocket/UserData.antt =====
-- pkg/utils/userdata.go and pkg/files/writer.go: the user data of the host, read from a file or from
-- AWS Secrets Manager, and the files that it asks for. A secret's binary value is a text.
pub mod Chunks
pub mod Files
use eks_anywhere_build_tooli.Prelude.{
  ℕ, zero, suc, ◌+◌, String, ◌<>◌, Bool, true, false, Option, none, some, List, [], ◌∷◌, ◌==◌,
  string_eq, if◌then◌else◌,
}
use eks_anywhere_build_tooli.Prelude.Int.{ℤ, rounds}
use eks_anywhere_build_tooli.Prelude.Number.{decimal, parse_octal, to_file_mode}
use eks_anywhere_build_tooli.Prelude.Text.{split}
use eks_anywhere_build_tooli.Prelude.Outcome.{Outcome, ok, err, fatal, crash}
use eks_anywhere_build_tooli.Prelude.System.{
  Program, ◌>>=◌, ◌>>◌, lift, wrapped, or_exit, attempt, run, ignore, read_file, write_file,
  mkdir_all, lookup_user, chown, get_secret, delete_secret, http_get,
}

pub record WriteFile : Type 0 where
  pub path : String
  pub owner : String
  pub permissions : String
  pub content : String

pub record AwsSecretsManagerData : Type 0 where
  pub provider : String
  pub prefix : String
  pub chunks : ℤ

pub record AwsSecretsManagerUserData : Type 0 where
  pub user_data_type : String
  pub user_data_source : AwsSecretsManagerData

pub record UserData : Type 0 where
  pub user_data_type : String
  pub write_files : List WriteFile
  pub run_cmd : String

-- What the code calls of YAML, gzip, base64 and `filepath`, and the connection to AWS.
pub record Codec : Type 0 where
  pub decode_user_data : String → Outcome UserData
  pub decode_reference : String → Outcome AwsSecretsManagerUserData
  pub gunzip : String → Outcome String
  pub base64_decode : String → Outcome String
  pub base64_encode : String → String
  pub dir : String → String
  pub new_secrets_manager : Outcome (Unit {0})
  -- The text of the error of `strconv.ParseInt` for a text that is no octal number
  pub octal_error : String → String

abbrev pub host_container_user_data_file : String
host_container_user_data_file = "/.bottlerocket/host-containers/current/user-data"

abbrev pub bootstrap_container_user_data_file : String
bootstrap_container_user_data_file = "/.bottlerocket/bootstrap-containers/current/user-data"

abbrev pub aws_secrets_manager : String
aws_secrets_manager = "AWSSecretsManager"

-- `fmt.Sprintf("%s-%d", prefix, i)`
unfoldable pub secret_name : String → ℕ → String
secret_name prefix i = prefix <> "-" <> decimal i

-- The loop over the chunks `i`, `i + 1`, …, of which so many are left.
unfoldable pub read_chunks : String → ℕ → ℕ → String → Program String
read_chunks prefix zero i binary = lift (ok binary)
read_chunks prefix (suc left) i binary = do
  secret ← attempt (get_secret (secret_name prefix i))
  ignore (delete_secret (secret_name prefix i))
  read_chunks prefix left (suc i) (binary <> secret)

abbrev pub first_word : List String → String
first_word [] = ""
first_word (w ∷ ws) = w

unfoldable pub permissions_of : WriteFile → String
permissions_of file = if file.permissions == "" then "0640" else file.permissions

unfoldable pub owner_of : WriteFile → String
owner_of file = first_word (split file.owner ":")

module _ (c : Codec) where
  -- `strconv.ParseInt` of the permissions
  abbrev parsed : String → Option ℤ → Outcome ℤ
  parsed text none = err (c.octal_error text)
  parsed text (some n) = ok n

  unfoldable pub load_user_data_from_secrets_manager : AwsSecretsManagerUserData → Program UserData
  load_user_data_from_secrets_manager r = do
    let source = r.user_data_source
    compressed ← read_chunks source.prefix (rounds source.chunks) 0 ""
    encoded ← lift (c.gunzip compressed)
    decoded ← lift (c.base64_decode encoded)
    wrapped "Error unmarshalling user data" (lift (c.decode_user_data decoded))

  -- A failure to load ends the process.
  unfoldable pub process_aws_secrets_manager_user_data : String → Program UserData
  process_aws_secrets_manager_user_data content = do
    reference ← wrapped "Error unmarshalling user data" (lift (c.decode_reference content))
    or_exit (load_user_data_from_secrets_manager reference)

  unfoldable pub process_remote_user_data : String → Program UserData
  process_remote_user_data content = do
    wrapped "Error creating secrets manager service" (lift c.new_secrets_manager)
    process_aws_secrets_manager_user_data content

  unfoldable pub process_user_data : String → Program UserData
  process_user_data content = do
    user_data ← wrapped "Error unmarshalling user data" (lift (c.decode_user_data content))
    if user_data.user_data_type == aws_secrets_manager
        then process_remote_user_data content
        else lift (ok user_data)

  unfoldable pub build_user_data : String → Program UserData
  build_user_data path = do
    content ← wrapped "Error reading user data file" (attempt (read_file path))
    process_user_data content

  unfoldable pub resolve_bootstrap_container_user_data : Program UserData
  resolve_bootstrap_container_user_data = build_user_data bootstrap_container_user_data_file

  unfoldable pub resolve_host_container_user_data : Program UserData
  resolve_host_container_user_data = build_user_data host_container_user_data_file

  -- `files.Write`
  unfoldable pub write : String → String → ℕ → Program (Unit {0})
  write path content permission = do
    wrapped "Error creating directory" (run (mkdir_all (c.dir path) 0o640))
    wrapped ("Error writing file: " <> path) (run (write_file path content permission))

  -- One round of the loop.
  unfoldable pub write_user_data_file : WriteFile → Program (Unit {0})
  write_user_data_file file = do
    perm ←
        wrapped "Error converting string to int for permissions"
          (lift (parsed (permissions_of file) (parse_octal (permissions_of file))))
    wrapped ("Error writing file: " <> file.path) (write file.path file.content (to_file_mode perm))
    details ← wrapped "Error getting user/group details " (attempt (lookup_user (owner_of file)))
    wrapped "Error running chown to set owners/groups" (run (chown file.path details))

  unfoldable pub write_files_from : List WriteFile → Program (Unit {0})
  write_files_from [] = lift (ok tt)
  write_files_from (file ∷ files) = do write_user_data_file file; write_files_from files

  unfoldable pub write_user_data_files : UserData → Program (Unit {0})
  write_user_data_files user_data = write_files_from user_data.write_files
