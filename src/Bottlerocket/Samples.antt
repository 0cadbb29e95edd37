-- ===== src/Bottlerocket/Samples.antt =====
-- A machine for the tests: its files are empty, its pods have no containers.
use eks_anywhere_build_tooli.Prelude.{true, none, some, [], ◌<>◌}
use eks_anywhere_build_tooli.Prelude.System.{Env, good}
use eks_anywhere_build_tooli.Prelude.Outcome.{ok, err}
use eks_anywhere_build_tooli.Bottlerocket.UserData.{UserData, Codec}
use eks_anywhere_build_tooli.Bottlerocket.Host.{Machine}

abbrev pub user_data : UserData
user_data = record { user_data_type = ""; write_files = []; run_cmd = "EtcdadmInit r v c" }

abbrev pub codec : Codec
codec = record {
  decode_user_data = λ text. ok user_data;
  decode_reference = λ text. err "no reference";
  gunzip = λ text. ok text;
  base64_decode = λ text. ok text;
  base64_encode = λ text. text;
  dir = λ path. "/tmp";
  new_secrets_manager = ok tt;
  octal_error = λ text. "strconv.ParseInt: parsing \"" <> text <> "\": invalid syntax";
}

abbrev pub machine : Machine
machine = record {
  codec = codec;
  decode_pod = λ text. ok (record { name = text; containers = [] });
  decode_kubeconfig = λ text. ok [];
  decode_directory = λ text. [];
  decode_response = λ text. record { status_code = 200; body = some text };
  decode_units = λ text. [];
  decode_join_config = λ text. ok (record { api_server_endpoint = ""; token = "" });
  decode_cluster_config = λ text. ok (record { external = none });
  parse_version = λ text. ok text;
  version_before = λ version bound. ok true;
}

-- No call fails.
abbrev pub good_machine : Env
good_machine h c = good ""
