-- ===== src/Bottlerocket/Tests.antt =====
-- Runs of the theorems on samples.
use eks_anywhere_build_tooli.Prelude.{
  ℕ, ◌+◌, ◌≤◌, ◌≡◌, refl, ◌≢◌, true, not, none, some, [], ◌∷◌, arith, if◌then◌else◌, ltb, inr, ◌↔◌,
  String, List,
}
use eks_anywhere_build_tooli.Prelude.Int.{pos}
use eks_anywhere_build_tooli.Prelude.Number.{parse_octal, decimal}
use eks_anywhere_build_tooli.Prelude.{zero, suc, ◌==◌, string_eq}
use eks_anywhere_build_tooli.Prelude.System.{
  History, ◌▹◌, Env, ◌>>=◌, lift, timer_fired, answered, read_file, http_get, timer, get_secret,
  good, absent, bad,
}
use eks_anywhere_build_tooli.Prelude.Outcome.{ok, err, unfinished}
use eks_anywhere_build_tooli.Bottlerocket.UserData.{
  load_user_data_from_secrets_manager, write_user_data_files, WriteFile, UserData,
}
use eks_anywhere_build_tooli.Bottlerocket.Waiters.{wait_for_200, kill_cmd_after_files_generation}
use eks_anywhere_build_tooli.Bottlerocket.Pods.{get_api_server_from_kube_config}
use eks_anywhere_build_tooli.Bottlerocket.Samples.{user_data, codec, machine, good_machine}
use eks_anywhere_build_tooli.Bottlerocket.UserData.Chunks.{
  HoldsChunks, chunk_name, after_chunks, stored_at, load_user_data_ok, load_user_data_fails,
}
use eks_anywhere_build_tooli.Bottlerocket.UserData.Files.{
  Asked, bad_permissions, good_env, after_files, write_user_data_files_ok,
  write_user_data_files_stops,
}
use eks_anywhere_build_tooli.Bottlerocket.Waiters.Timeouts.{
  slept, TimerStarted, wait_for_200_ends, EndsWith200, wait_for_200_ok,
}
use eks_anywhere_build_tooli.Bottlerocket.Waiters.Killed.{EndsKilled, kill_cmd_ends}
use eks_anywhere_build_tooli.Bottlerocket.Pods.Enabled.{get_api_server_from_kube_config_iff, Single}

abbrev two_chunks : Env
two_chunks h (get_secret name) = good "x"
two_chunks h c = good ""

load_user_data_ok_example :
    load_user_data_from_secrets_manager codec (stored_at "p" 2) two_chunks []
    ≡ (ok user_data, after_chunks "p" 2 [])
load_user_data_ok_example =
    load_user_data_ok codec two_chunks "p" 2 (λ i. "x") [] "xx" "xx" user_data (λ i lt. refl) refl
      refl refl

-- The second chunk is gone.
abbrev no_chunk : Env
no_chunk h (get_secret name) = if name == "p-1" then bad "gone" else good "x"
no_chunk h c = good ""

no_chunk-HoldsChunks : HoldsChunks no_chunk "p" 1 (λ i. "x") []
unfolding decimal
no_chunk-HoldsChunks zero lt = refl
no_chunk-HoldsChunks (suc i) lt = absurd (omega arith)

no_second_chunk : no_chunk (after_chunks "p" 1 []) (get_secret (chunk_name "p" 1)) ≡ bad "gone"
unfolding decimal
no_second_chunk = refl

load_user_data_fails_example :
    load_user_data_from_secrets_manager codec (stored_at "p" 2) no_chunk []
    ≡ (err "gone", after_chunks "p" 1 [] ▹ get_secret (chunk_name "p" 1))
load_user_data_fails_example =
    load_user_data_fails codec no_chunk "p" 2 1 (λ i. "x") [] "gone" no_chunk-HoldsChunks
      no_second_chunk (omega arith)

abbrev secret_file : WriteFile
secret_file = record {
  path = "/tmp/kubeadm.yaml";
  owner = "root:root";
  permissions = "0640";
  content = "c";
}

abbrev odd_file : WriteFile
odd_file = record { path = "/tmp/odd"; owner = "root"; permissions = "rw"; content = "" }

abbrev one_file : UserData
one_file = record { user_data_type = ""; write_files = secret_file ∷ []; run_cmd = "" }

abbrev two_files : UserData
two_files = record { user_data_type = ""; write_files = secret_file ∷ odd_file ∷ []; run_cmd = "" }

octal_640 : parse_octal "0640" ≡ some (pos 416)
unfolding parse_octal
octal_640 = refl

no_octal : parse_octal "rw" ≡ none
unfolding parse_octal
no_octal = refl

secret_file-Asked : Asked (secret_file ∷ []) ((pos 416, "root") ∷ [])
secret_file-Asked = (
  inr ((λ e. cc), octal_640),
  ((omega arith, (omega arith, (omega arith, (omega arith, tt)))), inr ("root", refl)),
  tt,
)

write_user_data_files_ok_example :
    write_user_data_files codec one_file (good_env (λ h c. "0:0")) []
    ≡ (ok tt, after_files codec (λ h c. "0:0") [] (secret_file ∷ []) ((pos 416, "root") ∷ []))
write_user_data_files_ok_example =
    write_user_data_files_ok codec (λ h c. "0:0") [] one_file ((pos 416, "root") ∷ [])
      secret_file-Asked

write_user_data_files_stops_example :
    write_user_data_files codec two_files (good_env (λ h c. "0:0")) [] ≡ (
      err (bad_permissions codec odd_file),
      after_files codec (λ h c. "0:0") [] (secret_file ∷ []) ((pos 416, "root") ∷ []),
    )
write_user_data_files_stops_example =
    write_user_data_files_stops codec (λ h c. "0:0") [] two_files ((pos 416, "root") ∷ [])
      (secret_file ∷ []) odd_file [] refl secret_file-Asked (λ e. cc) no_octal

-- No answer comes before the timer is ready.
abbrev no_server : Env
no_server h (http_get url) = bad "refused"
no_server h (timer t) = if not (ltb (slept h) t) then good "" else absent
no_server h c = absent

no_server-TimerStarted : (t : ℕ) → TimerStarted no_server [] t
unfolding slept
no_server-TimerStarted t h le = rw (ready h le) refl
  where
    ready : (h : History) → 0 + t ≤ slept h → not (ltb (slept h) t) ≡ true
    ready h le = ground arith

wait_for_200_ends_example : (wait_for_200 machine 4 "http://a" 30 no_server []).0 ≢ unfinished
unfolding slept
wait_for_200_ends_example =
    wait_for_200_ends machine no_server "http://a" 30 [] (no_server-TimerStarted 30) 3 []
      (omega arith)

-- A server that answers, and a timer that is not ready.
abbrev server : Env
server h (timer t) = absent
server h c = good "up"

wait_for_200_ok_example :
    EndsWith200 machine server "http://a" (wait_for_200 machine 4 "http://a" 30 server []).1
unfolding wait_for_200 ◌>>=◌ timer_fired answered lift
wait_for_200_ok_example = wait_for_200_ok machine server "http://a" 30 4 [] refl

kill_cmd_ends_example :
    EndsKilled no_server
      ("kubeadm" ∷ [])
      ("/etc/a" ∷ [])
      (kill_cmd_after_files_generation 20 ("kubeadm" ∷ []) ("/etc/a" ∷ []) no_server [])
unfolding slept
kill_cmd_ends_example =
    kill_cmd_ends no_server ("kubeadm" ∷ []) ("/etc/a" ∷ []) [] (no_server-TimerStarted 40) 19 []
      (omega arith)

get_api_server_from_kube_config_iff_example :
    ((get_api_server_from_kube_config machine "/a" good_machine []).0 ≡ ok "") ↔ (
      (text : String) × (servers : List String) × (good_machine [] (read_file "/a") ≡ good text)
      × (machine.decode_kubeconfig text ≡ ok servers)
      × Single servers "")
get_api_server_from_kube_config_iff_example =
    get_api_server_from_kube_config_iff machine good_machine [] "/a" ""
