-- ===== src/Etcdadm/Tests.antt =====
-- Runs of the theorems on samples.
use eks_anywhere_build_tooli.Prelude.{◌≡◌, refl, ◌↔◌, [], ◌∷◌, fields}
use eks_anywhere_build_tooli.Prelude.System.{◌▹◌, Env, good, bad}
use eks_anywhere_build_tooli.Prelude.Outcome.{ok, err}
use eks_anywhere_build_tooli.Etcdadm.{parse_cmd, run_phases, init_command}
use eks_anywhere_build_tooli.Etcdadm.Parse.{words_of, parse_cmd_iff}
use eks_anywhere_build_tooli.Etcdadm.Phases.{
  phase_call, after_phases, phase_error, run_phases_fails,
}
use eks_anywhere_build_tooli.Bottlerocket.Samples.{machine, good_machine}
use eks_anywhere_build_tooli.Bottlerocket.Pods.{enable_pods, enable_static_pods}
use eks_anywhere_build_tooli.Bottlerocket.Waiters.{wait_for_pods}
use eks_anywhere_build_tooli.Etcdadm.{run_command, start_pods, Command}
use eks_anywhere_build_tooli.Etcdadm.Order.{run_command_ok, InOrder}
use eks_anywhere_build_tooli.Prelude.System.{◌>>=◌, wrapped, run, attempt, lift, for_each}

parse_cmd_iff_example :
    (parse_cmd "EtcdadmInit r v c" ≡ ok (init_command "r" "v" "c"))
    ↔ (fields "EtcdadmInit r v c" ≡ words_of (init_command "r" "v" "c"))
parse_cmd_iff_example = parse_cmd_iff "EtcdadmInit r v c" (init_command "r" "v" "c")

abbrev sample_command : Command
sample_command = init_command "r" "v" "c"

sample_run : (run_command machine 2 sample_command good_machine []).0 ≡ ok tt
unfolding run_command run_phases for_each start_pods enable_static_pods enable_pods wait_for_pods
    ◌>>=◌ wrapped run attempt lift
sample_run = refl

run_command_ok_example : InOrder machine 2 good_machine sample_command []
run_command_ok_example = run_command_ok machine 2 good_machine sample_command [] sample_run

-- The second call fails.
abbrev second_fails : Env
second_fails [] c = good ""
second_fails (d ∷ h) c = bad "failed"

run_phases_fails_example :
    run_phases "init" ("install" ∷ "certificates" ∷ "start" ∷ []) [] [] second_fails [] ≡ (
      err (phase_error "init" [] [] "certificates" "failed"),
      after_phases "init" [] [] [] ("install" ∷ []) ▹ phase_call "init" [] [] "certificates",
    )
run_phases_fails_example =
    run_phases_fails "init" [] [] second_fails [] ("install" ∷ []) "certificates" "failed"
      ("start" ∷ []) (refl, tt) refl
