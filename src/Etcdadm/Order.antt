-- ===== src/Etcdadm/Order.antt =====
-- The calls of an etcdadm command that succeeds.
use eks_anywhere_build_tooli.Prelude.{ℕ, String, ◌≡◌, List, [], ◌∷◌}
use eks_anywhere_build_tooli.Prelude.System.{History, Env}
use mathlib.Core.Path.{subst}
use eks_anywhere_build_tooli.Prelude.System.{◌>>◌}
use eks_anywhere_build_tooli.Prelude.{◌∙◌}
use eks_anywhere_build_tooli.Etcdadm.{run_phases, start_pods}
use eks_anywhere_build_tooli.Etcdadm.Phases.{run_phases-Succeed}
use eks_anywhere_build_tooli.Prelude.System.Steps.{bind-ok}
use eks_anywhere_build_tooli.Prelude.Outcome.{ok}
use eks_anywhere_build_tooli.Bottlerocket.Host.{Machine}
use eks_anywhere_build_tooli.Etcdadm.{run_command, start_pods, Command, init_command, join_command}
use eks_anywhere_build_tooli.Etcdadm.Phases.{Succeed, after_phases}

-- What etcdadm is called with: its flags are the same for both commands.
abbrev pub flags_for : String → String → String → List String
flags_for repository version ciphers =
    "-l" ∷ "debug" ∷ "--version" ∷ version ∷ "--init-system" ∷ "kubelet" ∷ "--image-repository"
    ∷ repository ∷ "--certs-dir" ∷ "/var/lib/etcd/pki" ∷ "--data-dir" ∷ "/var/lib/etcd/data"
    ∷ "--kubelet-pod-manifest-path" ∷ "./manifests" ∷ "--cipher-suites" ∷ ciphers ∷ []

abbrev pub before_pods : Command → List String
before_pods (init_command repository version ciphers) =
    "install" ∷ "certificates" ∷ "snapshot" ∷ "configure" ∷ "start" ∷ []
before_pods (join_command repository version ciphers endpoint) =
    "stop" ∷ "certificates" ∷ "membership" ∷ "install" ∷ "configure" ∷ "start" ∷ []

abbrev pub name_of : Command → String
name_of (init_command repository version ciphers) = "init"
name_of (join_command repository version ciphers endpoint) = "join"

abbrev pub flags_of : Command → List String
flags_of (init_command repository version ciphers) = flags_for repository version ciphers
flags_of (join_command repository version ciphers endpoint) = flags_for repository version ciphers

abbrev pub args_of : Command → List String
args_of (init_command repository version ciphers) = []
args_of (join_command repository version ciphers endpoint) = endpoint ∷ []

module _ (m : Machine) (fuel : ℕ) (env : Env) (c : Command) (h : History) where
  abbrev pub Succeeds : History → List String → Type 0
  Succeeds = Succeed (name_of c) (flags_of c) (args_of c) env

  abbrev pub after : History → List String → History
  after = after_phases (name_of c) (flags_of c) (args_of c)

  -- The pods are started behind the phases for that; the phase behind them is the last call.
  abbrev pub InOrder : Type 0
  InOrder =
      let prepared = after h (before_pods c) in
      let (started, at_pods) = start_pods m fuel env prepared in
      Succeeds h (before_pods c)
      × (started ≡ ok tt)
      × Succeeds at_pods ("health" ∷ [])
      × ((run_command m fuel c env h).1 ≡ after at_pods ("health" ∷ []))

-- The two runs of phases around the start of the pods
module _ (m : Machine) (fuel : ℕ) (env : Env) (command : String)
    (flags args phases : List String) where
  -- What is to be said of the start of the pods and of what follows it.
  Rest : History → History → Type 0
  Rest end prepared =
      let (started, at_pods) = start_pods m fuel env prepared in
      (started ≡ ok tt)
      × Succeed command flags args env at_pods ("health" ∷ [])
      × (end ≡ after_phases command flags args at_pods ("health" ∷ []))

  around_pods :
      (h : History)
      → ((run_phases command phases flags args
            >> (start_pods m fuel >> run_phases command ("health" ∷ []) flags args))
          env h).0
        ≡ ok tt
      → Succeed command flags args env h phases
        × Rest
            ((run_phases command phases flags args
                >> (start_pods m fuel >> run_phases command ("health" ∷ []) flags args))
              env h).1
            (after_phases command flags args h phases)
  unfolding Rest
  around_pods h e =
      let (_, first, rest, same) = bind-ok env _ _ h e in
      let (_, started, last, same_end) = bind-ok env _ _ _ rest in
      let (succeed, prepared) = run_phases-Succeed command flags args env h phases first in
      let (healthy, ended) = run_phases-Succeed command flags args env _ ("health" ∷ []) last in
      (succeed, subst (Rest _) prepared (started, healthy, same ∙ (same_end ∙ ended)))

-- If an etcdadm command succeeds, its phases ran in the order of the command (`install`,
-- `certificates`, `snapshot`, `configure` and `start` for `init`; `stop`, `certificates`,
-- `membership`, `install`, `configure` and `start` for `join`), each called once with the endpoint of
-- a join and the flags, and each succeeded; then the pods were started, without an error, and at the
-- end the phase `health` succeeded, as the last call.
pub run_command_ok :
    (m : Machine) (fuel : ℕ) (env : Env) (c : Command) (h : History)
    → (run_command m fuel c env h).0 ≡ ok tt
    → InOrder m fuel env c h
unfolding run_command Rest
run_command_ok m fuel env (init_command repository version ciphers) h e =
    let (s, r) = around_pods m fuel env "init" (flags_for repository version ciphers) [] _ h e in
    (s, r.0, r.1, r.2)
run_command_ok m fuel env (join_command repository version ciphers endpoint) h e =
    let (s, r) =
      around_pods m fuel env "join" (flags_for repository version ciphers) (endpoint ∷ []) _ h e in
    (s, r.0, r.1, r.2)
