-- ===== src/Bootstrap/Disabled.antt =====
-- The end of a bootstrap.
use eks_anywhere_build_tooli.Prelude.{ℕ, String, ◌≡◌, refl, ◌∙◌, true, [], ◌∷◌}
use eks_anywhere_build_tooli.Prelude.System.{
  History, ◌▹◌, Env, wrapped, or_exit, run, exec, is_good, Call,
}
use eks_anywhere_build_tooli.Prelude.System.Steps.{bind-ok, or_exit-ok, wrapped-ok, run-ok}
use eks_anywhere_build_tooli.Prelude.Outcome.{ok}
use eks_anywhere_build_tooli.Bottlerocket.UserData.{
  resolve_host_container_user_data, write_user_data_files, UserData,
}
use eks_anywhere_build_tooli.Bottlerocket.Host.{disable_bootstrap_container, Machine}
use eks_anywhere_build_tooli.Bootstrap.{wait_for_pre_reqs, run_bootstrapper, bootstrap_host}

abbrev pub disable_call : Call
disable_call = exec ("apiclient" ∷ "set" ∷ "host-containers.kubeadm-bootstrap.enabled=false" ∷ [])

disable-ok :
    (env : Env) (h : History) {u : Unit {0}}
    → (or_exit disable_bootstrap_container env h).0 ≡ ok u
    → (is_good (env h disable_call) ≡ true)
      × ((or_exit disable_bootstrap_container env h).1 ≡ h ▹ disable_call)
unfolding disable_bootstrap_container or_exit wrapped run
disable-ok env h e = (
  run-ok env disable_call h (
      wrapped-ok env "Error disabling bootstrap container" (run disable_call) h
        (or_exit-ok env (wrapped "Error disabling bootstrap container" (run disable_call)) h e)),
  refl,
)

-- What the success of a bootstrap means
pub record Done (m : Machine) (v : String) (fuel : ℕ) (env : Env) (h end : History) : Type 0 where
  pub user_data : UserData
  pub at_read : History
  pub at_files : History
  pub at_run : History
  pub ready : (wait_for_pre_reqs m fuel env h).0 ≡ ok tt
  pub read : (resolve_host_container_user_data m.codec env at_read).0 ≡ ok user_data
  pub written : (write_user_data_files m.codec user_data env at_files).0 ≡ ok tt
  pub followed : at_run ≡ (write_user_data_files m.codec user_data env at_files).1
  pub bootstrapped : (run_bootstrapper m v fuel user_data env at_run).0 ≡ ok tt
  pub disabled :
      is_good (env (run_bootstrapper m v fuel user_data env at_run).1 disable_call) ≡ true
  pub last_call : end ≡ (run_bootstrapper m v fuel user_data env at_run).1 ▹ disable_call

-- If the bootstrap of a host succeeds, the wait for its services succeeded, the user data was read,
-- its files were written and the bootstrapper ran on that user data, all without an error; right
-- behind it the bootstrap container was disabled, which succeeded, and this was the last call.
pub bootstrap_host_ok :
    (m : Machine) (v : String) (fuel : ℕ) (env : Env) (h : History)
    → (bootstrap_host m v fuel env h).0 ≡ ok tt
    → Done m v fuel env h (bootstrap_host m v fuel env h).1
unfolding bootstrap_host or_exit
bootstrap_host_ok m v fuel env h e =
    let (_, ready, e1, f1) = bind-ok env _ _ h e in
    let (_, locked, e2, f2) = bind-ok env _ _ _ e1 in
    let (user_data, read, e3, f3) = bind-ok env _ _ _ e2 in
    let (_, initialized, e4, f4) = bind-ok env _ _ _ e3 in
    let (_, written, e5, f5) = bind-ok env _ _ _ e4 in
    let (_, bootstrapped, e6, f6) = bind-ok env _ _ _ e5 in
    let (disabled, last_call) = disable-ok env _ e6 in
    record {
      user_data = user_data;
      at_read = _;
      at_files = _;
      at_run = _;
      ready = or_exit-ok env (wait_for_pre_reqs m fuel) _ ready;
      read = or_exit-ok env (resolve_host_container_user_data m.codec) _ read;
      written = or_exit-ok env (write_user_data_files m.codec user_data) _ written;
      followed = refl;
      bootstrapped = or_exit-ok env (run_bootstrapper m v fuel user_data) _ bootstrapped;
      disabled = disabled;
      last_call = f1 ∙ (f2 ∙ (f3 ∙ (f4 ∙ (f5 ∙ (f6 ∙ last_call)))));
    }
