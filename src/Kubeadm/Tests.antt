-- ===== src/Kubeadm/Tests.antt =====
-- Runs of the theorems on samples.
use eks_anywhere_build_tooli.Prelude.{◌≡◌, some, []}
use eks_anywhere_build_tooli.Prelude.System.{Env, good}
use eks_anywhere_build_tooli.Prelude.Outcome.{ok}
use eks_anywhere_build_tooli.Kubeadm.Utils.{read_kubelet_tls_config}
use eks_anywhere_build_tooli.Kubeadm.Tls.{tls_of, read_kubelet_tls_config_ok}
use eks_anywhere_build_tooli.Bottlerocket.Samples.{machine}

-- A machine whose files hold a text.
abbrev with_files : Env
with_files h c = good "pem"

read_kubelet_tls_config_ok_example :
    (read_kubelet_tls_config machine with_files []).0
    ≡ ok (tls_of machine with_files (some "pem") (some "pem"))
read_kubelet_tls_config_ok_example = read_kubelet_tls_config_ok machine with_files []
