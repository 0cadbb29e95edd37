-- ===== src/Kubeadm/Tls.antt =====
-- The certificate of the kubelet, which is optional.
use eks_anywhere_build_tooli.Prelude.{
  String, ◌≡◌, refl, inl, inr, Option, none, some, if◌then◌else◌, string_eq, ◌==◌, nat_eq,
  Bool-cases,
}
use eks_anywhere_build_tooli.Prelude.System.{
  History, ◌▹◌, Env, ◌>>=◌, lift, try, attempt, Answer-cases, read_file, Answer, good, absent, bad,
}
use eks_anywhere_build_tooli.Prelude.Outcome.{ok, err}
use eks_anywhere_build_tooli.Bottlerocket.Host.{Machine}
use eks_anywhere_build_tooli.Kubeadm.Utils.{
  kubelet_serving_cert_file, kubelet_serving_private_key_file, read_and_encode_file,
  read_kubelet_tls_config, KubeletTlsConfig,
}

module _ (m : Machine) (env : Env) where
  -- What a file gives, if it can be read and is not empty.
  abbrev pub contents_of : Answer → Option String
  contents_of (good text) = if text == "" then none else some (m.codec.base64_encode text)
  contents_of absent = none
  contents_of (bad e) = none

  -- The settings of the kubelet: both files are needed.
  abbrev pub tls_of : Option String → Option String → Option KubeletTlsConfig
  tls_of (some cert) (some key) =
      some (record { kubelet_serving_cert = cert; kubelet_serving_private_key = key })
  tls_of (some cert) none = none
  tls_of none key = none

  pub data Encoded (file : String) (h : History) (a : Answer) : Type 0 where
    has :
        (text : String)
        → contents_of a ≡ some text
        → read_and_encode_file m file env h ≡ (ok text, h ▹ read_file file)
        → Encoded file h a
    has_not :
        (e : String)
        → contents_of a ≡ none
        → read_and_encode_file m file env h ≡ (err e, h ▹ read_file file)
        → Encoded file h a

  Encoded-cases : (file : String) (h : History) → Encoded file h (env h (read_file file))
  unfolding read_and_encode_file ◌>>=◌ attempt lift
  Encoded-cases file h = elim (Answer-cases (env h (read_file file))) [
    | inl (text, a) ↦ elim (Bool-cases (text == "")) [
      | inl q ↦ rw a (has_not "empty contents" (rw q refl) (rw (a, q) refl))
      | inr q ↦ rw a (has (m.codec.base64_encode text) (rw q refl) (rw (a, q) refl))
    ]
    | inr (inl a) ↦ rw a (has_not "no such file or directory" refl (rw a refl))
    | inr (inr (e, a)) ↦ rw a (has_not e refl (rw a refl))
  ]

  -- The certificate and the key of the kubelet are never an error: with both files there and not
  -- empty the configuration holds both, encoded, and else there is none.
  pub read_kubelet_tls_config_ok :
      (h : History)
      → (read_kubelet_tls_config m env h).0
        ≡ ok (
            tls_of (contents_of (env h (read_file kubelet_serving_cert_file))) (
              contents_of (
                env
                  (h ▹ read_file kubelet_serving_cert_file)
                  (read_file kubelet_serving_private_key_file))))
  unfolding read_kubelet_tls_config ◌>>=◌ try lift
  read_kubelet_tls_config_ok h = elim (Encoded-cases kubelet_serving_cert_file h) [
    | has_not e c r ↦ rw (r, c) refl
    | has text c r ↦
        elim (Encoded-cases kubelet_serving_private_key_file
          (h ▹ read_file kubelet_serving_cert_file)) [
            | has_not e d s ↦ rw (r, c, d, s) refl
            | has key d s ↦ rw (r, c, d, s) refl
          ]
  ]
