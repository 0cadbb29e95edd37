-- ===== src/Bottlerocket/Pods/Enabled.antt =====
-- The API server of a kubeconfig.
use eks_anywhere_build_tooli.Prelude.{
  String, ◌≡◌, refl, ◌≢◌, ◌⊎◌, ◌↔◌, inl, inr, none, sym, List, [], ◌∷◌, length, arith,
}
use eks_anywhere_build_tooli.Prelude.System.{
  History, Env, ◌>>=◌, lift, wrapped, attempt, read_file, good,
}
use eks_anywhere_build_tooli.Prelude.System.Steps.{bind-ok, wrapped-ok, attempt-ok, lift-ok}
use eks_anywhere_build_tooli.Prelude.Outcome.{ok, ok-injective}
use eks_anywhere_build_tooli.Bottlerocket.Host.{Machine}
use eks_anywhere_build_tooli.Bottlerocket.Pods.{
  single_server, get_kube_config_raw, get_api_server_from_kube_config,
}

-- The server of the only cluster, or the empty text where there is not one cluster
abbrev pub Single : List String → String → Type 0
Single servers server = (servers ≡ server ∷ []) ⊎ ((length servers ≢ 1) × (server ≡ ""))

single_server-Single :
    (servers : List String) (server : String)
    → single_server none servers ≡ ok server
    → Single servers server
single_server-Single [] server e = inr (omega arith, sym (ok-injective e))
single_server-Single (only ∷ []) server e = inl (rw (ok-injective e) refl)
single_server-Single (first ∷ other ∷ servers) server e = inr (omega arith, sym (ok-injective e))

Single-single_server :
    (servers : List String) (server : String)
    → Single servers server
    → single_server none servers ≡ ok server
Single-single_server servers server (inl e) = rw e refl
Single-single_server [] server (inr (d, e)) = rw e refl
Single-single_server (only ∷ []) server (inr (d, e)) = absurd (d refl)
Single-single_server (first ∷ other ∷ servers) server (inr (d, e)) = rw e refl

get_api_server_from_kube_config_ok :
    (m : Machine) (env : Env) (h : History) (path text server : String) (servers : List String)
    → env h (read_file path) ≡ good text
    → m.decode_kubeconfig text ≡ ok servers
    → Single servers server
    → (get_api_server_from_kube_config m path env h).0 ≡ ok server
unfolding get_api_server_from_kube_config get_kube_config_raw ◌>>=◌ wrapped attempt lift
get_api_server_from_kube_config_ok m env h path text server servers at decoded single =
    rw (at, decoded, Single-single_server servers server single) refl

-- A call of `get_api_server_from_kube_config` gives a server without an error exactly if the file is
-- read and decoded, and the server is that of its only cluster, or the empty text where the file has
-- no cluster or more than one: these are no errors.
pub get_api_server_from_kube_config_iff :
    (m : Machine) (env : Env) (h : History) (path server : String)
    → ((get_api_server_from_kube_config m path env h).0 ≡ ok server) ↔ (
        (text : String) × (servers : List String) × (env h (read_file path) ≡ good text)
        × (m.decode_kubeconfig text ≡ ok servers)
        × Single servers server)
unfolding get_api_server_from_kube_config get_kube_config_raw
get_api_server_from_kube_config_iff m env h path server = (
  λ e.
      let (servers, raw, single, _) = bind-ok env _ _ h e in
      let (text, at, decoded, _) = bind-ok env _ _ h (wrapped-ok env _ _ h raw) in
      (
        text,
        servers,
        attempt-ok env (read_file path) h (wrapped-ok env _ _ h at),
        lift-ok env _ _ (wrapped-ok env _ _ _ decoded),
        single_server-Single servers server (lift-ok env _ _ single),
      ),
  λ (text, servers, at, decoded, single).
      get_api_server_from_kube_config_ok m env h path text server servers at decoded single,
)
