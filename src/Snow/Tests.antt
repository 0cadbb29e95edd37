-- ===== src/Snow/Tests.antt =====
-- Runs of the theorems on samples.
use eks_anywhere_build_tooli.Prelude.{
  ◌≤◌, String, ◌≡◌, refl, ◌≢◌, Bool, true, false, ◌||◌, none, some, [], ◌∷◌, arith, if◌then◌else◌,
  ◌⊎◌,
}
use eks_anywhere_build_tooli.Prelude.Int.{pos}
use eks_anywhere_build_tooli.Prelude.System.{History, Env, stat, good, absent}
use eks_anywhere_build_tooli.Prelude.Outcome.{ok}
use eks_anywhere_build_tooli.Snow.Network.{mapping_of, StaticIp, Network, Netlink}
use eks_anywhere_build_tooli.Snow.System.{rebooted_path, partition_created_path}
use eks_anywhere_build_tooli.Snow.Once.{creates, created, reboots, Persists, boots, reboots-boots}
use eks_anywhere_build_tooli.Snow.Format.{formats_marked, formats_marked-boots}
use eks_anywhere_build_tooli.Snow.Mapping.{expected, mapping_of_total, Fits}
use eks_anywhere_build_tooli.Bottlerocket.Samples.{machine}

abbrev has_created : String → History → Bool
has_created path [] = false
has_created path (c ∷ h) = let rest = has_created path h in rest || creates path c

-- A machine on which a file is there when it has been created.
abbrev disk : Env
disk h (stat path) = if has_created path h then good "" else absent
disk h c = good ""

false_not_true : false ≢ true
false_not_true = cc

created-has_created :
    (path : String) (h : History) → created disk path h ≡ true → has_created path h ≡ true
unfolding created
created-has_created path [] e = absurd (false_not_true e)
created-has_created path (c ∷ h) e = ground (arith, created-has_created path h)

disk-Persists : (path : String) → Persists disk path
disk-Persists path h e = rw (created-has_created path h e) refl

abbrev network : Network
network = record {
  device_ip = "10.0.0.1";
  dni_count = pos 2;
  static = address "10.0.0.2" ∷ address "10.0.0.3" ∷ [];
}
  where
    address : String → StaticIp
    address ip = record { address = ip; gateway = "10.0.0.1"; primary = true }

abbrev links : Netlink
links = record {
  decode_links = λ text. "lo" ∷ "eth0" ∷ "dni0" ∷ "dni1" ∷ [];
  decode_routes = λ text. record { dst = none; gw = "10.0.0.1" } ∷ [];
  decode_network = λ text. ok network;
  generate_network_template = λ mappings ip gateway. ok "";
}

reboots-boots_example : reboots (boots machine links disk 3) ≤ 1
reboots-boots_example = reboots-boots machine links disk 3 (disk-Persists rebooted_path)

formats_marked-boots_example : formats_marked disk (boots machine links disk 3) ≡ 0
formats_marked-boots_example =
    formats_marked-boots machine links disk 3 (disk-Persists partition_created_path)

mapping_of_total_example :
    (Fits ("dni0" ∷ []) network
      × (mapping_of ("dni0" ∷ []) (some network) ≡ ok (expected ("dni0" ∷ []) network.static)))
    ⊎ ((¬ Fits ("dni0" ∷ []) network) × (mapping_of ("dni0" ∷ []) (some network) ≡ ok []))
mapping_of_total_example = mapping_of_total ("dni0" ∷ []) network
