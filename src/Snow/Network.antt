-- ===== src/Snow/Network.antt =====
-- system/network.go: the addresses of the device, and the network configuration that netdog reads.
use eks_anywhere_build_tooli.Prelude.{
  ℕ, zero, suc, String, ◌<>◌, Bool, false, not, ◌&&◌, Option, none, some, List, [], ◌∷◌,
  if◌then◌else◌, ◌==◌, nat_eq, string_eq, ltb, length,
}
use eks_anywhere_build_tooli.Prelude.Int.{ℤ, pos, negsuc}
use eks_anywhere_build_tooli.Prelude.Outcome.{◌>>=◌, Outcome, ok, err, crash, returned, errors_wrap}

abbrev pub rootfs : String
rootfs = "/.bottlerocket/rootfs"

abbrev pub metadata_service_ip : String
metadata_service_ip = "169.254.169.254"

abbrev pub network_file_path : String
network_file_path = "/tmp/network.yaml"

abbrev pub net_config_path : String
net_config_path = rootfs <> "/var/lib/netdog/net.toml"

abbrev pub current_ip_path : String
current_ip_path = rootfs <> "/var/lib/netdog/current_ip"

pub record StaticIp : Type 0 where
  pub address : String
  pub gateway : String
  pub primary : Bool

pub record Network : Type 0 where
  pub device_ip : String
  pub dni_count : ℤ
  pub static : List StaticIp

pub record NetworkMapping : Type 0 where
  pub dni : String
  pub static_ip : Option StaticIp

-- A route, without a destination where it is a default route, and with its gateway.
pub record Route : Type 0 where
  pub dst : Option String
  pub gw : String

-- What the code calls of netlink, YAML and the templates.
pub record Netlink : Type 0 where
  pub decode_links : String → List String
  pub decode_routes : String → List Route
  pub decode_network : String → Outcome Network
  pub generate_network_template : List NetworkMapping → String → String → Outcome String

unfoldable pub is_dni : String → Bool
is_dni name = not (name == "lo") && not (name == "eth0")

abbrev pub dnis_of : List String → List String
dnis_of [] = []
dnis_of (name ∷ names) = let rest = dnis_of names in if is_dni name then name ∷ rest else rest

abbrev gateway_or : Option String → String → Outcome String → Outcome String
gateway_or none gw rest = ok gw
gateway_or (some dst) gw rest = rest

abbrev pub gateway_of : List Route → Outcome String
gateway_of [] = err "default gateway not found"
gateway_of (route ∷ routes) = gateway_or route.dst route.gw (gateway_of routes)

-- `network.Static[i]`, which is a panic out of range.
abbrev pub index : List StaticIp → ℕ → Outcome StaticIp
index [] i = crash
index (x ∷ xs) zero = ok x
index (x ∷ xs) (suc i) = index xs i

-- The static address of the network card `i`.
unfoldable pub static_ip_of : List StaticIp → ℕ → Outcome (Option StaticIp)
static_ip_of [] i = ok none
static_ip_of (x ∷ xs) i = do ip ← index (x ∷ xs) i; ok (some ip)

-- The loop of `networkMapping`, from the card `i` on.
unfoldable pub map_dnis : List StaticIp → ℕ → List String → Outcome (List NetworkMapping)
map_dnis static i [] = ok []
map_dnis static i (name ∷ names) = do
  ip ← static_ip_of static i
  rest ← map_dnis static (suc i) names
  ok (record { dni = name; static_ip = ip } ∷ rest)

unfoldable pub same_count : ℕ → ℤ → Bool
same_count n (pos k) = n == k
same_count n (negsuc k) = false

unfoldable pub fewer : ℕ → ℤ → Bool
fewer n (pos k) = ltb n k
fewer n (negsuc k) = false

-- What is behind the first two calls of `networkMapping`. The errors that it returns wrap the error of
-- the call before, which is nil when this is reached. A network that the user
-- data does not have is a nil pointer.
unfoldable pub mapping_of : List String → Option Network → Outcome (List NetworkMapping)
mapping_of dnis none = crash
mapping_of dnis (some network) =
    if not (same_count (length dnis) network.dni_count)
    then returned []
        (errors_wrap "the number of DNI found does not match the dniCount in the network file" none)
    else if ltb 0 (length network.static) && fewer (length network.static) network.dni_count
    then returned [] (errors_wrap "mix of using DHCP and static IP is not supported" none)
    else map_dnis network.static 0 dnis
