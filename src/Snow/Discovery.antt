-- ===== src/Snow/Discovery.antt =====
-- system/network.go: the addresses of the device, and the network configuration that netdog reads.
use eks_anywhere_build_tooli.Prelude.{
  String, ◌<>◌, Option, none, some, List, [], ◌∷◌, if◌then◌else◌, ◌==◌, nat_eq, string_eq, split,
  trim_suffix,
}
use eks_anywhere_build_tooli.Prelude.System.{
  Program, ◌>>=◌, lift, wrapped, attempt, path_exists, read_file, http_get, link_list, route_list,
}
use eks_anywhere_build_tooli.Prelude.Outcome.{Outcome, ok, err, fatal, crash, unfinished}
use eks_anywhere_build_tooli.Bottlerocket.UserData.{
  resolve_bootstrap_container_user_data, write, WriteFile,
}
use eks_anywhere_build_tooli.Bottlerocket.Host.{HttpResponse, Machine}
use eks_anywhere_build_tooli.Snow.Network.{
  metadata_service_ip, network_file_path, net_config_path, current_ip_path, dnis_of, gateway_of,
  mapping_of, Network, NetworkMapping, Netlink,
}

abbrev as_network : Outcome Network → Outcome (Option Network)
as_network (ok network) = ok (some network)
as_network (err e) = err ("error unmarshalling network file content: " <> e)
as_network (fatal e) = fatal e
as_network crash = crash
as_network unfinished = unfinished

abbrev find_network : Netlink → List WriteFile → Outcome (Option Network)
find_network n [] = ok none
find_network n (file ∷ files) =
    if file.path == network_file_path
    then as_network (n.decode_network file.content)
    else find_network n files

-- `bufio.Scanner`'s first line, and nothing where there is none
abbrev first_line : List String → String
first_line [] = ""
first_line (line ∷ lines) = line

abbrev body_of : Option String → Outcome String
body_of (some body) = ok body
body_of none = err "error reading response body"

abbrev response_of : HttpResponse → String → Outcome String
response_of response url =
    if response.status_code == 200
    then body_of response.body
    else err ("requesting " <> url <> " returns another status code")

-- A network that the user data does not have is a nil pointer.
abbrev device_ip_of : Option Network → Outcome String
device_ip_of none = crash
device_ip_of (some network) = ok network.device_ip

module _ (m : Machine) (n : Netlink) where
  -- `httpGet`
  unfoldable pub get : String → Program String
  get url = do
    text ← wrapped ("error sending http GET request to " <> url) (attempt (http_get url))
    lift (response_of (m.decode_response text) url)

  unfoldable pub instance_ip : Program String
  instance_ip =
      wrapped "error requesting instance ip through http"
        (get ("http://" <> metadata_service_ip <> "/latest/meta-data/local-ipv4"))

  unfoldable pub instance_id : Program String
  instance_id =
      wrapped "error requesting instance id through http"
        (get ("http://" <> metadata_service_ip <> "/latest/meta-data/instance-id"))

  unfoldable pub current_ip : Program String
  current_ip = do
    text ← attempt (read_file current_ip_path)
    lift (ok (trim_suffix (first_line (split text "\n")) "\r"))

  unfoldable pub default_gateway : Program String
  default_gateway = do
    text ← wrapped "error getting the route list" (attempt route_list)
    lift (gateway_of (n.decode_routes text))

  unfoldable pub dni_list : Program (List String)
  dni_list = do
    text ← wrapped "error getting the device list of links" (attempt link_list)
    lift (ok (dnis_of (n.decode_links text)))

  unfoldable pub parse_network_file : Program (Option Network)
  parse_network_file = do
    user_data ← wrapped "error resolving user data" (resolve_bootstrap_container_user_data m.codec)
    lift (find_network n user_data.write_files)

  unfoldable pub get_device_ip : Program String
  get_device_ip = do
    network ← wrapped "error parsing network file" parse_network_file
    lift (device_ip_of network)

  unfoldable pub network_mapping : Program (List NetworkMapping)
  network_mapping = do
    dnis ← wrapped "error getting DNI list" dni_list
    network ← wrapped "error parsing network file" parse_network_file
    lift (mapping_of dnis network)

  -- The body of `configureDNI`, where the configuration is not there yet.
  unfoldable pub write_network_config : Program (Unit {0})
  write_network_config = do
    ip ← wrapped "error getting local instance ip" instance_ip
    gateway ← wrapped "error getting default gateway" default_gateway
    network ← wrapped "error generating network mapping" network_mapping
    content ←
        wrapped "error generating network template"
          (lift (n.generate_network_template network ip gateway))
    wrapped ("error writing network configuration to " <> net_config_path)
        (write m.codec net_config_path content 0o640)

  unfoldable pub configure_dni : Program (Unit {0})
  configure_dni = do
    exists ← path_exists net_config_path
    if exists then lift (ok tt) else write_network_config
