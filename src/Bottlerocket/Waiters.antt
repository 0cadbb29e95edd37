-- ===== src/Bottlerocket/Waiters.antt =====
-- pkg/utils/waiters.go. A loop runs on a bound on its rounds.
pub mod Timeouts
pub mod Killed
use eks_anywhere_build_tooli.Prelude.{
  ℕ, zero, suc, String, ◌<>◌, Bool, true, false, not, ◌&&◌, Option, none, some, List, [], ◌∷◌,
  if◌then◌else◌, ◌==◌, nat_eq, string_eq, trim_suffix,
}
use eks_anywhere_build_tooli.Prelude.Number.{decimal}
use eks_anywhere_build_tooli.Prelude.System.{
  Program, ◌>>=◌, ◌>>◌, lift, wrapped, run, ignore, path_exists, timer_fired, answered, for_each,
  kill, http_get, sleep, connect_systemd, unit_event, Answer, good, absent, bad,
}
use eks_anywhere_build_tooli.Prelude.Outcome.{fail_if, Outcome, ok, err, fatal, crash, unfinished}
use eks_anywhere_build_tooli.Bottlerocket.Host.{HttpGetAction, Probe, Pod, UnitStatus, Machine}

abbrev pub kubelet_service : String
kubelet_service = "kubelet.service"

abbrev pub multi_user_target : String
multi_user_target = "multi-user.target"

abbrev find_unit : String → List (String × UnitStatus) → Option UnitStatus
find_unit service [] = none
find_unit service (unit ∷ units) =
    let rest = find_unit service units in if unit.0 == service then some unit.1 else rest

unfoldable pub has_suffix : String → String → Bool
has_suffix s suffix = not (trim_suffix s suffix == s)

-- Is a unit with this status up? A service has to run; a target has to be active.
unfoldable pub is_up : String → Option UnitStatus → Bool
is_up service none = false
is_up service (some status) =
    if status.active_state == "active"
    then if has_suffix service ".service"
      then status.sub_state == "running"
      else has_suffix service ".target" && status.sub_state == "active"
    else false

-- The events of the loop in `WaitForSystemdService`: a change, an error, or the timeout, which
-- starts again with each change.
abbrev on_unit_event : Machine → String → Answer → Outcome Bool
on_unit_event m service (good text) = ok (is_up service (find_unit service (m.decode_units text)))
on_unit_event m service (bad e) = err ("Error while checking for kubelet status: " <> e)
on_unit_event m service absent = err "Timeout checking for kubelet status"

abbrev read_body : Bool → Option String → Outcome Bool
read_body is_200 (some body) = ok is_200
read_body is_200 none = err "Error reading body from response of http get call"

module _ (m : Machine) where
  unfoldable pub wait_for_unit : ℕ → String → ℕ → Program (Unit {0})
  wait_for_unit zero service timeout = lift unfinished
  wait_for_unit (suc fuel) service timeout = do
    event ← answered (unit_event timeout)
    up ← lift (on_unit_event m service event)
    if up then lift (ok tt) else wait_for_unit fuel service timeout

  unfoldable pub wait_for_systemd_service : ℕ → String → ℕ → Program (Unit {0})
  wait_for_systemd_service fuel service timeout = do
    wrapped "Error creating systemd dbus connection" (run connect_systemd)
    wait_for_unit fuel service timeout

  -- One try of `WaitFor200`: is the answer a 200?
  abbrev pub on_response : Answer → Outcome Bool
  on_response (good text) =
      let response = m.decode_response text in read_body (response.status_code == 200) response.body
  on_response (bad e) = ok false
  on_response absent = ok false

  unfoldable pub wait_for_200 : ℕ → String → ℕ → Program (Unit {0})
  wait_for_200 zero url timeout = lift unfinished
  wait_for_200 (suc fuel) url timeout = do
    fired ← timer_fired timeout
    lift (fail_if fired "Timeout occurred while waiting for 200 OK")
    response ← answered (http_get url)
    done ← lift (on_response response)
    if done then lift (ok tt) else (ignore (sleep 10) >>= λ _. wait_for_200 fuel url timeout)

-- A file that exists, or whose status cannot be read, does not hold the command up.
unfoldable pub all_files_exist : List String → Program Bool
all_files_exist [] = lift (ok true)
all_files_exist (file ∷ files) = do
  exists ← path_exists file
  rest ← all_files_exist files
  lift (ok (exists && rest))

-- The goroutine's rounds, with the timer looked at in each.
unfoldable pub kill_cmd_after_files_generation : ℕ → List String → List String → Program (Unit {0})
kill_cmd_after_files_generation zero cmd check_files = lift unfinished
kill_cmd_after_files_generation (suc fuel) cmd check_files = do
  ignore (sleep 2)
  fired ← timer_fired 40
  if fired
      then (ignore (kill cmd) >>= λ _. lift (err "Kubeadm join kubelet-start killed after timeout"))
      else (all_files_exist check_files >>= λ exist.
          if exist then ignore (kill cmd) else kill_cmd_after_files_generation fuel cmd check_files)

unfoldable pub probe_url : String → HttpGetAction → String
probe_url scheme action =
    scheme <> "://" <> action.host <> ":" <> decimal action.port <> action.path

unfoldable pub scheme_of : HttpGetAction → String
scheme_of action = if action.scheme == "" then "http" else action.scheme

module _ (m : Machine) (fuel : ℕ) where
  -- A probe without a handler is a nil pointer.
  abbrev wait_for_action : Option HttpGetAction → Program (Unit {0})
  wait_for_action none = lift crash
  wait_for_action (some action) =
      wrapped "Error waiting for 200 OK"
        (wait_for_200 m fuel (probe_url (scheme_of action) action) 300)

  abbrev wait_for_probe : Option Probe → Program (Unit {0})
  wait_for_probe none = lift (ok tt)
  wait_for_probe (some probe) = wait_for_action probe.http_get_action

  unfoldable pub wait_for_pod_liveness : Pod → Program (Unit {0})
  wait_for_pod_liveness pod =
      for_each (λ container. wait_for_probe container.liveness_probe) pod.containers

  unfoldable pub wait_for_pods : List Pod → Program (Unit {0})
  wait_for_pods = for_each (λ pod.
      wrapped ("Error checking liveness probe for pod: " <> pod.name) (wait_for_pod_liveness pod))
