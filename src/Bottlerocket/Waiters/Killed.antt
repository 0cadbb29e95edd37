-- ===== src/Bottlerocket/Waiters/Killed.antt =====
-- A command that is started is killed again.
use eks_anywhere_build_tooli.Prelude.{
  ℕ, zero, suc, ◌+◌, ◌*◌, ◌≤◌, String, ◌≡◌, refl, ◌≢◌, inl, inr, Bool, true, false, not, ◌&&◌, List,
  [], ◌∷◌, arith, Bool-cases,
}
use eks_anywhere_build_tooli.Prelude.System.{
  History, ◌▹◌, Env, ◌>>=◌, lift, ignore, is_absent, is_good, path_exists, timer_fired, kill, stat,
  sleep, timer,
}
use eks_anywhere_build_tooli.Prelude.Outcome.{Outcome, ok, err, unfinished}
use eks_anywhere_build_tooli.Bottlerocket.Waiters.{all_files_exist, kill_cmd_after_files_generation}
use eks_anywhere_build_tooli.Bottlerocket.Waiters.Timeouts.{slept, TimerStarted}

abbrev after_stats : History → List String → History
after_stats h [] = h
after_stats h (file ∷ files) = after_stats (h ▹ stat file) files

all_files_exist-ok :
    (env : Env) (files : List String) (h : History)
    → (b : Bool) × (all_files_exist files env h ≡ (ok b, after_stats h files))
unfolding all_files_exist ◌>>=◌ path_exists lift
all_files_exist-ok env [] h = (true, refl)
all_files_exist-ok env (file ∷ files) h =
    let (b, e) = all_files_exist-ok env files (h ▹ stat file) in
    (not (is_absent (env h (stat file))) && b, rw e refl)

slept-after_stats : (files : List String) (h : History) → slept (after_stats h files) ≡ slept h
unfolding slept
slept-after_stats [] h = refl
slept-after_stats (file ∷ files) h = slept-after_stats files (h ▹ stat file)

err_is_end : (e : String) → ◌≢◌ {A = Outcome (Unit {0})} (err e) unfinished
err_is_end e = cc

ok_is_end : ◌≢◌ {A = Outcome (Unit {0})} (ok tt) unfinished
ok_is_end = cc

module _ (env : Env) (cmd files : List String) where
  -- The wait is over, and its last call has killed the command.
  abbrev pub EndsKilled : Outcome (Unit {0}) × History → Type 0
  EndsKilled r = (h : History) × (r.1 ≡ h ▹ kill cmd) × (r.0 ≢ unfinished)

  round_fired :
      (fuel : ℕ) (h : History)
      → is_good (env (h ▹ sleep 2) (timer 40)) ≡ true
      → kill_cmd_after_files_generation (suc fuel) cmd files env h
        ≡ (err "Kubeadm join kubelet-start killed after timeout", h ▹ sleep 2 ▹ timer 40 ▹ kill cmd)
  unfolding kill_cmd_after_files_generation ◌>>=◌ timer_fired ignore lift
  round_fired fuel h f = rw f refl

  round_exist :
      (fuel : ℕ) (h h' : History)
      → is_good (env (h ▹ sleep 2) (timer 40)) ≡ false
      → all_files_exist files env (h ▹ sleep 2 ▹ timer 40) ≡ (ok true, h')
      → kill_cmd_after_files_generation (suc fuel) cmd files env h ≡ (ok tt, h' ▹ kill cmd)
  unfolding kill_cmd_after_files_generation ◌>>=◌ timer_fired ignore lift
  round_exist fuel h h' f e = rw (f, e) refl

  round_again :
      (fuel : ℕ) (h h' : History)
      → is_good (env (h ▹ sleep 2) (timer 40)) ≡ false
      → all_files_exist files env (h ▹ sleep 2 ▹ timer 40) ≡ (ok false, h')
      → kill_cmd_after_files_generation (suc fuel) cmd files env h
        ≡ kill_cmd_after_files_generation fuel cmd files env h'
  unfolding kill_cmd_after_files_generation ◌>>=◌ timer_fired ignore lift
  round_again fuel h h' f e = rw (f, e) refl

  looked_at :
      (fuel : ℕ) (h : History) (b : Bool)
      → is_good (env (h ▹ sleep 2) (timer 40)) ≡ false
      → all_files_exist files env (h ▹ sleep 2 ▹ timer 40)
        ≡ (ok b, after_stats (h ▹ sleep 2 ▹ timer 40) files)
      → EndsKilled (
          kill_cmd_after_files_generation fuel cmd files env
            (after_stats (h ▹ sleep 2 ▹ timer 40) files))
      → EndsKilled (kill_cmd_after_files_generation (suc fuel) cmd files env h)
  looked_at fuel h true f e k =
      rw (round_exist fuel h (after_stats (h ▹ sleep 2 ▹ timer 40) files) f e)
        (after_stats (h ▹ sleep 2 ▹ timer 40) files, refl, ok_is_end)
  looked_at fuel h false f e k =
      rw (round_again fuel h (after_stats (h ▹ sleep 2 ▹ timer 40) files) f e) k

  -- If the timer of forty seconds is ready once the sleeps since its start add up to its time, the
  -- wait for the files ends, when it has a round for each two seconds that are left of them, and its
  -- last call killed the command, whether the files are there or not.
  pub kill_cmd_ends :
      (begun : History)
      → TimerStarted env begun 40
      → (fuel : ℕ) (h : History) → slept begun + 40 ≤ slept h + 2 * suc fuel
      → EndsKilled (kill_cmd_after_files_generation (suc fuel) cmd files env h)
  unfolding slept
  kill_cmd_ends begun fires zero h le =
      rw (round_fired 0 h (fires (h ▹ sleep 2) (omega arith)))
        (h ▹ sleep 2 ▹ timer 40, refl, err_is_end "Kubeadm join kubelet-start killed after timeout")
  kill_cmd_ends begun fires (suc fuel) h le =
      elim (Bool-cases (is_good (env (h ▹ sleep 2) (timer 40)))) [
        | inl f ↦ rw (round_fired (suc fuel) h f) (
          h ▹ sleep 2 ▹ timer 40,
          refl,
          err_is_end "Kubeadm join kubelet-start killed after timeout",
        )
        | inr f ↦
            let (b, e) = all_files_exist-ok env files (h ▹ sleep 2 ▹ timer 40) in
            looked_at (suc fuel) h b f e (
              kill_cmd_ends begun fires fuel (after_stats (h ▹ sleep 2 ▹ timer 40) files)
                (omega (arith, slept-after_stats files (h ▹ sleep 2 ▹ timer 40))))
      ]
