-- ===== src/Bottlerocket/Waiters/Timeouts.antt =====
-- The waits end: a timer is ready when the sleeps since its start add up to its time.
use eks_anywhere_build_tooli.Prelude.{
  ℕ, zero, suc, ◌+◌, ◌*◌, ◌≤◌, String, ◌≡◌, refl, ◌≢◌, inl, inr, true, false, Option, none, some,
  [], ◌∷◌, arith, ◌==◌, nat_beq_iff, nat_eq, string_eq, Bool-cases,
}
use eks_anywhere_build_tooli.Prelude.System.{
  History, ◌▹◌, Env, ◌>>=◌, lift, ignore, is_good, timer_fired, answered, http_get, sleep, timer,
  Answer, good, absent, bad,
}
use eks_anywhere_build_tooli.Prelude.Outcome.{ok, err, unfinished}
use eks_anywhere_build_tooli.Bottlerocket.Host.{Machine}
use eks_anywhere_build_tooli.Bottlerocket.Waiters.{on_response, wait_for_200}

-- The seconds that have been slept.
unfoldable pub slept : History → ℕ
slept [] = 0
slept (sleep seconds ∷ h) = let rest = slept h in rest + seconds
slept (c ∷ h) = slept h

-- A timer of `t` seconds that was started at `h`, `time.After`.
abbrev pub TimerStarted : Env → History → ℕ → Type 0
TimerStarted env h t = (h' : History) → slept h + t ≤ slept h' → is_good (env h' (timer t)) ≡ true

-- The ways in which a try can end.
data Try (m : Machine) (a : Answer) : Type 0 where
  answered_200 :
      (text : String)
      → a ≡ good text
      → on_response m a ≡ ok true
      → (m.decode_response text).status_code ≡ 200
      → Try m a
  again : on_response m a ≡ ok false → Try m a
  failed : (e : String) → on_response m a ≡ err e → Try m a

read-Try :
    (m : Machine) (text : String) (body : Option String)
    → (m.decode_response text).body ≡ body
    → Try m (good text)
read-Try m text none e = failed "Error reading body from response of http get call" (rw e refl)
read-Try m text (some body) e = elim (Bool-cases ((m.decode_response text).status_code == 200)) [
  | inl q ↦
      answered_200 text refl (rw (e, q) refl)
        ((nat_beq_iff (m.decode_response text).status_code 200).0 q)
  | inr q ↦ again (rw (e, q) refl)
]

tried : (m : Machine) (a : Answer) → Try m a
tried m (good text) = read-Try m text (m.decode_response text).body refl
tried m absent = again refl
tried m (bad e) = again refl

module _ (m : Machine) (env : Env) (url : String) (t fuel : ℕ) (h : History) where
  step_fired :
      is_good (env h (timer t)) ≡ true
      → wait_for_200 m (suc fuel) url t env h
        ≡ (err "Timeout occurred while waiting for 200 OK", h ▹ timer t)
  unfolding wait_for_200 ◌>>=◌ timer_fired lift
  step_fired e = rw e refl

  step_200 :
      is_good (env h (timer t)) ≡ false
      → on_response m (env (h ▹ timer t) (http_get url)) ≡ ok true
      → wait_for_200 m (suc fuel) url t env h ≡ (ok tt, h ▹ timer t ▹ http_get url)
  unfolding wait_for_200 ◌>>=◌ timer_fired lift answered
  step_200 e r = rw (e, r) refl

  step_again :
      is_good (env h (timer t)) ≡ false
      → on_response m (env (h ▹ timer t) (http_get url)) ≡ ok false
      → wait_for_200 m (suc fuel) url t env h
        ≡ wait_for_200 m fuel url t env (h ▹ timer t ▹ http_get url ▹ sleep 10)
  unfolding wait_for_200 ◌>>=◌ timer_fired lift answered ignore
  step_again e r = rw (e, r) refl

  step_failed :
      (x : String)
      → is_good (env h (timer t)) ≡ false
      → on_response m (env (h ▹ timer t) (http_get url)) ≡ err x
      → wait_for_200 m (suc fuel) url t env h ≡ (err x, h ▹ timer t ▹ http_get url)
  unfolding wait_for_200 ◌>>=◌ timer_fired lift answered
  step_failed x e r = rw (e, r) refl

-- If the timer of `t` seconds is ready once the sleeps since its start add up to its time, a wait for
-- a 200 ends, when it has a round for each ten seconds that are left of them and one more.
pub wait_for_200_ends :
    (m : Machine) (env : Env) (url : String) (t : ℕ) (begun : History)
    → TimerStarted env begun t
    → (fuel : ℕ) (h : History) → slept begun + t ≤ slept h + 10 * fuel
    → (wait_for_200 m (suc fuel) url t env h).0 ≢ unfinished
unfolding slept
wait_for_200_ends m env url t begun fires zero h e = elim (Bool-cases (is_good (env h (timer t)))) [
  | inl f ↦ rw (step_fired m env url t 0 h f) cc
  | inr f ↦ absurd (ground (arith, fires h))
]
wait_for_200_ends m env url t begun fires (suc fuel) h e =
    elim (Bool-cases (is_good (env h (timer t)))) [
      | inl f ↦ rw (step_fired m env url t (suc fuel) h f) cc
      | inr f ↦ elim (tried m (env (h ▹ timer t) (http_get url))) [
        | answered_200 text a r q ↦ rw (step_200 m env url t (suc fuel) h f r) cc
        | failed x r ↦ rw (step_failed m env url t (suc fuel) h x f r) cc
        | again r ↦ rw (step_again m env url t (suc fuel) h f r) (
            wait_for_200_ends m env url t begun fires fuel (h ▹ timer t ▹ http_get url ▹ sleep 10)
              (omega arith))
      ]
    ]

-- The last call of a history is a request that was answered by a 200.
abbrev pub EndsWith200 : Machine → Env → String → History → Type 0
EndsWith200 m env url h =
    (h' : History) × (text : String) × (h ≡ h' ▹ http_get url)
    × (env h' (http_get url) ≡ good text)
    × ((m.decode_response text).status_code ≡ 200)

out_of_fuel :
    (m : Machine) (env : Env) (url : String) (t : ℕ) (h : History)
    → (wait_for_200 m 0 url t env h).0 ≢ ok tt
unfolding wait_for_200 lift
out_of_fuel m env url t h = cc

-- If a wait for a 200 succeeds, its last call was a request that was answered by one.
pub wait_for_200_ok :
    (m : Machine) (env : Env) (url : String) (t fuel : ℕ) (h : History)
    → (wait_for_200 m fuel url t env h).0 ≡ ok tt
    → EndsWith200 m env url (wait_for_200 m fuel url t env h).1
wait_for_200_ok m env url t = ok_at
  where
    ok_at :
        (fuel : ℕ) (h : History)
        → (wait_for_200 m fuel url t env h).0 ≡ ok tt
        → EndsWith200 m env url (wait_for_200 m fuel url t env h).1
    ok_at zero h = λ e. absurd (out_of_fuel m env url t h e)
    ok_at (suc fuel) h = elim (Bool-cases (is_good (env h (timer t)))) [
      | inl f ↦ rw (step_fired m env url t fuel h f) (λ e. absurd cc)
      | inr f ↦ elim (tried m (env (h ▹ timer t) (http_get url))) [
        | answered_200 text a r q ↦
            rw (step_200 m env url t fuel h f r) (λ e. (h ▹ timer t, text, refl, a, q))
        | failed x r ↦ rw (step_failed m env url t fuel h x f r) (λ e. absurd cc)
        | again r ↦
            rw (step_again m env url t fuel h f r)
              (ok_at fuel (h ▹ timer t ▹ http_get url ▹ sleep 10))
      ]
    ]
