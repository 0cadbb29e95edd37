-- ===== src/Etcdadm/Phases.antt =====
-- The phases of an etcdadm command, in order.
use eks_anywhere_build_tooli.Prelude.{
  String, ◌<>◌, ◌≡◌, refl, ◌∙◌, inl, inr, true, List, [], ◌∷◌, ◌++◌,
}
use eks_anywhere_build_tooli.Prelude.System.{
  History, ◌▹◌, Env, ◌>>=◌, lift, wrapped, run, is_good, for_each, Answer-cases, Call, exec, bad,
}
use eks_anywhere_build_tooli.Prelude.System.Steps.{bind-ok, wrapped-ok, run-ok}
use eks_anywhere_build_tooli.Prelude.Outcome.{ok, err}
use eks_anywhere_build_tooli.Etcdadm.{run_phases}

module _ (command : String) (flags args : List String) where
  -- What runs a phase: the binary, the command, the phase, and its arguments before its flags
  abbrev pub phase_call : String → Call
  phase_call phase = exec ("/opt/bin/etcdadm" ∷ command ∷ "phase" ∷ phase ∷ (args ++ flags))

  -- The history behind these phases.
  abbrev pub after_phases : History → List String → History
  after_phases h [] = h
  after_phases h (phase ∷ phases) = after_phases (h ▹ phase_call phase) phases

  -- Each phase succeeds behind those before it.
  abbrev pub Succeed : Env → History → List String → Type 0
  Succeed env h [] = Unit {0}
  Succeed env h (phase ∷ phases) =
      (is_good (env h (phase_call phase)) ≡ true) × Succeed env (h ▹ phase_call phase) phases

  abbrev pub phase_error : String → String → String
  phase_error phase e =
      ("error running etcdadm phase '" <> command <> " " <> phase <> "'") <> ": " <> e

  phase_good :
      (env : Env) (h : History) (phase : String) (phases : List String)
      → is_good (env h (phase_call phase)) ≡ true
      → run_phases command (phase ∷ phases) flags args env h
        ≡ run_phases command phases flags args env (h ▹ phase_call phase)
  unfolding run_phases for_each ◌>>=◌ wrapped run
  phase_good env h phase phases = elim (Answer-cases (env h (phase_call phase))) [
    | inl (t, a) ↦ rw a (λ _. refl)
    | inr (inl a) ↦ rw a cc
    | inr (inr (t, a)) ↦ rw a cc
  ]

  phase_bad :
      (env : Env) (h : History) (phase e : String) (phases : List String)
      → env h (phase_call phase) ≡ bad e
      → run_phases command (phase ∷ phases) flags args env h
        ≡ (err (phase_error phase e), h ▹ phase_call phase)
  unfolding run_phases for_each ◌>>=◌ wrapped run
  phase_bad env h phase e phases a = rw a refl

  -- Phases that end without an error have succeeded, and are run in order, each once.
  pub run_phases-Succeed :
      (env : Env) (h : History) (phases : List String) {u : Unit {0}}
      → (run_phases command phases flags args env h).0 ≡ ok u
      → Succeed env h phases
        × ((run_phases command phases flags args env h).1 ≡ after_phases h phases)
  unfolding run_phases for_each lift wrapped run
  run_phases-Succeed env h [] e = (tt, refl)
  run_phases-Succeed env h (phase ∷ phases) e =
      let (_, first, rest, same) = bind-ok env _ _ h e in
      let (succeed, after) = run_phases-Succeed env (h ▹ phase_call phase) phases rest in
      (
        (
          run-ok env _ h (
              wrapped-ok env ("error running etcdadm phase '" <> command <> " " <> phase <> "'")
                (run (phase_call phase)) h first),
          succeed,
        ),
        same ∙ after,
      )

  -- If a phase fails when those before it have succeeded, its error is returned, and the phases behind
  -- it are not run.
  pub run_phases_fails :
      (env : Env) (h : History) (before : List String) (phase e : String) (after : List String)
      → Succeed env h before
      → env (after_phases h before) (phase_call phase) ≡ bad e
      → run_phases command (before ++ (phase ∷ after)) flags args env h
        ≡ (err (phase_error phase e), after_phases h before ▹ phase_call phase)
  run_phases_fails env h [] phase e after s f = phase_bad env h phase e after f
  run_phases_fails env h (p ∷ before) phase e after s f =
      phase_good env h p (before ++ (phase ∷ after)) s.0
      ∙ run_phases_fails env (h ▹ phase_call p) before phase e after s.1 f
