-- ===== src/TrainingPipeline.antt =====
-- src/training/run_training_pipeline.py: the offline training, one command after the other. The state is the list
-- of the commands that ran; the shell is a parameter.
use credit_scoring_mlops.Prelude.{
  zero, suc, String, ◌≡◌, ◌≢◌, refl, ◌∙◌, sym, ap, List, [], ◌∷◌, ◌++◌, map, arith,
}
use mathlib.Core.List.{append-nil, append_assoc}
use credit_scoring_mlops.Prelude.Int.{ℤ, pos, negsuc}

-- A step with its command
abbrev pub Step : Type 0
Step = String × String

-- COMMANDS
abbrev pub commands : List Step
commands =
    ("Validate raw data", "python -m src.data.validate_data")
    ∷ ("Build features", "python -m src.features.build_features")
    ∷ ("Train CatBoost", "python -m src.training.train_catboost")
    ∷ ("Train LightGBM", "python -m src.training.train_lightgbm")
    ∷ ("Train XGBoost", "python -m src.training.train_xgboost")
    ∷ ("Select best model", "python -m src.training.select_best_model")
    ∷ []

-- How a step ends: it returns, or `sys.exit` ends the process with the return code
pub data Ended : Type 0 where
  completed : Ended
  exited : ℤ → Ended

unfoldable pub ended_with : ℤ → Ended
ended_with (pos zero) = completed
ended_with (pos (suc n)) = exited (pos (suc n))
ended_with (negsuc n) = exited (negsuc n)

-- `subprocess.run(command, shell=True).returncode` after the commands before
module _ (shell : List String → String → ℤ) where
  -- `run_command`
  unfoldable pub run_command : Step → List String → Ended × List String
  unfolding ended_with
  run_command (name, command) ran = (ended_with (shell ran command), ran ++ command ∷ [])

  -- the loop of `main`
  unfoldable pub run_steps : List Step → List String → Ended × List String
  unfolding run_command
  run_steps [] ran = (completed, ran)
  run_steps (step ∷ steps) ran = elim (run_command step ran).0 [
    | completed ↦ run_steps steps (run_command step ran).1
    | exited code ↦ (exited code, (run_command step ran).1)
  ]

  -- `main`
  unfoldable pub run_pipeline : Ended × List String
  unfolding run_steps
  run_pipeline = run_steps commands []

  -- The commands of a list succeed one after the other.
  unfoldable pub Succeed : List Step → List String → Type 0
  Succeed [] ran = Unit
  Succeed ((name, command) ∷ steps) ran =
      (shell ran command ≡ pos 0) × Succeed steps (ran ++ command ∷ [])

  abbrev pub commands_of : List Step → List String
  commands_of steps = map (λ (s : Step). s.1) steps

  -- How a list of steps may end: all succeeded and ran, or the first that fails ended the process with its
  -- return code, which is not 0, and no later one ran.
  pub data Runs (steps : List Step) (ran : List String) : Ended × List String → Type 0 where
    all :
        (ran' : List String)
        → Succeed steps ran
        → ran' ≡ ran ++ commands_of steps
        → Runs steps ran (completed, ran')
    stopped :
        (before after : List Step) (name command : String) (code : ℤ) (ran' : List String)
        → steps ≡ before ++ (name, command) ∷ after
        → Succeed before ran
        → shell (ran ++ commands_of before) command ≡ code
        → code ≢ pos 0
        → ran' ≡ ran ++ (commands_of before ++ command ∷ [])
        → Runs steps ran (exited code, ran')

  succeeded :
      (name command : String) (steps : List Step) (ran : List String) (o : Ended × List String)
      → shell ran command ≡ pos 0
      → Runs steps (ran ++ command ∷ []) o
      → Runs ((name, command) ∷ steps) ran o
  unfolding Succeed
  succeeded name command steps ran _ zero_code (all ran' good e) =
      all ran' (zero_code, good) (e ∙ append_assoc ran (command ∷ []) (commands_of steps))
  succeeded name command steps ran _ zero_code
        (stopped before after n c code ran' e good failed nonzero e') =
      stopped ((name, command) ∷ before) after n c code ran' (ap (λ rest. (name, command) ∷ rest) e)
        (zero_code, good)
        (ap (λ before_ran. shell before_ran c)
            (sym (append_assoc ran (command ∷ []) (commands_of before)))
          ∙ failed)
        nonzero (e' ∙ append_assoc ran (command ∷ []) (commands_of before ++ c ∷ []))

  failed_at_once :
      (name command : String) (steps : List Step) (ran : List String) (code : ℤ)
      → shell ran command ≡ code
      → code ≢ pos 0
      → Runs ((name, command) ∷ steps) ran (exited code, ran ++ command ∷ [])
  unfolding Succeed
  failed_at_once name command steps ran code e nonzero =
      stopped [] steps name command code (ran ++ command ∷ []) refl tt
        (ap (λ before_ran. shell before_ran command) (append-nil ran) ∙ e) nonzero refl

  one_step :
      (name command : String) (steps : List Step) (ran : List String) (code : ℤ)
      → shell ran command ≡ code
      → Runs steps (ran ++ command ∷ []) (run_steps steps (ran ++ command ∷ []))
      → Runs ((name, command) ∷ steps) ran (elim (ended_with code) as (λ _. Ended × List String) [
        | completed ↦ run_steps steps (ran ++ command ∷ [])
        | exited c ↦ (exited c, ran ++ command ∷ [])
      ])
  unfolding ended_with
  one_step name command steps ran (pos zero) e rest = succeeded name command steps ran _ e rest
  one_step name command steps ran (pos (suc n)) e rest =
      failed_at_once name command steps ran (pos (suc n)) e (λ p. absurd (ground (arith, p)))
  one_step name command steps ran (negsuc n) e rest =
      failed_at_once name command steps ran (negsuc n) e (λ p. absurd (ground (arith, p)))

  -- Whatever the steps, they run in their order up to the first that fails: if none fails all of them ran, else the process
  -- exits with the code of the one that failed, which is not 0, and what comes after it does not run.
  pub run_steps-Runs :
      (steps : List Step) (ran : List String) → Runs steps ran (run_steps steps ran)
  unfolding run_steps run_command Succeed
  run_steps-Runs [] ran = all ran tt (sym (append-nil ran))
  run_steps-Runs ((name, command) ∷ steps) ran =
      one_step name command steps ran (shell ran command) refl
        (run_steps-Runs steps (ran ++ command ∷ []))
