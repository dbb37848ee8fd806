-- ===== src/Deployer/Main.antt =====
-- cmd/deployer/main.go, `main` after its flags.
pub mod Laws
use knative_benchmark.Prelude.{
  Bool, true, false, List, [], ◌∷◌, Option, Result, ok, err, ◌>>=◌, Text, codes, text_eq,
  text_eq_iff, if◌then◌else◌, ℕ, ℤ, pos, negsuc, ◌≡◌, ◌↔◌, ◌⊎◌, inl, inr, refl, Bool-cases,
}
use knative_benchmark.Deployer.{
  Client, Panic, bad_length, no_config, no_client, deploy_trigger, delete_trigger,
  deploy_broker_scenario, deploy_services, delete_services, deploy_sequence, sequence_of,
  patch_trigger,
}
use knative_benchmark.Deployer.Patch.{
  patch_function_service, metric_params, patch_function_service-ok,
}

pub record DeployerFlags : Type 0 where
  pub action : Text
  pub name : Text
  pub image : Text
  pub amount : ℤ
  pub broker_name : Text
  pub metric : Text
  pub target : Text
  pub parallelism : ℤ

module _ {S : Type 0} (c : Client S) (canonical : Text → Option Text) (clock : ℕ → ℕ) where
  -- The cases after the one of the sequence.
  perform_other : DeployerFlags → S → Result Panic S
  unfolding deploy_broker_scenario patch_function_service deploy_trigger delete_trigger
      patch_trigger
  perform_other f s =
      if text_eq f.action (codes "broker")
      then ok (deploy_broker_scenario c f.broker_name f.name f.amount s)
      else if text_eq f.action (codes "patch")
      then (patch_function_service canonical c f.name (metric_params f.metric f.target) s >>= λ r.
          ok r.1)
      else if text_eq f.action (codes "trigger")
      then ok (deploy_trigger c f.name f.broker_name f.amount s)
      else if text_eq f.action (codes "delete-trigger")
      then ok (delete_trigger c f.name f.amount s)
      else if text_eq f.action (codes "patch-trigger")
      then ok (patch_trigger c f.name f.parallelism s)
      else ok s

  -- `switch *action`; errors are printed.
  unfoldable pub perform : (max_steps : ℕ) → DeployerFlags → S → Result Panic S
  unfolding perform_other deploy_services delete_services deploy_sequence
  perform max_steps f s =
      if text_eq f.action (codes "deploy")
      then ok (deploy_services c clock f.name f.image f.amount s)
      else if text_eq f.action (codes "delete")
      then ok (delete_services c clock f.name f.image f.amount s)
      else if text_eq f.action (codes "sequence")
      then deploy_sequence c max_steps f.name f.amount s
      else perform_other f s

  -- `main`: whether `GetConfig` and `client.New` succeed is not its own.
  unfoldable pub main :
      (max_steps : ℕ) (has_config has_client : Bool) → DeployerFlags → S → Result Panic S
  unfolding perform
  main max_steps has_config has_client f s =
      if has_config
      then (if has_client then perform max_steps f s else err no_client)
      else err no_config
