-- ===== src/Deployer/Main/Laws.antt =====
-- cmd/deployer/main.go: where `main` panics.
use knative_benchmark.Prelude.{
  ◌<◌, leb, arith, Bool, true, false, Option, Result, ok, err, ◌>>=◌, Text, codes, text_eq,
  text_eq_iff, if◌then◌else◌, ℕ, ℤ, pos, negsuc, ◌≡◌, ◌↔◌, ◌⊎◌, inl, inr, refl, Bool-cases,
}
use knative_benchmark.Deployer.{
  leb, Client, Panic, bad_length, no_config, no_client, deploy_trigger, delete_trigger,
  deploy_broker_scenario, deploy_services, delete_services, deploy_sequence, sequence_of,
  patch_trigger,
}
use knative_benchmark.Deployer.Patch.{
  patch_function_service, metric_params, patch_function_service-ok,
}
use knative_benchmark.Deployer.Main.{main, DeployerFlags, perform, perform_other}

abbrev pub IsPanic : {A : Type 0} → Result Panic A → Type 0
IsPanic r = (p : Panic) × (r ≡ err p)

-- `make` cannot make a slice of this length.
abbrev pub IsBadLength : (max_steps : ℕ) → ℤ → Type 0
IsBadLength max_steps amount =
    ((n : ℕ) × (amount ≡ negsuc n)) ⊎ ((n : ℕ) × (amount ≡ pos n) × (max_steps < n))

ok-IsPanic : {S : Type 0} (s : S) → IsPanic (ok s) → ⊥
ok-IsPanic s (p, e) = cc

choice-IsPanic :
    {S : Type 0} (b : Bool) (s : S) (r : Result Panic S)
    → IsPanic (if b then ok s else r)
    → IsPanic r
choice-IsPanic true s r (p, e) = cc
choice-IsPanic false s r h = h

module _ {S : Type 0} (c : Client S) (canonical : Text → Option Text) (clock : ℕ → ℕ) where
  deploy_sequence-IsPanic :
      (max_steps : ℕ) (name : Text) (amount : ℤ) (s : S)
      → IsPanic (deploy_sequence c max_steps name amount s)
      → IsBadLength max_steps amount
  unfolding deploy_sequence sequence_of
  deploy_sequence-IsPanic max_steps name (pos n) s (p, e) = elim (Bool-cases (leb n max_steps)) [
    | inl fits ↦ cc (rw fits at e)
    | inr large ↦ inr (n, refl, ground arith)
  ]
  deploy_sequence-IsPanic max_steps name (negsuc n) s h = inl (n, refl)

  deploy_sequence-bad :
      (max_steps : ℕ) (name : Text) (amount : ℤ) (s : S)
      → IsBadLength max_steps amount
      → IsPanic (deploy_sequence c max_steps name amount s)
  unfolding deploy_sequence sequence_of
  deploy_sequence-bad max_steps name amount s (inl (n, negative)) = (bad_length, rw negative refl)
  deploy_sequence-bad max_steps name amount s (inr (n, positive, large)) =
      let too_large : leb n max_steps ≡ false = ground arith in
      (bad_length, rw (positive, too_large) refl)

  sequence-IsPanic :
      (max_steps : ℕ) (f : DeployerFlags) (s : S) (r : Result Panic S)
      → IsPanic (
          if text_eq f.action (codes "sequence")
          then deploy_sequence c max_steps f.name f.amount s
          else r)
      → ((f.action ≡ codes "sequence") × IsBadLength max_steps f.amount) ⊎ IsPanic r
  sequence-IsPanic max_steps f s r h = elim (Bool-cases (text_eq f.action (codes "sequence"))) [
    | inl e ↦ inl (
      (text_eq_iff f.action (codes "sequence")).0 e,
      deploy_sequence-IsPanic max_steps f.name f.amount s (rw e at h),
    )
    | inr e ↦ inr (rw e at h)
  ]

  patch-IsPanic :
      (f : DeployerFlags) (b : Bool) (s : S) (r : Result Panic S)
      → IsPanic (
          if b
          then (patch_function_service canonical c f.name (metric_params f.metric f.target) s
              >>= λ t. ok t.1)
          else r)
      → IsPanic r
  patch-IsPanic f true s r (p, e) =
      let (t, fine) = patch_function_service-ok canonical c f.name f.metric f.target s in
      cc (rw fine at e)
  patch-IsPanic f false s r h = h

  perform_other-IsPanic :
      (f : DeployerFlags) (s : S) → IsPanic (perform_other c canonical clock f s) → ⊥
  unfolding perform_other
  perform_other-IsPanic f s h =
      let patched : Result Panic S =
        patch_function_service canonical c f.name (metric_params f.metric f.target) s >>= λ r.
        ok r.1 in
      let deletes : Result Panic S =
        if text_eq f.action (codes "delete-trigger")
        then ok (delete_trigger c f.name f.amount s)
        else if text_eq f.action (codes "patch-trigger")
        then ok (patch_trigger c f.name f.parallelism s)
        else ok s in
      let triggers : Result Panic S =
        if text_eq f.action (codes "trigger")
        then ok (deploy_trigger c f.name f.broker_name f.amount s)
        else deletes in
      let after_broker =
        choice-IsPanic (text_eq f.action (codes "broker"))
          (deploy_broker_scenario c f.broker_name f.name f.amount s)
          (if text_eq f.action (codes "patch") then patched else triggers) h in
      let after_patch =
        patch-IsPanic f (text_eq f.action (codes "patch")) s triggers after_broker in
      let patches : Result Panic S =
        if text_eq f.action (codes "patch-trigger")
        then ok (patch_trigger c f.name f.parallelism s)
        else ok s in
      let after_trigger =
        choice-IsPanic (text_eq f.action (codes "trigger"))
          (deploy_trigger c f.name f.broker_name f.amount s) deletes after_patch in
      let after_delete =
        choice-IsPanic (text_eq f.action (codes "delete-trigger"))
          (delete_trigger c f.name f.amount s) patches after_trigger in
      ok-IsPanic s (
        choice-IsPanic (text_eq f.action (codes "patch-trigger"))
          (patch_trigger c f.name f.parallelism s) (ok s) after_delete)

  perform-IsPanic :
      (max_steps : ℕ) (f : DeployerFlags) (s : S)
      → IsPanic (perform c canonical clock max_steps f s)
        ↔ ((f.action ≡ codes "sequence") × IsBadLength max_steps f.amount)
  unfolding perform
  perform-IsPanic max_steps f s = (
    λ h.
        let rest = perform_other c canonical clock f s in
        let sequences : Result Panic S =
          if text_eq f.action (codes "sequence")
          then deploy_sequence c max_steps f.name f.amount s
          else rest in
        let deletes : Result Panic S =
          if text_eq f.action (codes "delete")
          then ok (delete_services c clock f.name f.image f.amount s)
          else sequences in
        let after_deploy =
          choice-IsPanic (text_eq f.action (codes "deploy"))
            (deploy_services c clock f.name f.image f.amount s) deletes h in
        let after_delete =
          choice-IsPanic (text_eq f.action (codes "delete"))
            (delete_services c clock f.name f.image f.amount s) sequences after_deploy in
        elim (sequence-IsPanic max_steps f s rest after_delete) [
          | inl found ↦ found
          | inr other ↦ absurd (perform_other-IsPanic f s other)
        ],
    λ (is_sequence, bad).
        let (p, e) = deploy_sequence-bad max_steps f.name f.amount s bad in (p, rw is_sequence e),
  )

  -- main, after its flags, panics just when there is no configuration for the cluster or no client
  -- for it, or it is to deploy a sequence of a number of steps that is negative or above the largest
  -- length of a slice, whatever the cluster answers.
  pub main-IsPanic :
      (max_steps : ℕ) (has_config has_client : Bool) (f : DeployerFlags) (s : S)
      → IsPanic (main c canonical clock max_steps has_config has_client f s) ↔ (
          (has_config ≡ false)
          ⊎ ((has_client ≡ false)
              ⊎ ((f.action ≡ codes "sequence") × IsBadLength max_steps f.amount)))
  unfolding main
  main-IsPanic max_steps false has_client f s = (λ _. inl refl, λ _. (no_config, refl))
  main-IsPanic max_steps true false f s = (λ _. inr (inl refl), λ _. (no_client, refl))
  main-IsPanic max_steps true true f s =
      let performs = perform-IsPanic max_steps f s in
      (
        λ h. inr (inr (performs.0 h)),
        λ h. elim h [ inl e ↦ cc | inr h' ↦ elim h' [ inl e ↦ cc | inr bad ↦ performs.1 bad ] ],
      )
