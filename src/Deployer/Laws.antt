-- ===== src/Deployer/Laws.antt =====
-- cmd/deployer/main.go: which objects exist after the loops that create and delete.
use knative_benchmark.Prelude.{
  text_ne, ℕ, zero, suc, ◌≤◌, ◌≡◌, ◌≢◌, refl, ◌∙◌, Bool, true, false, not, ◌&&◌, ◌||◌, [], ◌∷◌,
  ◌++◌, Text, codes, text_eq, Bool-cases, inl, inr, Dict, lookup, insert, lookup-insert, some, ℤ,
  arith,
}
use knative_benchmark.Decimal.{max_u64}
use knative_benchmark.Decimal.Laws.{decimal_injective}
use knative_benchmark.Deployer.Objects.{
  ObjectKey, same_key, functions, Object, trigger, service, key_of, trigger_name, service_name,
  eventing_key, eventing_trigger, create_knative_service, class_key, metric_key, utilization_key,
  target_key,
}
use knative_benchmark.Deployer.{
  Client, repeat, rounds_of, deploy_trigger, delete_trigger, deploy_services, delete_services,
  text_or_empty, patch_annotations, set_target,
}

-- A cluster that keeps objects by their keys and has no failures but those of objects that exist
-- already and of objects that do not: an object exists after `create` if it did before or is the
-- created one, and after `delete` if it did before and is not the deleted one.
pub record IsReliable {S : Type 0} (c : Client S) (has : ObjectKey → S → Bool) : Type 0 where
  pub after_create :
      (o : Object) (s : S) (k : ObjectKey)
      → has k (c.create o s).1 ≡ (has k s || same_key (key_of o) k)
  pub after_delete :
      (j : ObjectKey) (s : S) (k : ObjectKey)
      → has k (c.delete j s).1 ≡ (has k s && not (same_key j k))

-- `k` is the key of a round from `i` on.
abbrev pub among : (ℕ → ObjectKey) → ObjectKey → ℕ → ℕ → Bool
among keys k i zero = false
among keys k i (suc n) = same_key (keys i) k || among keys k (suc i) n

-- The key of the service of a round.
abbrev pub function_key : Text → ℕ → ObjectKey
function_key name i = record {
  kind = codes "Service";
  namespace = functions;
  name = service_name name i;
}

and_false : (a b : Bool) → (a && false && b) ≡ false
and_false true b = refl
and_false false b = refl

other_namespace :
    (name : Text) (k : ObjectKey) (i : ℕ)
    → k.namespace ≡ functions
    → same_key (eventing_key name i) k ≡ false
unfolding same_key eventing_key
other_namespace name k i e = simp e (and_false (text_eq (codes "Trigger") k.kind) _)

among-functions :
    (name : Text) (k : ObjectKey)
    → k.namespace ≡ functions
    → (i n : ℕ) → among (eventing_key name) k i n ≡ false
among-functions name k e i zero = refl
among-functions name k e i (suc n) =
    rw (other_namespace name k i e) (among-functions name k e (suc i) n)

module _ {S : Type 0} (c : Client S) (has : ObjectKey → S → Bool)
    (reliable : IsReliable c has) where
  repeat-create :
      (objects : ℕ → Object) (i n : ℕ) (s : S) (k : ObjectKey)
      → has k (repeat (λ j s'. (c.create (objects j) s').1) i n s)
        ≡ (has k s || among (λ j. key_of (objects j)) k i n)
  unfolding repeat
  repeat-create objects i zero s k = ground arith
  repeat-create objects i (suc n) s k = ground (
    arith,
    repeat-create objects (suc i) n (c.create (objects i) s).1 k,
    reliable.after_create (objects i) s k,
  )

  repeat-delete :
      (keys : ℕ → ObjectKey) (i n : ℕ) (s : S) (k : ObjectKey)
      → has k (repeat (λ j s'. (c.delete (keys j) s').1) i n s)
        ≡ (has k s && not (among keys k i n))
  unfolding repeat
  repeat-delete keys i zero s k = ground arith
  repeat-delete keys i (suc n) s k = ground (
    arith,
    repeat-delete keys (suc i) n (c.delete (keys i) s).1 k,
    reliable.after_delete (keys i) s k,
  )

  -- On a reliable cluster, creating triggers and then deleting as many of the same name leaves just
  -- the objects that were there before and are none of these triggers.
  pub delete_trigger-deploy_trigger :
      (name broker_name : Text) (amount : ℤ) (s : S) (k : ObjectKey)
      → has k (delete_trigger c name amount (deploy_trigger c name broker_name amount s))
        ≡ (has k s && not (among (eventing_key name) k 0 (rounds_of amount)))
  unfolding delete_trigger deploy_trigger key_of eventing_key
  delete_trigger-deploy_trigger name broker_name amount s k =
      let n = rounds_of amount in
      let created = repeat-create (λ i. trigger (eventing_trigger name broker_name i)) 0 n s k in
      ground (
        arith,
        created,
        repeat-delete (eventing_key name) 0 n (deploy_trigger c name broker_name amount s) k,
      )

  -- On a reliable cluster, deploying services and then deleting as many of the same name, at
  -- whatever times and with whatever images, leaves just the objects that were there before and are
  -- none of these services.
  pub delete_services-deploy_services :
      (clock later : ℕ → ℕ) (name image other_image : Text) (amount : ℤ) (s : S) (k : ObjectKey)
      → has k (
          delete_services c later name other_image amount
            (deploy_services c clock name image amount s))
        ≡ (has k s && not (among (function_key name) k 0 (rounds_of amount)))
  unfolding delete_services deploy_services key_of create_knative_service
  delete_services-deploy_services clock later name image other_image amount s k =
      let n = rounds_of amount in
      let created =
        repeat-create (λ i. service (create_knative_service (clock i) (service_name name i) image))
          0 n s k in
      ground (
        arith,
        created,
        repeat-delete (function_key name) 0 n (deploy_services c clock name image amount s) k,
      )

  -- On a reliable cluster, deleting triggers by any name leaves every object of the namespace
  -- `functions`.
  delete_trigger-functions :
      (name : Text) (amount : ℤ) (s : S) (k : ObjectKey)
      → k.namespace ≡ functions
      → has k (delete_trigger c name amount s) ≡ has k s
  unfolding delete_trigger
  delete_trigger-functions name amount s k e = ground (
    arith,
    repeat-delete (eventing_key name) 0 (rounds_of amount) s k,
    among-functions name k e 0 (rounds_of amount),
  )

append_injective : (p s t : Text) → p ++ s ≡ p ++ t → s ≡ t
append_injective [] s t e = e
append_injective (c ∷ p) s t e = append_injective p s t (cc e)

-- The triggers and the services of different rounds have different keys.
same_key-eventing_key :
    (name : Text) (i j : ℕ)
    → i ≤ max_u64
    → j ≤ max_u64
    → i ≢ j
    → (same_key (eventing_key name i) (eventing_key name j) ≡ false)
      × (same_key (function_key name i) (function_key name j) ≡ false)
unfolding same_key eventing_key trigger_name service_name
same_key-eventing_key name i j hi hj other = (
  text_ne _ _ (λ e. other (
      decimal_injective i j hi hj
        (append_injective (codes "-trigger-") _ _ (append_injective name _ _ e)))),
  text_ne _ _ (λ e. other (
      decimal_injective i j hi hj
        (append_injective (codes "-") _ _ (append_injective name _ _ e)))),
)

lookup-set_target :
    (k metric target : Text) (m : Dict Text)
    → text_eq metric (codes "cpu") ≡ false
    → text_eq metric (codes "memory") ≡ false
    → text_eq utilization_key k ≡ false
    → text_eq target_key k ≡ false
    → lookup k (set_target metric target m) ≡ lookup k m
unfolding set_target
lookup-set_target k metric target m not_cpu not_memory no_utilization no_target =
    elim (Bool-cases (text_eq metric (codes "concurrency"))) [
      | inl is_concurrency ↦ rw (is_concurrency, lookup-insert, no_utilization) refl
      | inr is_other ↦ elim (Bool-cases (text_eq metric (codes "rps"))) [
        | inl is_rps ↦ rw (is_other, is_rps, lookup-insert, no_target) refl
        | inr other ↦ rw (is_other, other, not_cpu, not_memory) refl
      ]
    ]

-- Patching a service to a metric that is neither `cpu` nor `memory` sets the metric, and leaves the
-- class of the autoscaler as it was, also where an earlier patch to `cpu` or `memory` has set it.
pub patch_annotations-class :
    (params m : Dict Text) (metric : Text)
    → lookup (codes "metric") params ≡ some metric
    → text_eq metric (codes "cpu") ≡ false
    → text_eq metric (codes "memory") ≡ false
    → (lookup metric_key (patch_annotations params m) ≡ some metric)
      × (lookup class_key (patch_annotations params m) ≡ lookup class_key m)
unfolding patch_annotations
patch_annotations-class params m metric e not_cpu not_memory =
    let target = text_or_empty (lookup (codes "target") params) in
    let keeps = λ (k : Text).
      lookup-set_target k metric target (insert metric_key metric m) not_cpu not_memory in
    rw e (
      keeps metric_key refl refl ∙ rw lookup-insert refl,
      keeps class_key refl refl ∙ rw lookup-insert refl,
    )
