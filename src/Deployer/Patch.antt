-- ===== src/Deployer/Patch.antt =====
-- cmd/deployer/main.go, `patchFunctionService`.
use knative_benchmark.Prelude.{
  ◌≡◌, refl, Bool, false, [], ◌∷◌, Option, none, some, Result, ok, err, ◌>>=◌, Text, codes, Dict,
  insert, lookup,
}
use knative_benchmark.Deployer.Objects.{functions, Service, service}
use knative_benchmark.Deployer.{Client, Panic, nil_map, bad_quantity, patch_annotations}

abbrev or_bad : Option Text → Result Panic Text
or_bad none = err bad_quantity
or_bad (some q) = ok q

abbrev or_nil : Option (Dict Text) → Result Panic (Dict Text)
or_nil none = err nil_map
or_nil (some m) = ok m

-- The parameters that main gives.
abbrev pub metric_params : Text → Text → Dict Text
metric_params metric target = (codes "metric", metric) ∷ (codes "target", target) ∷ []

-- `canonical` is the canonical form of a quantity, if the text is one.
module _ (canonical : Text → Option Text) where
  -- `if value, ok := params[…]; ok { resources[key] = resource.MustParse(value) }`
  unfoldable pub set_resource :
      Text → Option Text → Option (Dict Text) → Result Panic (Option (Dict Text))
  set_resource key none resources = ok resources
  set_resource key (some value) resources = do
    q ← or_bad (canonical value)
    m ← or_nil resources
    ok (some (insert key q m))

  unfoldable pub patch_resources : Dict Text → Service → Result Panic Service
  unfolding set_resource
  patch_resources params v = do
    cpu_limited ← set_resource (codes "cpu") (lookup (codes "cpu-limit") params) v.limits
    limits ← set_resource (codes "memory") (lookup (codes "memory-limit") params) cpu_limited
    cpu_requested ← set_resource (codes "cpu") (lookup (codes "cpu-request") params) v.requests
    requests ← set_resource (codes "memory") (lookup (codes "memory-request") params) cpu_requested
    ok (record v { limits = limits; requests = requests })

  module _ {S : Type 0} (c : Client S) where
    update_service : Dict Text → Option Service → S → Result Panic (Bool × S)
    unfolding patch_annotations patch_resources
    update_service params none s = ok (false, s)
    update_service params (some v) s = do
      v' ←
          patch_resources params (record v { annotations = patch_annotations params v.annotations })
      ok (c.update (service v') s)

    -- The first component says that there was no error.
    unfoldable pub patch_function_service : Text → Dict Text → S → Result Panic (Bool × S)
    unfolding update_service
    patch_function_service name params s =
        update_service params
          (c.get_service (record { kind = codes "Service"; namespace = functions; name = name }) s)
          s

    update_service-ok :
        (metric target : Text) (o : Option Service) (s : S)
        → (r : Bool × S) × (update_service (metric_params metric target) o s ≡ ok r)
    unfolding update_service patch_resources set_resource
    update_service-ok metric target none s = (_, refl)
    update_service-ok metric target (some v) s = (_, refl)

    -- A patch without limits and requests of resources does not panic.
    pub patch_function_service-ok :
        (name metric target : Text) (s : S)
        → (r : Bool × S) × (patch_function_service name (metric_params metric target) s ≡ ok r)
    unfolding patch_function_service
    patch_function_service-ok name metric target s = update_service-ok metric target _ s
