-- ===== src/Coordinator/Demeter/Config.antt =====
-- pheromone/src/coordinator/demeter_scheduler.cpp, `load_demeter_scheduler_config`. The YAML library
-- is a parameter.
use demeter.Prelude.{
  nat_eqb, ◌>>=◌, Ensures, Ensures-bind_any, length, Map, insert, Str, bytes, nat_eq, str_eq, ℕ,
  ◌<◌, ◌≡◌, false, not, Option, none, some, List, [], ◌∷◌, ◌++◌, arith,
}
use demeter.Coordinator.{to_string}
use demeter.Coordinator.Demeter.{
  Double, DemeterAllocation, DemeterNodeProfile, DemeterSchedulerConfig,
}

-- What the code uses of a `YAML::Node`: the entry under a key, if there is one; the conversions,
-- which may throw; and the iteration.
pub record Yaml (Y D : Type 0) : Type 0 where
  pub entry : Y → Str → Option Y
  pub as_unsigned : Y → Option ℕ
  pub as_double : Y → Option D
  pub as_string : Y → Option Str
  pub items : Y → List Y

module _ {Y D : Type 0} (yaml : Yaml Y D) (d : Double D) where
  -- `item[key] ? item[key].as<...>() : fallback`
  unfoldable pub value_or : {A : Type 0} → (Y → Option A) → Y → Str → A → Option A
  value_or convert item key fallback = elim (yaml.entry item key) [
    | none ↦ some fallback
    | some y ↦ convert y
  ]

  -- The items under a key, if there are any.
  unfoldable pub items_of : Y → Str → List Y
  items_of item key = elim (yaml.entry item key) [ none ↦ [] | some y ↦ yaml.items y ]

  unfoldable pub load_allocations : List Y → Option (List (DemeterAllocation D))
  unfolding value_or
  load_allocations [] = some []
  load_allocations (item ∷ rest) = do
    name ← value_or yaml.as_string item (bytes "name") (bytes "custom")
    cpu_cores ← value_or yaml.as_double item (bytes "cpu_cores") (d.of_ℕ 1)
    memory_mb ← value_or yaml.as_unsigned item (bytes "memory_mb") 128
    allocs ← load_allocations rest
    some (record { name = name; cpu_cores = cpu_cores; memory_mb = memory_mb } ∷ allocs)

  abbrev pub default_memory : List ℕ
  default_memory = 128 ∷ 512 ∷ 1024 ∷ 2048 ∷ 4096 ∷ 8192 ∷ 10240 ∷ []

  abbrev pub default_cpu : List ℕ
  default_cpu = 1 ∷ 2 ∷ 4 ∷ 8 ∷ []

  -- The inner and the outer loop over the defaults.
  unfoldable pub default_row : ℕ → List ℕ → List (DemeterAllocation D)
  default_row c [] = []
  default_row c (m ∷ ms) =
      record {
        name = to_string c ++ bytes "c-" ++ to_string m ++ bytes "m";
        cpu_cores = d.of_ℕ c;
        memory_mb = m;
      }
      ∷ default_row c ms

  unfoldable pub default_allocations : List ℕ → List (DemeterAllocation D)
  unfolding default_row
  default_allocations [] = []
  default_allocations (c ∷ cs) = default_row c default_memory ++ default_allocations cs

  abbrev pub allocations_or_default : List (DemeterAllocation D) → List (DemeterAllocation D)
  allocations_or_default [] = default_allocations default_cpu
  allocations_or_default (a ∷ allocs) = a ∷ allocs

  -- A node without an address is passed over; a later profile of an address replaces an earlier.
  unfoldable pub load_profiles :
      Map Str (DemeterNodeProfile D) → List Y → Option (Map Str (DemeterNodeProfile D))
  unfolding value_or
  load_profiles profiles [] = some profiles
  load_profiles profiles (item ∷ rest) = elim (yaml.entry item (bytes "ip")) [
    | none ↦ load_profiles profiles rest
    | some y ↦ do
      ip ← yaml.as_string y
      dc ← value_or yaml.as_string item (bytes "dc") ip
      warm_weight ← value_or yaml.as_double item (bytes "warm_weight") (d.literal 15 2)
      load_weight ← value_or yaml.as_double item (bytes "load_weight") (d.literal 35 2)
      locality_weight ← value_or yaml.as_double item (bytes "locality_weight") (d.of_ℕ 1)
      load_profiles
          (insert ip
            (record {
              dc = dc;
              warm_weight = warm_weight;
              load_weight = load_weight;
              locality_weight = locality_weight;
            })
            profiles)
          rest
  ]

  -- `DemeterSchedulerConfig()`
  abbrev pub new_config : DemeterSchedulerConfig D
  new_config = record {
    enabled = false;
    memory_loss_factor = d.literal 8 1;
    allocations = [];
    node_profiles = [];
  }

  unfoldable pub load_demeter_scheduler_config : Y → Option (DemeterSchedulerConfig D)
  unfolding value_or items_of load_allocations default_allocations load_profiles
  load_demeter_scheduler_config conf = elim (yaml.entry conf (bytes "demeter")) [
    | none ↦ some new_config
    | some node ↦ do
      enabled ← value_or yaml.as_unsigned node (bytes "enabled") 0
      memory_loss_factor ←
          value_or yaml.as_double node (bytes "memory_loss_factor") new_config.memory_loss_factor
      allocations ← load_allocations (items_of node (bytes "allocations"))
      node_profiles ← load_profiles [] (items_of node (bytes "nodes"))
      some (record {
        enabled = not (nat_eqb enabled 0);
        memory_loss_factor = memory_loss_factor;
        allocations = allocations_or_default allocations;
        node_profiles = node_profiles;
      })
  ]

  allocations_or_default-some :
      (allocs : List (DemeterAllocation D)) → 0 < length (allocations_or_default allocs)
  unfolding default_allocations default_row
  allocations_or_default-some [] = omega arith
  allocations_or_default-some (a ∷ allocs) = omega arith

  -- A configuration file with a section on the scheduler, if its values can be converted, always
  -- gives at least one allocation to choose from.
  pub load_demeter_scheduler_config-allocations :
      (conf node : Y)
      → yaml.entry conf (bytes "demeter") ≡ some node
      → Ensures (λ config. 0 < length config.allocations) (load_demeter_scheduler_config conf)
  unfolding load_demeter_scheduler_config
  load_demeter_scheduler_config-allocations conf node section =
      rw (load_demeter_scheduler_config, section)
        (Ensures-bind_any P (value_or yaml.as_unsigned node (bytes "enabled") 0) _ (λ enabled.
          Ensures-bind_any P
            (value_or yaml.as_double node (bytes "memory_loss_factor")
              new_config.memory_loss_factor)
            _
            (λ factor.
              Ensures-bind_any P (load_allocations (items_of node (bytes "allocations"))) _
                (λ allocs.
                  Ensures-bind_any P (load_profiles [] (items_of node (bytes "nodes"))) _
                    (λ profiles. allocations_or_default-some allocs)))))
    where
      P : DemeterSchedulerConfig D → Type 0
      P config = 0 < length config.allocations
