-- ===== src/Sample/Ports.antt =====
-- The theorems about the orchestration network and the names of its config maps at concrete inputs.
use ocudu_infra_srs.Prelude.{ℕ, zero, suc, ◌≤◌, ◌<◌, ◌≡◌, ◌↔◌, refl, some, List, [], ◌∷◌, arith}
use ocudu_infra_srs.Prelude.Text.{text, decimal}
use ocudu_infra_srs.Prelude.Int.{pos}
use ocudu_infra_srs.Prelude.Action.{Result, ok, raised, name_error}
use ocudu_infra_srs.Cluster.{create_config_map, created_code, get_error_code, get_config_map_dict}
use ocudu_infra_srs.Locks.{get_space_name}
use ocudu_infra_srs.Locks.Holding.{Event, take_space, free_space, history}
use ocudu_infra_srs.Locks.Table.{answers, Steps, Observes, table, history-Steps}
use ocudu_infra_srs.Network.{reserve_port, get_port_configmap_name}
use ocudu_infra_srs.Network.Ports.{
  IsRandint, Serves, PortOutcome, TakesPort, reserve_port-PortOutcome, reserve_port_live,
}
use ocudu_infra_srs.Network.Threads.{get_ports}
use ocudu_infra_srs.Network.Threads.Fair.{turns, PortsOutcome, get_ports_total}
use ocudu_infra_srs.Elements.RetinaType.{
  KubernetesElement, configmap, resource_space, no_type, get_retina_type, get_retina_configmap_type,
  get_retina_configmap_type-get_space_name, get_retina_type-get_port_configmap_name,
}
use ocudu_infra_srs.Sample.{World, platform, platform-IsLawful, platform-IsDeleting}
use ocudu_infra_srs.Requests.{RequestReservation}
use ocudu_infra_srs.Requests.Pool.{
  Each, IsFrom, EndsWith, get_pool_request_reservation_from_config,
  get_pool_request_reservation_from_config-IsFrom,
}
use ocudu_infra_srs.Requests.NodeCache.{get_node, Settled, get_node-Settled}
use ocudu_infra_srs.Sample.Runs.{
  randint, start, plain, chosen_node, node_choice_ok, configs, read_pool, pool_config_ok,
}

randint-IsRandint : IsRandint platform randint
randint-IsRandint = record { bounded = λ n w. omega arith; quiet = λ n w name. refl }

platform-Serves : Serves platform
unfolding create_config_map created_code get_error_code get_config_map_dict
platform-Serves c w free = rw free refl

reserve_port_example :
    (r : Result ℕ × World) × (reserve_port platform randint 701 (text "abc") (text "ana") start
      ≡ some r)
    × PortOutcome platform (text "abc") (text "ana") start r
reserve_port_example =
    reserve_port-PortOutcome platform-IsLawful randint randint-IsRandint (text "abc") (text "ana")
      start

reserve_port_live_example :
    (n : ℕ) × (w : World) × (reserve_port platform randint 701 (text "abc") (text "ana") start
      ≡ some (ok n, w))
    × TakesPort platform (text "abc") (text "ana") n start w
unfolding get_config_map_dict
reserve_port_live_example =
    reserve_port_live platform-IsLawful platform-Serves randint randint-IsRandint (text "abc")
      (text "ana") start 32005 (omega arith) (omega arith) refl

-- Two threads that take turns.
abbrev in_turn : ℕ → List ℕ
in_turn zero = []
in_turn (suc n) = 0 ∷ 1 ∷ in_turn n

in_turn_first : (n : ℕ) → turns (in_turn n) 0 ≡ n
unfolding turns
in_turn_first zero = refl
in_turn_first (suc n) = omega (arith, in_turn_first n)

in_turn_second : (n : ℕ) → turns (in_turn n) 1 ≡ n
unfolding turns
in_turn_second zero = refl
in_turn_second (suc n) = omega (arith, in_turn_second n)

in_turn_enough : (j : ℕ) → j < 2 → 701 ≤ turns (in_turn 701) j
in_turn_enough zero h = omega (arith, in_turn_first 701)
in_turn_enough (suc zero) h = omega (arith, in_turn_second 701)
in_turn_enough (suc (suc j)) h = absurd (omega arith)

get_ports_example :
    (r : Result (List ℕ) × World) × (get_ports platform randint
        (text "abc")
        (text "ana")
        (in_turn 701)
        2
        start
      ≡ some r)
    × PortsOutcome platform (text "abc") (text "ana") 2 start r
get_ports_example =
    get_ports_total platform-IsLawful randint randint-IsRandint (text "abc") (text "ana")
      (in_turn 701) 2 start in_turn_enough

abbrev calls : List Event
calls =
    take_space 3 (text "abc") (text "ana") (pos 900)
    ∷ take_space 3 (text "xyz") (text "bob") (pos 900)
    ∷ free_space 3
    ∷ []

lock_table_example :
    Steps
      (table platform start)
      calls
      (answers platform calls start)
      (table platform (history platform calls start))
    × Observes platform (history platform calls start)
lock_table_example = history-Steps platform-IsLawful platform-IsDeleting calls start

abbrev space_element : KubernetesElement
space_element = record {
  kubernetes_type = configmap;
  name = get_space_name 3;
  annotations = some ((text "orch_id", text "abc") ∷ []);
}

space_type_example :
    (get_retina_configmap_type (get_space_name 3) ≡ (resource_space, decimal 3))
    × ((m : ℕ)
        → (get_retina_configmap_type (get_space_name 3) ≡ (resource_space, decimal m)) ↔ (m ≡ 3))
space_type_example = get_retina_configmap_type-get_space_name 3

port_type_example :
    get_retina_type (record space_element { name = get_port_configmap_name 32005 })
    ≡ (no_type, text "")
port_type_example =
    get_retina_type-get_port_configmap_name
      (record space_element { name = get_port_configmap_name 32005 }) 32005 refl refl

pool_config_example :
    Each IsFrom configs read_pool.request_reservation_list
    × ((r : RequestReservation) × EndsWith read_pool.request_reservation_list r
        × (read_pool.binary_list ≡ r.binary_list))
    × (read_pool.orch_id ≡ text "abc")
    × (read_pool.user_name ≡ text "ana")
    × (get_pool_request_reservation_from_config [] (text "abc") (text "ana") ≡ raised name_error)
pool_config_example =
    get_pool_request_reservation_from_config-IsFrom configs (text "abc") (text "ana") pool_config_ok

node_cache_ok :
    get_node platform randint (plain, start)
    ≡ (ok (some chosen_node), (record plain { node = some chosen_node }, start))
unfolding get_node
node_cache_ok = rw node_choice_ok refl

node_cache_example : Settled platform randint chosen_node (record plain { node = some chosen_node })
node_cache_example =
    get_node-Settled platform randint plain (record plain { node = some chosen_node }) chosen_node
      start start node_cache_ok
