-- ===== src/Network.antt =====
-- retina/orchestrator/src/retina/orchestrator/orchestration_network.py: the ports and the identifier of an
-- orchestration network, with the names of utils.py and the numbers of const.py. The
-- functions of the module `random` are parameters.
pub mod Draw
pub mod Ports
pub mod Threads
use ocudu_infra_srs.Prelude.{
  ℕ, zero, suc, ◌+◌, ◌⊎◌, inl, inr, Bool, true, false, Option, none, some, List, [], ◌∷◌, ◌++◌,
  ◌==◌, if◌then◌else◌, length,
}
use ocudu_infra_srs.Prelude.Text.{Text, text, decimal}
use ocudu_infra_srs.Prelude.Dict.{Dict}
use ocudu_infra_srs.Prelude.Action.{
  Result, ok, raised, Exception, value_error, index_error, Action, pure, raise, ◌>>=◌,
}
use ocudu_infra_srs.Cluster.{Platform, equals_ok, ConfigmapConfig, create_config_map}

abbrev pub number_port_init : ℕ
number_port_init = 32000

abbrev pub number_of_ports : ℕ
number_of_ports = 700

unfoldable pub get_pod_name : Text → Text → Text
get_pod_name basename orchid = basename ++ (text "-" ++ orchid)

unfoldable pub get_port_configmap_name : ℕ → Text
get_port_configmap_name port_number =
    text "retina" ++ (text "-" ++ (decimal port_number ++ text "-configmap-port"))

unfoldable pub get_orchid_configmap_name_from_id : Text → Text
get_orchid_configmap_name_from_id orch_id =
    text "retina" ++ (text "-" ++ (orch_id ++ text "-configmap-orchid"))

-- `range(first, first + n)`
unfoldable pub range : ℕ → ℕ → List ℕ
range first zero = []
range first (suc n) = first ∷ range (suc first) n

unfoldable pub possible_ports : List ℕ
possible_ports = range number_port_init number_of_ports

keep_head : ℕ → Result (ℕ × List ℕ) → Result (ℕ × List ℕ)
keep_head x (ok (y, ys)) = ok (y, x ∷ ys)
keep_head x (raised e) = raised e

-- `xs.pop(i)`, with what is left of the list.
unfoldable pub pop_at : ℕ → List ℕ → Result (ℕ × List ℕ)
unfolding keep_head
pop_at i [] = raised index_error
pop_at zero (x ∷ xs) = ok (x, xs)
pop_at (suc i) (x ∷ xs) = keep_head x (pop_at i xs)

abbrev pub named_config : Text → Text → Text → ConfigmapConfig
named_config name orch_id user_name = record {
  name = name;
  orch_id = orch_id;
  user_name = user_name;
  timeout = none;
  data_map = (text "orch_id", orch_id) ∷ (text "user_name", user_name) ∷ [];
}

abbrev pub port_config : Text → Text → ℕ → ConfigmapConfig
port_config orch_id user_name n = named_config (get_port_configmap_name n) orch_id user_name

module _ (p : Platform) where
  open p use {World}

  module _ (randint : ℕ → World → ℕ × World) where
    -- `randint(0, len(ports) - 1)`, which raises ValueError on no ports, and `pop`.
    unfoldable pub draw : List ℕ → Action World (ℕ × List ℕ)
    draw [] = raise value_error
    draw (x ∷ xs) = λ w. let (i, w') = randint (length xs) w in (pop_at i (x ∷ xs), w')

    -- One round of the loop of `reserve_port`: the port, or the ports that are left.
    claim_port : Text → Text → ℕ × List ℕ → Action World (ℕ ⊎ List ℕ)
    claim_port orch_id user_name (n, rest) = do
      response ← create_config_map p (port_config orch_id user_name n)
      pure (if equals_ok response then inl n else inr rest)

    unfoldable pub port_round : Text → Text → List ℕ → Action World (ℕ ⊎ List ℕ)
    unfolding claim_port
    port_round orch_id user_name ports = draw ports >>= claim_port orch_id user_name

    abbrev pub after_port_round :
        (List ℕ → World → Option (Result ℕ × World))
        → Result (ℕ ⊎ List ℕ) × World
        → Option (Result ℕ × World)
    after_port_round again (ok (inl n), w) = some (ok n, w)
    after_port_round again (ok (inr rest), w) = again rest w
    after_port_round again (raised e, w) = some (raised e, w)

    -- The loop, `none` where the fuel runs out.
    unfoldable pub port_loop : Text → Text → ℕ → List ℕ → World → Option (Result ℕ × World)
    port_loop orch_id user_name zero ports w = none
    port_loop orch_id user_name (suc fuel) ports w =
        after_port_round (port_loop orch_id user_name fuel) (port_round orch_id user_name ports w)

    unfoldable pub reserve_port : ℕ → Text → Text → World → Option (Result ℕ × World)
    reserve_port fuel orch_id user_name w = port_loop orch_id user_name fuel possible_ports w

  -- `get_orchestration_network_id`, where `random_string` is `get_random_string`.
  module _ (random_string : World → Text × World) where
    abbrev pub after_id :
        (World → Option (Text × World)) → Text → Result Bool × World → Option (Text × World)
    after_id again orch_id (ok true, w) = some (orch_id, w)
    after_id again orch_id (_, w) = again w

    unfoldable pub get_orchestration_network_id : ℕ → Text → World → Option (Text × World)
    get_orchestration_network_id zero user_name w = none
    get_orchestration_network_id (suc fuel) user_name w =
        let (orch_id, v) = random_string w in
        after_id (get_orchestration_network_id fuel user_name) orch_id (
          (do
            response ←
                create_config_map p
                  (named_config (get_orchid_configmap_name_from_id orch_id) orch_id user_name)
            pure (equals_ok response))
            v)
