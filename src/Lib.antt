-- ===== src/Lib.antt =====
-- The reservation side of the Retina orchestrator: from the definition of a cluster and a request for resources to
-- the config maps that lock a resource space, a cluster resource or a port and publish a resource's data; how the
-- agent stops a process; and how the launcher judges a test.
--
-- How the parts work together. A request and the cluster definition are read into resources (Resources/Inventory). A
-- round of a reservation takes the resources that are available (Resources: a resource is taken while its lock, a
-- config map, exists), groups node resources by resource space (Transformations), chooses one resource for each
-- requested one (Transformations/Match), takes the lock of the space (Locks), and then reserves each resource, which
-- locks a cluster resource and publishes the data of a resource (Resources/Booking). Rounds are repeated every ten
-- seconds until the handler of the timeout raises (Managers, Timeout).
--
-- Files, and the code they stand for, below retina/orchestrator/src/retina/orchestrator:
--   Elements         elements.py: taints, labels, nodes, `Node.check_label_list`; `RetinaType` is the type of an
--                    element by its name
--   Requirement      requirement.py: `RequirementManager`; `requirement_manager` is its `__init__`
--   Timeout          timeout_handler.py: `TimeoutHandler`
--   Protocol         retina/protocol/src/retina/protocol/resource.py: the data classes
--   Cluster          kubernetes.py, retina_kubernetes.py: config maps, error codes, the node dictionary
--   Locks            reservation/utils.py
--   Resources        reservation/resources.py: a class is a constructor of `Kind`; `Hash`, `Data`, `Booking` and
--                    `Inventory` have its `__hash__`, `get_resource_data`, `reserve` and the readers of dicts
--   Transformations  reservation/transformations.py; `Match` is `get_match_resources`
--   Managers         reservation/managers.py: the two reservation loops
--   Requests         `RequestReservation` and `PoolRequestReservation` of the same two files; `NodeChoice` is
--                    `_match_node`, with `random.randint` as a parameter, `NodeCache` is `_get_node`,
--                    `Pool` reads a config, and `Quantities` resolves percentages of a node's capacity
--   Network          orchestration_network.py, utils.py, const.py: names of config maps and the choice of ports;
--                    `Threads` is `get_ports`, where a schedule says whose turn is next
--   Pods             retina_kubernetes.py `_create_pod_spec` and its helpers, configs.py `PodConfig`
-- and of other packages, below retina:
--   Agent            agent/src/retina/agent: tools/time.py and features/executor.py; `Executor` is `exit_process`,
--                    `Executor/Remote` is `_RemoteProcess`; `Sut` is `_stop_binary` of features/sut_handler.py
--   Launcher         launcher/src/retina/launcher/criteria.py: the criteria of a test and their verdict
--   Prelude          shared types, Python's dict, str and exceptions, lists
--   Sample           a concrete cluster with runs and examples
-- A function of the code has the name of its definition. A method takes its object as an argument and returns the
-- new one. Code that acts on the cluster is an `Action`: from a world to a value or an exception, and the world
-- after it, so that what was done before an exception stays done.
--
-- What is not in the repository is the record `Platform` (Cluster): the Kubernetes API, the clock in milliseconds,
-- `sleep`, `random.shuffle`, `hash`, `re.match` with the patterns that `re` compiles, and the YAML of a resource's
-- data. Its documented behaviour is the record `IsLawful` (Cluster/Laws): creating a config map is atomic and
-- refuses an existing name, a refused call changes nothing, deleting leaves other names alone, the clock does not
-- run backwards, `sleep` lasts as long as it says, and a shuffle has the same elements. `IsDeleting` (Locks/Table)
-- adds what deleting does to the name itself. Sample has instances. The decoded `retina-info` config map is the
-- parameter `configuration`. `hash` may collide.
--
-- Bounds and fuel: the two loops of Managers take a number of rounds. Each round that does not return is followed by
-- ten seconds of sleep, so that a round for each ten seconds up to the deadline, and one more, are enough. The loop
-- of reserve_port has one port less each round, so 701 rounds are enough for 700 ports. The loops of Agent take a
-- round for each wait up to the timeout and one more. The depth of `result_of` is Python's recursion limit.
-- get_orchestration_network_id draws names until one is free, and has no bound.
--
-- Not modelled: exceptions of the Kubernetes API other than those of creating and deleting (listing is taken to
-- succeed), log output, waiting for pods and deleting them, services and deployments, reading the output of
-- processes, the drivers of the agent, the client and the gRPC protocol, which are I/O or build on these parts. The
-- run of gdb in `exit_process`, a process, an SSH channel, `random`, floats (the record `Floats`) and the values
-- that criteria compare are parameters.
pub mod Prelude
pub mod Elements
pub mod Requirement
pub mod Timeout
pub mod Protocol
pub mod Cluster
pub mod Locks
pub mod Resources
pub mod Transformations
pub mod Managers
pub mod Requests
pub mod Network
pub mod Pods
pub mod Agent
pub mod Launcher
pub mod Sample
