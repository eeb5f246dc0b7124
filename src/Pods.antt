-- ===== src/Pods.antt =====
-- The specification of a pod: `_create_pod_spec` of retina_kubernetes.py
-- (retina/orchestrator/src/retina/orchestrator) and `PodConfig` of configs.py.
pub mod Config
pub mod Mounts
pub mod Spec
pub mod Scheduling
