-- ===== src/ThreadConfig.antt =====
-- src/agnocast_cie_thread_configurator: the scheduling policies (sched_policy.cpp) and the attributes of a
-- thread that the configuration gives (thread_config.cpp).
pub mod Policy
pub mod Attrs
pub mod Affinity
pub mod Parsed
mod Examples
