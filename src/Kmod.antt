-- ===== src/Kmod.antt =====
-- agnocast_kmod, the kernel module that keeps the topics, their endpoints and the messages in flight.
pub mod State
pub mod ExitQueue
pub mod Memory
pub mod Processes
pub mod Lists
pub mod Topic
