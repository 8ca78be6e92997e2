-- ===== src/Timer.antt =====
-- src/agnocastlib/src/agnocast_timer_info.cpp and its header: the schedule of a timer, the registry of
-- timers, and the handlers of their file descriptors.
pub mod Defs
pub mod Registry
pub mod Schedule
pub mod Jump
pub mod Ids
pub mod Epoll
mod Examples
