-- ===== src/Kmod/Topic.antt =====
-- agnocast_ioctl.c and agnocast_internal.c: what the module does to one topic, whose `topic_struct` is a
-- `Topic`. The environment of a call, the processes and the rules, is an argument.
pub mod Delivery
pub mod Notify
pub mod Insert
pub mod Publish
pub mod Receive
pub mod Release
pub mod Remove
pub mod Steps
pub mod Held
pub mod Depth
pub mod Window
pub mod Valid
mod Examples
