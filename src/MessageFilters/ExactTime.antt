-- ===== src/MessageFilters/ExactTime.antt =====
-- message_filters/sync_policies/exact_time.hpp. `std::map<Time, Tuple>` is an association list in
-- the order of its keys; `parent_->signal` and `drop_signal_.call` are the lists `signals` and
-- `drops`, in the order of the calls. Times are nanoseconds and never negative.
pub mod Defs
pub mod Store
pub mod Kept
pub mod Add
pub mod Run
mod Examples
