-- ===== src/MessageFilters/ApproximateTime.antt =====
-- message_filters/sync_policies/approximate_time.hpp. The tuples of deques and of vectors are one
-- list with an `Input` for each of the `RealTypeCount` inputs in use; the code never touches the
-- others. The product of a duration and `1 + age_penalty_`, a `double`, is the parameter `scale`.
-- `parent_->signal` is the list `signals`, in the order of the calls.
pub mod Defs
pub mod Process
pub mod Streams
pub mod Moves
pub mod Search
pub mod Suffix
pub mod Round
pub mod Rounds
pub mod Total
pub mod Arrive
pub mod Fits
pub mod Arrival
pub mod Add
mod Examples
