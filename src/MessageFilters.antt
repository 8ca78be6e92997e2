-- ===== src/MessageFilters.antt =====
-- src/agnocastlib/include/agnocast/message_filters: the synchronisers' policies.
pub mod Message
pub mod ExactTime
pub mod ApproximateTime
