-- ===== src/Updatefeed.antt =====
-- companion/internal/updatefeed: versions and the choice of an update.
pub mod Version
pub mod Select
pub mod Feed
