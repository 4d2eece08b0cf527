-- ===== src/Scanarchive.antt =====
-- companion/internal/scanarchive: the archive of scans.
pub mod Record
pub mod Process
pub mod Store
