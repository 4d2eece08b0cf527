-- ===== src/Scanupload.antt =====
-- companion/internal/scanupload: the durable queue of uploads.
pub mod Record
pub mod Outside
pub mod Backoff
pub mod Upload
pub mod Queue
pub mod Due
pub mod Process
pub mod Records
pub mod Store
pub mod Lifecycle
