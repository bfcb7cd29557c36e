-- ===== src/Handler.antt =====
-- internal/handler/file.go: how a file in memory is served.
-- `Sending` has the range requests, `Serving` the whole answer from the cache, `Sidecars` the
-- compressed files next to a file; the others have what is proved of them.
pub mod Kinds
pub mod Sending
pub mod Serving
pub mod Sidecars
pub mod Disk
pub mod Large
pub mod Requests
pub mod Logging
pub mod Chain
pub mod Listing
pub mod Partial
pub mod Whole
pub mod Contained
