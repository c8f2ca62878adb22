-- ===== src/Proxy.antt =====
-- cmd/proxy: the federating debuginfod proxy.
pub mod Errors
pub mod Headers
pub mod Finder
pub mod Evict
pub mod Cache
pub mod Response
pub mod Stats
pub mod Stream
pub mod Inflight
pub mod Ranges
pub mod ClientIp
