-- ===== src/Tests.antt =====
-- Runs of the model at concrete inputs.
mod Ranges
mod CacheManager
mod LinkedList
mod LruCache
mod Scte35
mod Transmux
mod Sidx
mod TaskQueue
