-- ===== src/Queue.antt =====
-- pkg/playback/queue/queue.go: plain, re-orderable, aggregatable and round-robin queues.
pub mod Item
pub mod Schema
pub mod Reorder
pub mod RoundRobin
