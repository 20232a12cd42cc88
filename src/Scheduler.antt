-- ===== src/Scheduler.antt =====
-- services/scheduler: the priority queues, the latency histogram, the adaptive batcher and the service.
pub mod Queue
pub mod Registry
pub mod Histogram
pub mod Batcher
pub mod Service
