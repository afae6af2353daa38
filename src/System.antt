-- ===== src/System.antt =====
-- system/: the broadcast subscriber, and the task that can be stopped.
pub mod Subscriber
pub mod StoppableTask
