-- ===== src/Locking/Progress.antt =====
-- Threads that wait for each other's locks.
