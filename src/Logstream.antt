-- ===== src/Logstream.antt =====
-- backend/internal/logstream/logstream.go: the line writer is in LineWriter, the publisher of a
-- task's Redis stream in Publisher.
pub mod LineWriter
pub mod Publisher
pub mod Writer
