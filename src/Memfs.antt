-- ===== src/Memfs.antt =====
-- helpers/memfs: the file system in memory, as far as the bytes of its files go.
pub mod Content
