-- ===== src/Prefix.antt =====
-- src/trie/prefix_set.rs, and of src/trie/util.rs the prefixes.
pub mod Types
pub mod Laws
mod Tests
