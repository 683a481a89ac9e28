-- ===== src/Container.antt =====
-- The containers of the C++ library as the caches use them: node-based sequences, whose iterators
-- are the addresses of nodes, and `std::unordered_map` from keys to iterators.
pub mod Nodes
pub mod Removal
pub mod Index
pub mod Values
