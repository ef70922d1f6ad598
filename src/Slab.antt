-- ===== src/Slab.antt =====
-- include/slab.h and src/slab.cpp: `slab`, one pool for each size class behind caches that belong
-- to the threads.
pub mod SizeClass
pub mod Cache
pub mod Slots
pub mod Operations
pub mod Lifetime
pub mod Threads
pub mod Sample
pub mod Examples
