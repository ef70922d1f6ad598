-- ===== src/Slab/Cache/Flaws.antt =====
-- What `slab::free` does with a null pointer.
use slab_allocator.Base.{set}
use slab_allocator.Machine.Word.{nullptr}
use slab_allocator.Machine.Memory.{Memory}
use slab_allocator.Pool.{Pool}
use slab_allocator.Slab.Cache.{ThreadLocalCache}

-- A cache whose entries are forgotten.
abbrev pub forgotten : ThreadLocalCache → ThreadLocalCache
forgotten c = record c { objects = set c.objects c.current nullptr; current = 0 }
