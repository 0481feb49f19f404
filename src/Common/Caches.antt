-- ===== src/Common/Caches.antt =====
-- The pointer to a memory cache of the kernel.
use mathlib.Core.Bool.{Bool, true, false}

-- It keeps its value when the cache has been destroyed.
pub data Cache : Type 0 where
  null live destroyed : Cache

-- The pointer is not NULL.
abbrev pub is_set : Cache → Bool
is_set null = false
is_set _ = true
