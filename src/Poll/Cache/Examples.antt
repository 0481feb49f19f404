-- ===== src/Poll/Cache/Examples.antt =====
-- Before any eventpoll is made there is no cache and no user of it.
use tcphandoff.Common.{refl, arith}
use tcphandoff.Common.{null}
use tcphandoff.Poll.Cache.{ItemCache, Counts}

abbrev no_cache : ItemCache
no_cache = record { item_cache_use = 0; tcp_ep_item_cachep = null }

no_cache-Counts : Counts 0 no_cache
no_cache-Counts = record {
  count = refl;
  used = λ p. absurd (omega arith);
  unused = λ e q. absurd (cc);
}
