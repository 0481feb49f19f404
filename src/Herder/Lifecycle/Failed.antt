-- ===== src/Herder/Lifecycle/Failed.antt =====
-- What `init_connections` leaves when it fails.
use tcphandoff.Common.{
  ◌≡◌, refl, subst, ◌≢◌, inl, inr, Bool, true, false, List, [], Bool-cases, Outcome, done, ◌>>=◌,
  IfDone, IfDone-any, IfDone-bind,
}
use tcphandoff.Poll.Tree.{RbTree}
use tcphandoff.Poll.{Errno, success, enomem}
use tcphandoff.Herder.{Herder, ConnMemory}
use tcphandoff.Common.{Cache, null, live, destroyed, is_set}
use tcphandoff.Herder.Lifecycle.{
  Caches, HerderList, Cpu, create_if_null, init_connections, start_herders,
  destroy_connection_herders,
}

unset-not_live : (c : Cache) → is_set c ≡ false → c ≢ live
unset-not_live null e q = absurd (cc)
unset-not_live live e q = absurd (cc)
unset-not_live destroyed e q = absurd (cc)

abbrev Left : Type 0
Left = ConnMemory × Caches × HerderList × Errno

-- An error comes with no cache for connections.
abbrev NoCache : Left → Type 0
NoCache (left, caches, list, err) = err ≢ success → caches.conn_cache ≢ live

module _ (rb : RbTree) (mem : ConnMemory) (list : HerderList) where
  started-IfDone :
      (r : List Herder × Bool) (both without_both : Caches)
      → without_both.conn_cache ≡ destroyed
      → IfDone NoCache (elim r.1 as (λ b. Outcome Left) [
        | true ↦ done (mem, both, record { herders = r.0; list_locked = false }, success)
        | false ↦ destroy_connection_herders rb mem r.0 >>= λ left.
            done (left, without_both, record { herders = []; list_locked = true }, enomem)
      ])
  started-IfDone (hs, true) both without_both d = λ n q. absurd (n refl)
  started-IfDone (hs, false) both without_both d =
      IfDone-bind (λ l. Unit {0}) NoCache (destroy_connection_herders rb mem hs)
        (λ left. done (left, without_both, record { herders = []; list_locked = true }, enomem))
        (IfDone-any (destroy_connection_herders rb mem hs)) (λ left u n q. absurd (cc))

  init_connections-IfDone :
      (caches : Caches) (conn_made work_made : Bool) (cpus : List Cpu)
      → IfDone NoCache (init_connections rb mem caches list conn_made work_made cpus)
  unfolding init_connections
  init_connections-IfDone caches conn_made work_made cpus =
      elim (Bool-cases (is_set (create_if_null caches.conn_cache conn_made))) [
        | inr e ↦ rw e (λ n. unset-not_live (create_if_null caches.conn_cache conn_made) e)
        | inl e ↦ elim (Bool-cases (is_set (create_if_null caches.work_cache work_made))) [
          | inr f ↦ rw (e, f) (λ n q. absurd (cc))
          | inl f ↦
              rw (e, f)
                (IfDone-bind (λ l. Unit {0}) NoCache (start_herders [] cpus) _
                  (IfDone-any (start_herders [] cpus)) (λ r u. started-IfDone r _ _ refl))
        ]
      ]

  -- An error of `init_connections` leaves no cache for connections.
  pub init_connections-failed :
      (caches : Caches) (conn_made work_made : Bool) (cpus : List Cpu) (left : ConnMemory)
      (caches' : Caches) (list' : HerderList) (err : Errno)
      → init_connections rb mem caches list conn_made work_made cpus
        ≡ done (left, caches', list', err)
      → err ≢ success
      → caches'.conn_cache ≢ live
  init_connections-failed caches conn_made work_made cpus left caches' list' err e =
      subst (IfDone NoCache) e (init_connections-IfDone caches conn_made work_made cpus)
