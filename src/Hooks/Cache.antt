-- ===== src/Hooks/Cache.antt =====
-- The query cache of TanStack Query as web/src/lib/api/hooks.ts uses it: an argument, with the documented
-- behaviour of `invalidateQueries`, which marks stale every query whose key begins with the given
-- key, and no other.
use core_banking_system.Prelude.{◌≡◌, Bool, ◌||◌, refl}
use core_banking_system.QueryKeys.{QueryKey, is_prefix}

pub record QueryClient : Type 1 where
  pub Cache : Type 0
  -- Whether the query of a key has to be fetched again.
  pub stale : Cache → QueryKey → Bool
  pub invalidate_queries : QueryKey → Cache → Cache
  pub stale-invalidate :
      (k j : QueryKey) (c : Cache) → stale (invalidate_queries k c) j ≡ (is_prefix k j || stale c j)

-- A client that meets the law: the cache is the test itself.
abbrev pub flag_client : QueryClient
flag_client = record {
  Cache = QueryKey → Bool;
  stale = λ c j. c j;
  invalidate_queries = λ k c j. is_prefix k j || c j;
  stale-invalidate = λ k j c. refl;
}
