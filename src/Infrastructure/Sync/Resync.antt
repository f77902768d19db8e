-- ===== src/Infrastructure/Sync/Resync.antt =====
-- The replication of all synced states to a node and the history of a state, `resync_node` and
-- `get_state_history` of backend/infrastructure/state_sync.py. The pages of keys come from Redis's
-- `scan`, the last of them with the cursor 0.
use dutchkem_trading_ai.Common.Dict.{lookup}
use dutchkem_trading_ai.Common.Exec.{ok, err, pure, ◌>>=◌, ◌>>◌}
use dutchkem_trading_ai.Common.{
  ◌==◌, ℕ, zero, String, Option, none, some, List, [], ◌∷◌, ◌++◌, str_eq, if◌then◌else◌,
}
use dutchkem_trading_ai.Infrastructure.Documents.{Document}
use dutchkem_trading_ai.Infrastructure.Sync.Replicas.{
  Redis, Link, breaks_after, Call, call, update, set_node, take, list_at,
}

-- An absent or empty entry is not copied.
unfoldable pub copy_found : String → String → Option String → Call (List String)
unfolding call ◌>>=◌
copy_found target key none = pure []
copy_found target key (some t) =
    if str_eq t "" then pure [] else do call (update (set_node target key t)); pure (key ∷ [])

-- one key of a page, by its name without the prefix
unfoldable pub resync_key : String → String → Call (List String)
unfolding copy_found call ◌>>=◌
resync_key target key = do found ← call (λ r. (lookup key r.synced, r)); copy_found target key found

unfoldable pub resync_keys : String → List String → List String → Call (List String)
unfolding resync_key ◌>>=◌
resync_keys target done [] = pure done
resync_keys target done (k ∷ ks) = do
  copied ← resync_key target k
  resync_keys target (done ++ copied) ks

unfoldable pub resync_pages : String → List String → List (List String) → Call (List String)
unfolding resync_keys ◌>>=◌
resync_pages target done [] = pure done
resync_pages target done (page ∷ pages) = do
  done' ← resync_keys target done page
  resync_pages target done' pages

pub data ResyncResult : Type 0 where
  redis_not_available : ResyncResult
  resync_failed : ResyncResult
  resynced : List String → ResyncResult

unfoldable pub resync_body : (ℕ → String) → String → List (List String) → ℕ → Call (List String)
unfolding resync_pages call ◌>>=◌
resync_body print target pages now = do
  keys ← resync_pages target [] pages
  call (update (set_node target "last_resync" (print now)))
  pure keys

-- What was copied before an exception stays copied.
unfoldable pub resync_node :
    (ℕ → String) → Option Link → String → List (List String) → ℕ → Redis → ResyncResult × Redis
unfolding resync_body
resync_node print none target pages now r = (redis_not_available, r)
resync_node print (some link) target pages now r =
    let (done, left) = resync_body print target pages now (record { redis = r; link = link }) in
    elim done [ ok keys ↦ (resynced keys, left.redis) | err _ ↦ (resync_failed, left.redis) ]

unfoldable pub load_all : (String → Option Document) → List String → Option (List Document)
load_all loads [] = some []
load_all loads (t ∷ ts) =
    let rest = load_all loads ts in
    elim (loads t) [ none ↦ none | some d ↦ elim rest [ none ↦ none | some ds ↦ some (d ∷ ds) ] ]

-- The newest `limit` states, for a limit of 1 at least: `lrange` counts a stop of -1 from the end,
-- so that a limit of 0 reads the whole list.
unfoldable pub get_state_history :
    (String → Option Document) → Option Link → ℕ → String → Redis → List Document
unfolding load_all
get_state_history loads none limit key r = []
get_state_history loads (some (breaks_after zero)) limit key r = []
get_state_history loads (some _) limit key r =
    let texts = list_at key r.histories in
    elim (load_all loads (if limit == 0 then texts else take limit texts)) [
      | none ↦ []
      | some ds ↦ ds
    ]
