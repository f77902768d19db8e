-- ===== src/Infrastructure/Sync/Locks.antt =====
-- The locks on resources, `acquire_lock` and `release_lock` of backend/infrastructure/state_sync.py.
use dutchkem_trading_ai.Common.Dict.{lookup-insert, lookup, insert, contains}
use dutchkem_trading_ai.Common.{
  arith, refl, ap, eq_refl, ◌≡◌, zero, String, Option, none, some, Bool, true, false, if◌then◌else◌,
}
use dutchkem_trading_ai.Common.Dict.{remove-insert_new, remove}
use dutchkem_trading_ai.Infrastructure.Sync.Replicas.{steady, Redis, Link, breaks_after}

-- Without Redis every node is told that it holds the lock.
unfoldable pub acquire_lock : Option Link → String → String → Redis → Bool × Redis
acquire_lock none node_id resource r = (true, r)
acquire_lock (some (breaks_after zero)) node_id resource r = (false, r)
acquire_lock (some _) node_id resource r =
    if contains resource r.locks
    then (false, r)
    else (true, record r { locks = insert resource node_id r.locks })

-- The lock is deleted whoever holds it.
unfoldable pub release_lock : Option Link → String → Redis → Bool × Redis
release_lock none resource r = (true, r)
release_lock (some (breaks_after zero)) resource r = (false, r)
release_lock (some _) resource r = (true, record r { locks = remove resource r.locks })

acquire_lock-free :
    (node resource : String) (r : Redis)
    → lookup resource r.locks ≡ none
    → acquire_lock (some steady) node resource r
      ≡ (true, record r { locks = insert resource node r.locks })
unfolding acquire_lock
acquire_lock-free node resource r h = ground arith

acquire_lock-taken :
    (node other resource : String) (r : Redis)
    → (acquire_lock
        (some steady)
        other
        resource
        (record r { locks = insert resource node r.locks })).0
      ≡ false
unfolding acquire_lock
acquire_lock-taken node other resource r =
    let e : lookup resource (insert resource node r.locks) ≡ some node =
      rw (lookup-insert resource resource node r.locks, eq_refl resource) refl in
    ground (arith, e)

release_lock-insert :
    (node resource : String) (r : Redis)
    → lookup resource r.locks ≡ none
    → release_lock (some steady) resource (record r { locks = insert resource node r.locks })
      ≡ (true, r)
unfolding release_lock
release_lock-insert node resource r h = rw (remove-insert_new resource node r.locks h) refl

-- While a node holds the lock on a resource that was free, with working clients, another node's
-- `acquire_lock` is refused, but it succeeds where that node has no client, and also after that node's
-- own `release_lock`, which needs no lock: then both nodes hold it.
pub acquire_lock-shared :
    (node other resource : String) (r : Redis)
    → lookup resource r.locks ≡ none
    → let held = acquire_lock (some steady) node resource r in
      (held.0 ≡ true)
      × ((acquire_lock (some steady) other resource held.1).0 ≡ false)
      × ((acquire_lock none other resource held.1).0 ≡ true)
      × ((release_lock (some steady) resource held.1).0 ≡ true)
      × ((acquire_lock
            (some steady)
            other
            resource
            (release_lock (some steady) resource held.1).1).0
          ≡ true)
unfolding acquire_lock
acquire_lock-shared node other resource r h = rw (acquire_lock-free node resource r h) (
  refl,
  acquire_lock-taken node other resource r,
  refl,
  ap (λ (p : Bool × Redis). p.0) (release_lock-insert node resource r h),
  rw (release_lock-insert node resource r h, acquire_lock-free other resource r h) refl,
)
