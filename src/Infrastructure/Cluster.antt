-- ===== src/Infrastructure/Cluster.antt =====
-- The cluster of nodes with an elected leader, backend/infrastructure/multi_node.py. Load scores are
-- whole numbers. The lock is not reentrant, and is part of the state: a call that waits for it while
-- it holds it never returns.
use dutchkem_trading_ai.Common.Dict.{Dict, lookup, insert, modify, contains}
use dutchkem_trading_ai.Common.{
  ℕ, ◌+◌, String, Option, none, some, Bool, true, false, List, [], ◌∷◌, ltb, ◌&&◌, ◌||◌, not,
  if◌then◌else◌, str_eq,
}
pub mod Loads
pub mod Election
pub mod Deadlock
mod Examples

pub data MemberStatus : Type 0 where
  member_active member_standby member_failed member_recovering : MemberStatus

pub record Member : Type 0 where
  pub host : String
  pub port : ℕ
  pub status : MemberStatus
  pub last_heartbeat : ℕ
  pub failover_count : ℕ
  pub load_score : ℕ

pub record Orchestrator : Type 0 where
  pub nodes : Dict Member
  pub leader_id : Option String
  pub locked : Bool

-- What a call ends with, or that it waits forever.
pub data Outcome (A : Type 0) : Type 0 where
  returned : A → Outcome A
  waits : Outcome A

abbrev pub is_active : MemberStatus → Bool
is_active member_active = true
is_active _ = false

abbrev pub is_failed : MemberStatus → Bool
is_failed member_failed = true
is_failed _ = false

-- The timeout is 30 seconds.
unfoldable pub is_alive : ℕ → Member → Bool
is_alive now n = ltb now (n.last_heartbeat + 30)

abbrev pub is_leader : Option String → String → Bool
is_leader none k = false
is_leader (some j) k = str_eq k j

unfoldable pub register_node :
    String → String → ℕ → ℕ → Orchestrator → Outcome String × Orchestrator
register_node node_id host port now o =
    if o.locked
    then (waits, o)
    else let n : Member = record {
      host = host;
      port = port;
      status = member_standby;
      last_heartbeat = now;
      failover_count = 0;
      load_score = 0;
    } in
      (returned node_id, record o { nodes = insert node_id n o.nodes })

unfoldable pub heartbeat : String → ℕ → Orchestrator → Outcome Bool × Orchestrator
heartbeat k now o = if o.locked then (waits, o) else (
  returned (contains k o.nodes),
  record o {
    nodes = modify k (λ n. record n { last_heartbeat = now; status = member_active }) o.nodes;
  },
)

-- The candidates' least load: the first of the smallest, as the stable sort puts it.
unfoldable pub least_loaded :
    (String → Member → Bool) → Option (String × ℕ) → Dict Member → Option (String × ℕ)
least_loaded p best [] = best
least_loaded p none ((k, n) ∷ d) = least_loaded p (if p k n then some (k, n.load_score) else none) d
least_loaded p (some (j, load)) ((k, n) ∷ d) =
    least_loaded p
      (if p k n && ltb n.load_score load then some (k, n.load_score) else some (j, load)) d

unfoldable pub is_candidate : ℕ → Option String → String → Member → Bool
unfolding is_alive
is_candidate now leader k n = is_alive now n && not (is_leader leader k)

-- The elected node is active, every other active one stands by.
unfoldable pub seat : String → Dict Member → Dict Member
seat leader [] = []
seat leader ((k, n) ∷ d) =
    let status =
      if str_eq k leader
      then member_active
      else if is_active n.status
      then member_standby
      else n.status in
    (k, record n { status = status }) ∷ seat leader d

abbrev known_leader : Option String → Dict Member → Option String
known_leader none d = none
known_leader (some k) d = if str_eq k "" then none else if contains k d then some k else none

unfoldable pub install : Option (String × ℕ) → Orchestrator → Option String × Orchestrator
unfolding seat
install none o = (known_leader o.leader_id o.nodes, o)
install (some (k, load)) o = (some k, record o { leader_id = some k; nodes = seat k o.nodes })

unfoldable pub elect_leader : ℕ → Orchestrator → Outcome (Option String) × Orchestrator
unfolding least_loaded is_candidate install
elect_leader now o =
    if o.locked
    then (waits, o)
    else let (reply, o') = install (least_loaded (is_candidate now o.leader_id) none o.nodes) o in
      (returned reply, o')

unfoldable pub fails : ℕ → Member → Bool
unfolding is_alive
fails now n = not (is_alive now n) && not (is_failed n.status)

unfoldable pub mark_failed_nodes : ℕ → Dict Member → Dict Member
unfolding fails
mark_failed_nodes now [] = []
mark_failed_nodes now ((k, n) ∷ d) =
    (
      k,
      if fails now n
          then record n { status = member_failed; failover_count = n.failover_count + 1 }
          else n,
    )
    ∷ mark_failed_nodes now d

unfoldable pub failed_ids : ℕ → Dict Member → List String
unfolding fails
failed_ids now [] = []
failed_ids now ((k, n) ∷ d) = let rest = failed_ids now d in if fails now n then k ∷ rest else rest

unfoldable pub leader_is_dead : ℕ → Option String → Dict Member → Bool
unfolding is_alive
leader_is_dead now none d = false
leader_is_dead now (some k) d =
    if str_eq k ""
    then false
    else elim (lookup k d) [ none ↦ false | some n ↦ not (is_alive now n) ]

unfoldable pub finished :
    List String → Outcome (Option String) → Orchestrator → Outcome (List String) × Orchestrator
finished ids (returned _) o = (returned ids, record o { locked = false })
finished ids waits o = (waits, o)

-- The election is called with the lock held.
unfoldable pub check_failovers : ℕ → Orchestrator → Outcome (List String) × Orchestrator
unfolding failed_ids mark_failed_nodes leader_is_dead elect_leader finished
check_failovers now o =
    let marked = mark_failed_nodes now o.nodes in
    let ids = failed_ids now o.nodes in
    let held : Orchestrator = record { nodes = marked; leader_id = none; locked = true } in
    let elected = elect_leader now held in
    if o.locked
    then (waits, o)
    else if leader_is_dead now o.leader_id marked
    then finished ids elected.0 elected.1
    else (returned ids, record o { nodes = marked })
