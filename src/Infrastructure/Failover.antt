-- ===== src/Infrastructure/Failover.antt =====
-- The failover between trading nodes: backend/infrastructure/failover_manager.py. Times are whole
-- milliseconds, read from the clock by the caller and passed in; the heartbeat interval is not zero.
-- The callbacks and the journal row in the database are a trace of what was sent: an exception in
-- either is caught where they are called.
pub mod Switching
pub mod Invariant
pub mod Runs
pub mod Overrides
pub mod Detection
use dutchkem_trading_ai.Infrastructure.Selection.{truthy, or_text, select}
use dutchkem_trading_ai.Common.Int.{ℤ}
use dutchkem_trading_ai.Common.Exec.{raise_if, pure, modify_state, gets, err, ◌>>◌, ◌>>=◌, ok, Exec}
use dutchkem_trading_ai.Common.Dict.{insert, contains, modify, lookup, Dict}
use dutchkem_trading_ai.Common.{
  ◌+◌, ◌/◌, ◌-◌, ◌*◌, map, ◌++◌, ◌&&◌, str_eq, push_bounded, not, ltb, if◌then◌else◌, ℕ, String,
  Option, none, some, List, [], ◌∷◌, Bool, true, false,
}
use dutchkem_trading_ai.Infrastructure.Nodes.{
  FailoverError, FailoverReply, FailoverState, Manager, Node, NodeFailure, NodeStatus, Notice,
  RecoveryReply, SwitchRecord, active, already_in_progress, edit_node, failed, failover_in_progress,
  failover_pending, holds_id, in_progress, initial_manager, is_active, is_failed, journal,
  key_error, log_length, no_active_node, no_healthy_backup, node_failure, node_not_failed,
  node_not_found, normal, notify, on_failover, on_node_failure, on_node_recovery, recovering,
  recovery, recovery_started, set_status, source_not_found, standby, switched,
}

unfoldable pub register_node :
    String → String → ℕ → ℤ → Option (Dict String) → ℕ → Manager → Manager
register_node k h p prio meta now m = record m {
  nodes =
      insert k
        (record {
          host = h;
          port = p;
          priority = prio;
          status = standby;
          last_heartbeat = now;
          missed_heartbeats = 0;
          failover_count = 0;
          metadata = elim meta [ none ↦ [] | some d ↦ d ];
        })
        m.nodes;
}

-- The node that was active steps down, if its name is not empty.
abbrev pub step_down : Option String → Dict Node → Dict Node
step_down o d = elim o [ none ↦ d | some a ↦ modify a (set_status standby) d ]

unfoldable pub set_active_node : String → Manager → Manager
set_active_node k m =
    if contains k m.nodes
    then record m {
      nodes = modify k (set_status active) (step_down (truthy m.active_node_id) m.nodes);
      active_node_id = some k;
    }
    else m

abbrev pub hear : ℕ → Node → Node
hear now n = record n {
  last_heartbeat = now;
  missed_heartbeats = 0;
  status = if is_failed n.status then standby else n.status;
}

unfoldable pub heartbeat : String → ℕ → Manager → Bool × Manager
heartbeat k now m = elim (lookup k m.nodes) [
  | none ↦ (false, m)
  | some n ↦
      let m' = edit_node k (hear now) m in
      (true, if is_failed n.status then notify (on_node_recovery k) m' else m')
]

-- a node that is marked active and is not the active one is passed over
abbrev pub skipped : Option String → String → Node → Bool
skipped a k n = is_active n.status && not (holds_id a k)

module _ (missed_heartbeats_threshold heartbeat_interval : ℕ) where
  -- `elapsed / interval > threshold`
  abbrev pub expired : ℕ → Node → Bool
  expired now n = ltb (missed_heartbeats_threshold * heartbeat_interval) (now - n.last_heartbeat)

  unfoldable pub check_node : Option String → ℕ → String → Node → Node
  check_node a now k n =
      if not (skipped a k n) && expired now n
      then (let n' = record n {
        missed_heartbeats = (now - n.last_heartbeat) / heartbeat_interval;
      } in
          if is_failed n.status
          then n'
          else record n' { status = failed; failover_count = n.failover_count + 1 })
      else n

  unfoldable pub fails_now : Option String → ℕ → String → Node → Bool
  fails_now a now k n = (not (skipped a k n) && expired now n) && not (is_failed n.status)

  -- The loop over the nodes: the nodes after it, and the failures found, in order.
  unfoldable pub check_nodes : Option String → ℕ → Dict Node → Dict Node × List NodeFailure
  check_nodes a now [] = ([], [])
  check_nodes a now ((k, n) ∷ d) =
      let n' = check_node a now k n in
      let (d', fs) = check_nodes a now d in
      (
        (k, n') ∷ d',
        if fails_now a now k n
            then node_failure k n'.host n'.missed_heartbeats n'.failover_count now ∷ fs
            else fs,
      )

  abbrev pub failure_notice : NodeFailure → Notice
  failure_notice (node_failure k _ _ _ _) = on_node_failure k

  unfoldable pub check_failures : ℕ → Manager → List NodeFailure × Manager
  check_failures now m =
      let (d, fs) = check_nodes m.active_node_id now m.nodes in
      (fs, record m { nodes = d; notices = m.notices ++ map failure_notice fs })

-- `_select_backup_node`
abbrev pub can_take_over : String → String → Node → Bool
can_take_over source k n = not (str_eq k source) && not (is_failed n.status)

unfoldable pub select_backup_node : String → Manager → Option String
select_backup_node source m = select (can_take_over source) (λ n. n.priority) m.nodes

-- The second locked section: `self.nodes[target]` raises for a name that is not registered, after
-- the source is marked failed.
unfoldable pub switch_nodes : String → String → Exec Manager FailoverError Unit
switch_nodes source target = do
  modify_state
      (edit_node source (λ n. record n { status = failed; failover_count = n.failover_count + 1 }))
  known ← gets (λ m. contains target m.nodes)
  raise_if (not known) (key_error target)
  modify_state (λ m. record (edit_node target (set_status active) m) {
    active_node_id = some target;
    state = normal;
  })

-- What is recorded and sent once the nodes are switched.
unfoldable pub announce : String → String → ℕ → ℕ → Manager → Manager
announce source target duration now m =
    let event : SwitchRecord = record {
      source = source;
      target = target;
      duration = duration;
      timestamp = now;
    } in
    notify (on_failover event) (
      notify (journal "failover" source target duration true)
        (record m { failover_log = push_bounded log_length m.failover_log event }))

abbrev pub set_state : FailoverState → Manager → Manager
set_state st m = record m { state = st }

-- The target is asked for, or selected outside of the lock.
unfoldable pub fail_over : String → Option String → ℕ → ℕ → Exec Manager FailoverError FailoverReply
fail_over source target start now = do
  found ← gets (λ m. or_text target (select_backup_node source m))
  elim found [
    | none ↦ modify_state (set_state normal) >> pure no_healthy_backup
    | some t ↦ do
      switch_nodes source t
      modify_state (announce source t (now - start) now)
      pure (switched source t (now - start))
  ]

unfoldable pub trigger_failover :
    Option String → Option String → ℕ → ℕ → Exec Manager FailoverError FailoverReply
trigger_failover source_node_id target_node_id start now m =
    if in_progress m.state
    then (ok already_in_progress, m)
    else elim (or_text source_node_id m.active_node_id) [
      | none ↦ (ok no_active_node, m)
      | some source ↦
          if contains source m.nodes
          then fail_over source target_node_id start now (set_state failover_in_progress m)
          else (ok (source_not_found source), m)
    ]

unfoldable pub trigger_recovery : String → Manager → RecoveryReply × Manager
trigger_recovery k m = elim (lookup k m.nodes) [
  | none ↦ (node_not_found k, m)
  | some n ↦
      if is_failed n.status
      then (
        recovery_started k,
        notify (on_node_recovery k) (
            notify (journal "recovery" k "" 0 true)
              (edit_node k (λ q. record q { status = recovering; missed_heartbeats = 0 }) m)),
      )
      else (node_not_failed k n.status, m)
]

-- One turn of `_monitor_loop`: an exception ends the turn and is logged.
unfoldable pub monitor_failures : ℕ → List NodeFailure → Manager → Manager
monitor_failures now [] m = m
monitor_failures now (node_failure k _ _ _ _ ∷ fs) m =
    if holds_id m.active_node_id k
    then (let (r, m') = trigger_failover (some k) none now now m in
        elim r [ ok _ ↦ monitor_failures now fs m' | err _ ↦ m' ])
    else monitor_failures now fs m

unfoldable pub monitor_turn : ℕ → ℕ → ℕ → Manager → Manager
monitor_turn threshold interval now m =
    let (fs, m') = check_failures threshold interval now m in monitor_failures now fs m'
