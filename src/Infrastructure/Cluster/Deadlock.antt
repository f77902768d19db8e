-- ===== src/Infrastructure/Cluster/Deadlock.antt =====
-- The check for failed nodes of backend/infrastructure/multi_node.py, where the leader is one of them.
use dutchkem_trading_ai.Infrastructure.Cluster.Loads.{false_is_true}
use dutchkem_trading_ai.Common.Dict.{Dict, lookup}
use dutchkem_trading_ai.Common.{
  ℕ, ◌+◌, String, Option, none, some, Bool, true, false, List, [], ◌∷◌, if◌then◌else◌, str_eq, ◌≡◌,
  inl, inr, refl, arith, Bool-cases, Option-cases, sym, ap, ◌∙◌,
}
use dutchkem_trading_ai.Infrastructure.Cluster.{
  Member, member_failed, Orchestrator, Outcome, returned, waits, is_alive, elect_leader, fails,
  mark_failed_nodes, failed_ids, leader_is_dead, check_failovers, finished, register_node,
  heartbeat,
}

none_is_some : {A : Type 0} {a : A} → none ≡ some a → ⊥
none_is_some e = cc

some_of : {A : Type 0} {a b : A} → some a ≡ some b → a ≡ b
some_of e = cc

kept_heartbeat :
    (b : Bool) (x : Member)
    → (if b
        then record x { status = member_failed; failover_count = x.failover_count + 1 }
        else x).last_heartbeat
      ≡ x.last_heartbeat
kept_heartbeat true x = refl
kept_heartbeat false x = refl

second_branch :
    {A : Type 0} (b c : Bool) (x y z : A)
    → b ≡ false
    → c ≡ true
    → (if b then x else if c then y else z) ≡ y
second_branch true c x y z e f = absurd (false_is_true (sym e))
second_branch false true x y z e f = refl
second_branch false false x y z e f = absurd (false_is_true f)

marked_member :
    (now : ℕ) (k : String) (d : Dict Member) (n : Member)
    → lookup k d ≡ some n
    → (m : Member) × (lookup k (mark_failed_nodes now d) ≡ some m)
      × (m.last_heartbeat ≡ n.last_heartbeat)
unfolding lookup mark_failed_nodes
marked_member now k [] n e = absurd (none_is_some e)
marked_member now k ((j, x) ∷ d) n e = elim (Bool-cases (str_eq j k)) [
  | inl same ↦
      let f = some_of (rw same at e) in
      (
        if fails now x
            then record x { status = member_failed; failover_count = x.failover_count + 1 }
            else x,
        rw same refl,
        kept_heartbeat (fails now x) x ∙ ap (λ (y : Member). y.last_heartbeat) f,
      )
  | inr other ↦ let (m, f, g) = marked_member now k d n (rw other at e) in (m, rw other f, g)
]

unmarked_none :
    (now : ℕ) (k : String) (d : Dict Member)
    → lookup k d ≡ none
    → lookup k (mark_failed_nodes now d) ≡ none
unfolding lookup mark_failed_nodes
unmarked_none now k [] e = refl
unmarked_none now k ((j, x) ∷ d) e = elim (Bool-cases (str_eq j k)) [
  | inl same ↦ absurd (none_is_some (sym (rw same at e)))
  | inr other ↦ rw other (unmarked_none now k d (rw other at e))
]

alive_same :
    (now : ℕ) (m n : Member) → m.last_heartbeat ≡ n.last_heartbeat → is_alive now m ≡ is_alive now n
unfolding is_alive
alive_same now m n e = rw e refl

leader_is_dead-mark_failed_nodes :
    (now : ℕ) (l : Option String) (d : Dict Member)
    → leader_is_dead now l (mark_failed_nodes now d) ≡ leader_is_dead now l d
unfolding leader_is_dead
leader_is_dead-mark_failed_nodes now none d = refl
leader_is_dead-mark_failed_nodes now (some k) d = elim (Option-cases (lookup k d)) [
  | inl e ↦ rw (e, unmarked_none now k d e) refl
  | inr (n, e) ↦
      let (m, f, g) = marked_member now k d n e in ground (arith, e, f, alive_same now m n g)
]

-- A check whose lock is free, while the leader has been silent for 30 seconds, waits forever for the
-- lock that it holds itself: it never returns, and neither does any later registration, heartbeat,
-- election or check.
pub check_failovers-waits :
    (now : ℕ) (o : Orchestrator)
    → o.locked ≡ false
    → leader_is_dead now o.leader_id o.nodes ≡ true
    → let after = (check_failovers now o).1 in
      ((check_failovers now o).0 ≡ waits)
      × ((k h : String) (p t : ℕ) → (register_node k h p t after).0 ≡ waits)
      × ((k : String) (t : ℕ) → (heartbeat k t after).0 ≡ waits)
      × ((t : ℕ) → (elect_leader t after).0 ≡ waits)
      × ((t : ℕ) → (check_failovers t after).0 ≡ waits)
unfolding check_failovers finished elect_leader register_node heartbeat
check_failovers-waits now o free dead =
    let marked = mark_failed_nodes now o.nodes in
    let held : Orchestrator = record { nodes = marked; leader_id = none; locked = true } in
    let e : check_failovers now o ≡ (waits, held) =
      second_branch o.locked (leader_is_dead now o.leader_id marked) (waits, o) (waits, held)
        (returned (failed_ids now o.nodes), record o { nodes = marked }) free
        (leader_is_dead-mark_failed_nodes now o.leader_id o.nodes ∙ dead) in
    (
      ap (λ (r : Outcome (List String) × Orchestrator). r.0) e,
      λ k h p t. ap (λ (r : Outcome (List String) × Orchestrator). (register_node k h p t r.1).0) e,
      λ k t. ap (λ (r : Outcome (List String) × Orchestrator). (heartbeat k t r.1).0) e,
      λ t. ap (λ (r : Outcome (List String) × Orchestrator). (elect_leader t r.1).0) e,
      λ t. ap (λ (r : Outcome (List String) × Orchestrator). (check_failovers t r.1).0) e,
    )
