-- ===== src/Infrastructure/Failover/Switching.antt =====
-- What a switch to a backup node does: backend/infrastructure/failover_manager.py,
-- `_select_backup_node` and `trigger_failover`.
use dutchkem_trading_ai.Common.Int.{negsuc}
use dutchkem_trading_ai.Infrastructure.Selection.{
  Chosen-contains, truthy, select-best, Chosen, or_text, Below,
}
use dutchkem_trading_ai.Payments.Korapay.{failed}
use dutchkem_trading_ai.Common.Exec.{ok, err, ◌>>=◌}
use dutchkem_trading_ai.Common.Dict.{lookup, lookup-modify, modify, contains, Dict}
use dutchkem_trading_ai.Common.{
  eq_iff, eq_refl, Bool-cases, refl, str_eq, Option-cases, inr, inl, ◌⊎◌, arith, ◌+◌, Option, some,
  none, ℕ, String, ◌≡◌, true, false, ◌-◌,
}
use dutchkem_trading_ai.Infrastructure.Failover.{
  truthy, trigger_failover, set_state, announce, or_text, can_take_over, ◌>>=◌, switch_nodes,
  select_backup_node, fail_over, Dict,
}
use dutchkem_trading_ai.Infrastructure.Nodes.{
  source_not_found, failover_in_progress, no_active_node, already_in_progress, in_progress,
  FailoverReply, switched, no_healthy_backup, key_error, normal, failed, active, Node, Manager,
  edit_node, set_status,
}

abbrev pub fail_node : Node → Node
fail_node n = record n { status = failed; failover_count = n.failover_count + 1 }

abbrev pub switched_manager : String → String → Manager → Manager
switched_manager source t m =
    record (edit_node t (set_status active) (edit_node source fail_node m)) {
      active_node_id = some t;
      state = normal;
    }

contains-modify :
    {V : Type 0} (k j : String) (f : V → V) (d : Dict V) → contains j (modify k f d) ≡ contains j d
contains-modify k j f d = ground (arith, lookup-modify k j f d)

switch_nodes-ok :
    (source t : String) (m : Manager)
    → contains t m.nodes ≡ true
    → switch_nodes source t m ≡ (ok tt, switched_manager source t m)
unfolding switch_nodes ◌>>=◌
switch_nodes-ok source t m h = ground (arith, contains-modify source t fail_node m.nodes)

switch_nodes-err :
    (source t : String) (m : Manager)
    → contains t m.nodes ≡ false
    → switch_nodes source t m ≡ (err (key_error t), edit_node source fail_node m)
unfolding switch_nodes ◌>>=◌
switch_nodes-err source t m h = ground (arith, contains-modify source t fail_node m.nodes)

pub fail_over-ok :
    (source t : String) (target : Option String) (start now : ℕ) (m : Manager)
    → or_text target (select_backup_node source m) ≡ some t
    → contains t m.nodes ≡ true
    → fail_over source target start now m ≡ (
      ok (switched source t (now - start)),
      announce source t (now - start) now (switched_manager source t m),
    )
unfolding fail_over ◌>>=◌
fail_over-ok source t target start now m h c = ground (arith, switch_nodes-ok source t m c)

pub fail_over-none :
    (source : String) (target : Option String) (start now : ℕ) (m : Manager)
    → or_text target (select_backup_node source m) ≡ none
    → fail_over source target start now m ≡ (ok no_healthy_backup, set_state normal m)
unfolding fail_over ◌>>=◌
fail_over-none source target start now m h = ground arith

pub fail_over-err :
    (source t : String) (target : Option String) (start now : ℕ) (m : Manager)
    → or_text target (select_backup_node source m) ≡ some t
    → contains t m.nodes ≡ false
    → fail_over source target start now m ≡ (err (key_error t), edit_node source fail_node m)
unfolding fail_over ◌>>=◌
fail_over-err source t target start now m h c = ground (arith, switch_nodes-err source t m c)

-- The backup that is selected is a registered node other than the source, not marked failed and
-- with a priority of at least 0, and no other such node has a higher priority; where none is
-- selected, there is no such node.
pub select_backup_node-best :
    (source : String) (m : Manager)
    → ((select_backup_node source m ≡ none)
        × Below (can_take_over source) (λ n. n.priority) (negsuc 0) m.nodes)
      ⊎ ((t : String) × (select_backup_node source m ≡ some t)
          × Chosen (can_take_over source) (λ n. n.priority) (negsuc 0) t m.nodes)
unfolding select_backup_node
select_backup_node-best source m = select-best (can_take_over source) (λ n. n.priority) m.nodes

truthy-some : (o : Option String) {t : String} → truthy o ≡ some t → o ≡ some t
unfolding truthy
truthy-some none h = ground arith
truthy-some (some s) h = ground arith

or_text-none : (o : Option String) → or_text none o ≡ truthy o
unfolding or_text truthy
or_text-none o = ground arith

-- A selected backup is registered.
selected-contains :
    (source : String) (m : Manager) {t : String}
    → or_text none (select_backup_node source m) ≡ some t
    → contains t m.nodes ≡ true
selected-contains source m {t} h = elim (select_backup_node-best source m) [
  | inl (e, _) ↦ ground (
    arith,
    or_text-none (select_backup_node source m),
    truthy-some (select_backup_node source m) {t = t},
  )
  | inr (k, e, c) ↦ ground (
    arith,
    or_text-none (select_backup_node source m),
    truthy-some (select_backup_node source m) {t = t},
    Chosen-contains (can_take_over source) (λ n. n.priority) (negsuc 0) k m.nodes c,
  )
]

-- A failover that chooses its target does not raise, and is not in progress once it returns.
fail_over-settles :
    (source : String) (start now : ℕ) (m : Manager)
    → (r : FailoverReply) × ((fail_over source none start now m).0 ≡ ok r)
      × (in_progress (fail_over source none start now m).1.state ≡ false)
unfolding announce
fail_over-settles source start now m =
    elim (Option-cases (or_text none (select_backup_node source m))) [
      | inl e ↦ (
        no_healthy_backup,
        rw (fail_over-none source none start now m e) refl,
        rw (fail_over-none source none start now m e) refl,
      )
      | inr (t, e) ↦
          let eq = fail_over-ok source t none start now m e (selected-contains source m e) in
          (switched source t (now - start), rw eq refl, rw eq refl)
    ]

-- A failover whose target is left to the manager returns a reply and never raises, whatever source
-- it is asked for, and none is in progress after it if none was in progress before.
pub trigger_failover-settles :
    (source : Option String) (start now : ℕ) (m : Manager)
    → in_progress m.state ≡ false
    → (r : FailoverReply) × ((trigger_failover source none start now m).0 ≡ ok r)
      × (in_progress (trigger_failover source none start now m).1.state ≡ false)
unfolding trigger_failover
trigger_failover-settles source start now m h =
    elim (Option-cases (or_text source m.active_node_id)) [
      | inl e ↦ (no_active_node, ground arith, ground arith)
      | inr (k, e) ↦ elim (Bool-cases (contains k m.nodes)) [
        | inl c ↦
            let (r, a, b) = fail_over-settles k start now (set_state failover_in_progress m) in
            (r, ground arith, ground arith)
        | inr c ↦ (source_not_found k, ground arith, ground arith)
      ]
    ]

-- A failover that is asked for with a source that is registered and a target that is not raises
-- KeyError with the source already marked failed, and leaves the manager in the middle of a
-- failover: every later failover is refused without a change of state.
pub unknown_target_blocks :
    (source target : String) (start now : ℕ) (m : Manager)
    → in_progress m.state ≡ false
    → str_eq source "" ≡ false
    → str_eq target "" ≡ false
    → contains source m.nodes ≡ true
    → contains target m.nodes ≡ false
    → (m' : Manager) × (trigger_failover (some source) (some target) start now m
        ≡ (err (key_error target), m'))
      × ((s t : Option String) (b n : ℕ)
          → trigger_failover s t b n m' ≡ (ok already_in_progress, m'))
unfolding trigger_failover or_text truthy
unknown_target_blocks source target start now m h a b c d =
    let m' = set_state failover_in_progress m in
    (
      edit_node source fail_node m',
      ground (arith, fail_over-err source target (some target) start now m'),
      λ s t b n. refl,
    )

trigger_failover-ok :
    (source target : String) (start now : ℕ) (m : Manager)
    → in_progress m.state ≡ false
    → str_eq source "" ≡ false
    → str_eq target "" ≡ false
    → m.active_node_id ≡ some source
    → contains source m.nodes ≡ true
    → contains target m.nodes ≡ true
    → trigger_failover none (some target) start now m ≡ (
      ok (switched source target (now - start)),
      announce source target
          (now - start)
          now
          (switched_manager source target (set_state failover_in_progress m)),
    )
unfolding trigger_failover or_text truthy
trigger_failover-ok source target start now m h a b c d e =
    ground
      (arith, fail_over-ok source target (some target) start now (set_state failover_in_progress m))

switched-nodes :
    (source target : String) (q r : Node) (d : Dict Node)
    → lookup source d ≡ some q
    → lookup target d ≡ some r
    → str_eq source target ≡ false
    → let d' = modify target (set_status active) (modify source fail_node d) in
      (lookup target d' ≡ some (set_status active r)) × (lookup source d' ≡ some (fail_node q))
switched-nodes source target q r d a b c =
    let d' = modify source fail_node d in
    ground (
      arith,
      lookup-modify target target (set_status active) d',
      lookup-modify source target fail_node d,
      lookup-modify target source (set_status active) d',
      lookup-modify source source fail_node d,
      eq_refl target,
      eq_refl source,
      eq_iff source target,
      eq_iff target source,
    )

-- After a failover from an active node to a registered target other than it, the target is the
-- active node and is marked active, and the source is marked failed.
pub trigger_failover-switches :
    (source target : String) (q r : Node) (start now : ℕ) (m : Manager)
    → in_progress m.state ≡ false
    → str_eq source "" ≡ false
    → str_eq target "" ≡ false
    → m.active_node_id ≡ some source
    → lookup source m.nodes ≡ some q
    → lookup target m.nodes ≡ some r
    → str_eq source target ≡ false
    → let (reply, m') = trigger_failover none (some target) start now m in
      (reply ≡ ok (switched source target (now - start)))
      × (m'.active_node_id ≡ some target)
      × (lookup target m'.nodes ≡ some (set_status active r))
      × (lookup source m'.nodes ≡ some (fail_node q))
      × (in_progress m'.state ≡ false)
unfolding announce
trigger_failover-switches source target q r start now m h a b c d e f =
    let eq = trigger_failover-ok source target start now m h a b c (ground arith) (ground arith) in
    let (t, u) = switched-nodes source target q r m.nodes d e f in
    (rw eq refl, rw eq refl, rw eq t, rw eq u, rw eq refl)
