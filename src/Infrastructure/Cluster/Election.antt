-- ===== src/Infrastructure/Cluster/Election.antt =====
-- The election of a leader of backend/infrastructure/multi_node.py.
use dutchkem_trading_ai.Infrastructure.Cluster.Loads.{
  least_loaded-Least, false_is_true, NoLess, Least,
}
use dutchkem_trading_ai.Common.Dict.{Dict}
use dutchkem_trading_ai.Common.{
  not, ◌&&◌, ◌+◌, ltb, subst, ℕ, String, Option, none, some, Bool, true, false, [], ◌∷◌,
  if◌then◌else◌, str_eq, ◌≡◌, ◌⊎◌, inl, inr, refl, arith, Bool-cases, sym, Among,
}
use dutchkem_trading_ai.Infrastructure.Cluster.{
  is_alive, Member, MemberStatus, member_active, member_standby, Orchestrator, Outcome, returned,
  waits, is_active, is_candidate, least_loaded, seat, install, elect_leader, known_leader,
}

abbrev was_leader : Option String → String → Bool
was_leader none k = false
was_leader (some j) k = str_eq k j

-- heard from within 30 seconds, and not the leader before
abbrev pub eligible : ℕ → Option String → String → Member → Bool
eligible now leader k n = ltb now (n.last_heartbeat + 30) && not (was_leader leader k)

-- After an election: exactly the leader is active.
abbrev pub OnlyActive : String → Dict Member → Type 0
OnlyActive leader d = (e : String × Member) → Among e d → is_active e.1.status ≡ str_eq e.0 leader

stands_by : (s : MemberStatus) → is_active (if is_active s then member_standby else s) ≡ false
stands_by s = elim (Bool-cases (is_active s)) [ inl e ↦ rw e refl | inr e ↦ rw e e ]

seated :
    (leader k : String) (s : MemberStatus)
    → is_active
        (if str_eq k leader then member_active else if is_active s then member_standby else s)
      ≡ str_eq k leader
seated leader k s = elim (Bool-cases (str_eq k leader)) [
  | inl e ↦ rw e refl
  | inr e ↦ rw e (stands_by s)
]

seat-OnlyActive : (leader : String) (d : Dict Member) → OnlyActive leader (seat leader d)
unfolding seat
seat-OnlyActive leader [] e m = absurd m
seat-OnlyActive leader ((k, n) ∷ d) e (inl f) = rw f (seated leader k n.status)
seat-OnlyActive leader ((k, n) ∷ d) e (inr m) = seat-OnlyActive leader d e m

abbrev pub Elected : ℕ → Orchestrator → Outcome (Option String) → Orchestrator → Type 0
Elected now o waits o' = ⊥
Elected now o (returned none) o' =
    (o' ≡ o) × ((e : String × Member) → Among e o.nodes → eligible now o.leader_id e.0 e.1 ≡ false)
Elected now o (returned (some k)) o' =
    ((o' ≡ o)
      × (o.leader_id ≡ some k)
      × ((e : String × Member) → Among e o.nodes → eligible now o.leader_id e.0 e.1 ≡ false))
    ⊎ ((n : Member) × Among (k, n) o.nodes
        × (eligible now o.leader_id k n ≡ true)
        × NoLess (eligible now o.leader_id) n.load_score o.nodes
        × (o'.leader_id ≡ some k)
        × OnlyActive k o'.nodes)

known_leader-same :
    (l : Option String) (d : Dict Member) (k : String) → known_leader l d ≡ some k → l ≡ some k
known_leader-same none d k h = h
known_leader-same (some j) d k h = ground arith

none_Elected :
    (now : ℕ) (o : Orchestrator) (r : Option String)
    → known_leader o.leader_id o.nodes ≡ r
    → ((e : String × Member) → Among e o.nodes → eligible now o.leader_id e.0 e.1 ≡ false)
    → Elected now o (returned r) o
none_Elected now o none e h = (refl, h)
none_Elected now o (some k) e h = inl (refl, known_leader-same o.leader_id o.nodes k e, h)

install-Elected :
    (now : ℕ) (o : Orchestrator) (best : Option (String × ℕ))
    → Least (eligible now o.leader_id) o.nodes best
    → Elected now o (returned (install best o).0) (install best o).1
unfolding install
install-Elected now o none h = none_Elected now o (known_leader o.leader_id o.nodes) refl h
install-Elected now o (some (k, load)) (n, a, b, c, r) =
    inr (n, a, b, λ x m q. rw c (r x m q), refl, seat-OnlyActive k o.nodes)

second_of : {A : Type 0} (b : Bool) (x y : A) → b ≡ false → (if b then x else y) ≡ y
second_of true x y e = absurd (false_is_true (sym e))
second_of false x y e = refl

-- An election that finds the lock free ends with a leader that is alive, was not the leader before,
-- and has the least load of all such nodes, and when the call returns it alone is active; or, if there
-- is no such node, with the leader of before or with none, and nothing changes.
pub elect_leader-Elected :
    (now : ℕ) (o : Orchestrator)
    → o.locked ≡ false
    → Elected now o (elect_leader now o).0 (elect_leader now o).1
unfolding elect_leader is_candidate is_alive
elect_leader-Elected now o free =
    let best = least_loaded (eligible now o.leader_id) none o.nodes in
    let e : elect_leader now o ≡ (returned (install best o).0, (install best o).1) =
      second_of o.locked (waits, o) (returned (install best o).0, (install best o).1) free in
    subst (λ (r : Outcome (Option String) × Orchestrator). Elected now o r.0 r.1) (sym e)
      (install-Elected now o best (least_loaded-Least (eligible now o.leader_id) o.nodes))
