-- ===== src/Infrastructure/Pool/Upkeep.antt =====
-- The health check and the reconnection of the pool of backend/infrastructure/mt5_pool.py, and the
-- invariant of all its operations.
use dutchkem_trading_ai.Common.{
  ◌∙◌, ℕ, suc, ◌+◌, ◌≤◌, ◌<◌, Option, none, some, Bool, List, [], ◌∷◌, ◌++◌, ◌==◌, length, ◌≡◌, inl,
  inr, refl, arith, Bool-cases, ap, length-append,
}
use dutchkem_trading_ai.Infrastructure.Balancer.{select_connection, Connection, idle, error, keep}
use dutchkem_trading_ai.Infrastructure.Pool.Acquiring.{
  Ascending, IsSound, Acquired, acquire-Acquired,
}
use dutchkem_trading_ai.Infrastructure.Pool.{
  acquire_new, acquire_selected, Pool, edit, take_connection, new_connection, acquire, release,
  update_latency, mark_error, health_check, reconnect_connection, reconnected, examine, examine_all,
  is_open, holds,
}

abbrev KeepsId : (Connection → Connection) → Type 0
KeepsId f = (c : Connection) → (f c).conn_id ≡ c.conn_id

edit-Ascending :
    (i : ℕ) (f : Connection → Connection) (low high : ℕ) (cs : List Connection)
    → KeepsId f
    → Ascending low high cs
    → Ascending low high (edit i f cs)
edit-Ascending i f low high [] k a = a
edit-Ascending i f low high (c ∷ cs) k a = elim (Bool-cases (c.conn_id == i)) [
  | inl e ↦ rw e (omega (arith, a.0, k c), rw (k c) a.1)
  | inr e ↦ rw e (a.0, edit-Ascending i f c.conn_id high cs k a.1)
]

length-edit :
    (i : ℕ) (f : Connection → Connection) (cs : List Connection) → length (edit i f cs) ≡ length cs
length-edit i f [] = refl
length-edit i f (c ∷ cs) = elim (Bool-cases (c.conn_id == i)) [
  | inl e ↦ rw e refl
  | inr e ↦ rw e (ap suc (length-edit i f cs))
]

append-Ascending :
    (x : Connection) (low high : ℕ) (cs : List Connection)
    → high < x.conn_id
    → Ascending low high cs
    → Ascending low x.conn_id (cs ++ x ∷ [])
append-Ascending x low high [] h a = (omega (arith, h, a), omega arith)
append-Ascending x low high (c ∷ cs) h a = (a.0, append-Ascending x c.conn_id high cs h a.1)

weaken-Ascending :
    (low low' high : ℕ) (cs : List Connection)
    → low ≤ low'
    → Ascending low' high cs
    → Ascending low high cs
weaken-Ascending low low' high [] h a = omega (arith, h, a)
weaken-Ascending low low' high (c ∷ cs) h a = (omega (arith, h, a.0), a.1)

keep-Ascending :
    (p : Connection → Bool) (low high : ℕ) (cs : List Connection)
    → Ascending low high cs
    → Ascending low high (keep p cs)
unfolding keep
keep-Ascending p low high [] a = a
keep-Ascending p low high (c ∷ cs) a =
    let rest = keep-Ascending p c.conn_id high cs a.1 in
    elim (Bool-cases (p c)) [
      | inl e ↦ rw e (a.0, rest)
      | inr e ↦ rw e (weaken-Ascending low c.conn_id high (keep p cs) (omega (arith, a.0)) rest)
    ]

length-keep : (p : Connection → Bool) (cs : List Connection) → length (keep p cs) ≤ length cs
unfolding keep
length-keep p [] = omega arith
length-keep p (c ∷ cs) = elim (Bool-cases (p c)) [
  | inl e ↦ rw e (omega (arith, length-keep p cs))
  | inr e ↦ rw e (omega (arith, length-keep p cs))
]

examine-KeepsId : (now : ℕ) → KeepsId (examine now)
unfolding examine
examine-KeepsId now c = ground arith

examine_all-Ascending :
    (now low high : ℕ) (cs : List Connection)
    → Ascending low high cs
    → Ascending low high (examine_all now cs)
examine_all-Ascending now low high [] a = a
examine_all-Ascending now low high (c ∷ cs) a =
    let k = examine-KeepsId now c in
    (omega (arith, a.0, k), rw k (examine_all-Ascending now c.conn_id high cs a.1))

length-examine_all : (now : ℕ) (cs : List Connection) → length (examine_all now cs) ≡ length cs
length-examine_all now [] = refl
length-examine_all now (c ∷ cs) = ap suc (length-examine_all now cs)

-- One call, from any client or thread, each as one step.
pub data PoolStep : Pool → Pool → Type 0 where
  acquired : (now pick : ℕ) (p : Pool) → PoolStep p (acquire now pick p).1
  released : (now i : ℕ) (p : Pool) → PoolStep p (release now i p)
  measured : (i ms : ℕ) (p : Pool) → PoolStep p (update_latency i ms p)
  failed : (i : ℕ) (p : Pool) → PoolStep p (mark_error i p)
  checked : (now : ℕ) (p : Pool) → PoolStep p (health_check now p).1
  reconnected_again : (now i : ℕ) (p : Pool) → PoolStep p (reconnect_connection now i p).1

pub data PoolRun (size : ℕ) : Pool → Type 0 where
  started : (p : Pool) → p.max_connections ≡ size → p.connections ≡ [] → PoolRun size p
  then_call : {p p' : Pool} → PoolRun size p → PoolStep p p' → PoolRun size p'

acquire_selected-max :
    (now : ℕ) (o : Option Connection) (p : Pool)
    → (acquire_selected now o p).1.max_connections ≡ p.max_connections
unfolding acquire_selected acquire_new
acquire_selected-max now none p = ground arith
acquire_selected-max now (some c) p = ground arith

acquire-max : (now pick : ℕ) (p : Pool) → (acquire now pick p).1.max_connections ≡ p.max_connections
unfolding acquire
acquire-max now pick p =
    let r = select_connection p.strategy p.round_robin_index pick p.connections in
    acquire_selected-max now r.0 (record p { round_robin_index = r.1 })

take-KeepsId : (now : ℕ) → KeepsId (take_connection now)
unfolding take_connection
take-KeepsId now c = refl

Acquired-IsSound :
    (now pick : ℕ) (p : Pool)
    → IsSound p
    → (r : Option ℕ) (p' : Pool) → p'.max_connections ≡ p.max_connections
    → Acquired now pick p (r, p')
    → IsSound p'
unfolding take_connection new_connection
Acquired-IsSound now pick p s none p' m a = record {
  within = omega (arith, s.within, m, ap length a.2);
  ascending = rw (a.2, a.3) s.ascending;
}
Acquired-IsSound now pick p s (some i) p' m (inl (c, k, a, b, e, f, g)) = record {
  within =
      omega (arith, s.within, m, ap length f, length-edit i (take_connection now) p.connections);
  ascending =
      rw (f, g)
        (edit-Ascending i (take_connection now) 0 p.conn_counter p.connections (take-KeepsId now)
          s.ascending);
}
Acquired-IsSound now pick p s (some i) p' m (inr (a, b, e, f, g)) =
    let x = take_connection now (new_connection now i) in
    record {
      within = omega (arith, b, m, ap length f, length-append p.connections (x ∷ []));
      ascending =
          rw (f, g)
            (append-Ascending x 0 p.conn_counter p.connections (omega (arith, e)) s.ascending);
    }

edited-IsSound :
    (i : ℕ) (f : Connection → Connection) (p : Pool)
    → KeepsId f
    → IsSound p
    → IsSound (record p { connections = edit i f p.connections })
edited-IsSound i f p k s = record {
  within = omega (arith, s.within, length-edit i f p.connections);
  ascending = edit-Ascending i f 0 p.conn_counter p.connections k s.ascending;
}

reconnect-IsSound : (now i : ℕ) (p : Pool) → IsSound p → IsSound (reconnect_connection now i p).1
unfolding reconnect_connection reconnected
reconnect-IsSound now i p s = elim (Bool-cases (holds i p.connections)) [
  | inl e ↦
      let t = edited-IsSound i (reconnected now) p (λ c. refl) s in
      rw (e, reconnect_connection) (record { within = t.within; ascending = t.ascending })
  | inr e ↦ rw (e, reconnect_connection) s
]

reconnect-max :
    (now i : ℕ) (p : Pool) → (reconnect_connection now i p).1.max_connections ≡ p.max_connections
unfolding reconnect_connection
reconnect-max now i p = ground arith

PoolStep-IsSound :
    {p p' : Pool}
    → PoolStep p p'
    → IsSound p
    → IsSound p' × (p'.max_connections ≡ p.max_connections)
unfolding release update_latency mark_error health_check reconnect_connection reconnected
PoolStep-IsSound (acquired now pick p) s = (
  Acquired-IsSound now pick p s (acquire now pick p).0 (acquire now pick p).1
      (acquire-max now pick p) (acquire-Acquired now pick p).0,
  acquire-max now pick p,
)
PoolStep-IsSound (released now i p) s =
    (edited-IsSound i (λ c. record c { state = idle; last_used = now }) p (λ c. refl) s, refl)
PoolStep-IsSound (measured i ms p) s =
    (edited-IsSound i (λ c. record c { latency_ms = ms }) p (λ c. refl) s, refl)
PoolStep-IsSound (failed i p) s = (
  edited-IsSound i (λ c. record c { error_count = c.error_count + 1; state = error }) p (λ c. refl)
      s,
  refl,
)
PoolStep-IsSound (checked now p) s = (
  record {
    within = omega (
      arith,
      s.within,
      length-keep is_open (examine_all now p.connections),
      length-examine_all now p.connections,
    );
    ascending =
        keep-Ascending is_open 0 p.conn_counter (examine_all now p.connections)
          (examine_all-Ascending now 0 p.conn_counter p.connections s.ascending);
  },
  refl,
)
PoolStep-IsSound (reconnected_again now i p) s =
    (reconnect-IsSound now i p s, reconnect-max now i p)

-- In every run of a new pool, whatever calls clients and threads make and in whatever order, the pool
-- holds at most as many connections as it was made for, and no two of them have one identifier: the
-- identifiers ascend, up to the counter.
pub PoolRun-IsSound :
    {size : ℕ} {p : Pool} → PoolRun size p → IsSound p × (p.max_connections ≡ size)
PoolRun-IsSound (started p m e) =
    (record { within = omega (arith, ap length e); ascending = rw e (omega arith) }, m)
PoolRun-IsSound (then_call r st) =
    let (s, m) = PoolRun-IsSound r in let (s', m') = PoolStep-IsSound st s in (s', m' ∙ m)
