-- ===== src/Infrastructure/Pool/Acquiring.antt =====
-- What `acquire` of the pool of backend/infrastructure/mt5_pool.py hands out.
use dutchkem_trading_ai.Common.{
  subst, ◌∙◌, ltb→lt, ℕ, ◌+◌, ◌≤◌, ◌<◌, Option, none, some, true, false, List, [], ◌∷◌, ◌++◌, ltb,
  ◌==◌, length, ◌≡◌, ◌≢◌, ◌⊎◌, inl, inr, refl, arith, Bool-cases, sym, ap,
}
use dutchkem_trading_ai.Infrastructure.Balancer.{
  Connection, in_use, is_available, is_idle, select_connection,
}
use dutchkem_trading_ai.Infrastructure.Balancer.Choice.{
  select_connection-TurnsOn, TurnsOn, In, IsBest, Selected, select_connection-Selected,
}
use dutchkem_trading_ai.Infrastructure.Pool.{
  Pool, edit, take_connection, new_connection, acquire_new, acquire_selected, acquire,
}

-- the identifiers ascend, from above the first bound up to the second
abbrev pub Ascending : ℕ → ℕ → List Connection → Type 0
Ascending low high [] = low ≤ high
Ascending low high (c ∷ cs) = low < c.conn_id × Ascending c.conn_id high cs

pub record IsSound (p : Pool) : Type 0 where
  pub within : length p.connections ≤ p.max_connections
  pub ascending : Ascending 0 p.conn_counter p.connections

-- Nothing is available, or there is room for no more.
abbrev pub NoneAvailable : Pool → Type 0
NoneAvailable p = (d : Connection) → In d p.connections → is_available d ≡ false

abbrev pub FromPool : ℕ → ℕ → ℕ → Pool → Pool → Type 0
FromPool now pick i p p' =
    (c : Connection) × In c p.connections
    × (is_available c ≡ true)
    × IsBest p.strategy p.round_robin_index pick c p.connections
    × (c.conn_id ≡ i)
    × (p'.connections ≡ edit i (take_connection now) p.connections)
    × (p'.conn_counter ≡ p.conn_counter)

abbrev pub Fresh : ℕ → ℕ → Pool → Pool → Type 0
Fresh now i p p' =
    NoneAvailable p
    × (length p.connections < p.max_connections)
    × (i ≡ p.conn_counter + 1)
    × (p'.connections ≡ p.connections ++ take_connection now (new_connection now i) ∷ [])
    × (p'.conn_counter ≡ i)

abbrev pub Acquired : ℕ → ℕ → Pool → Option ℕ × Pool → Type 0
Acquired now pick p (none, p') =
    NoneAvailable p
    × (p.max_connections ≤ length p.connections)
    × (p'.connections ≡ p.connections)
    × (p'.conn_counter ≡ p.conn_counter)
Acquired now pick p (some i, p') = FromPool now pick i p p' ⊎ Fresh now i p p'

available_idle : (c : Connection) → is_available c ≡ true → is_idle c.state ≡ true
unfolding is_available
available_idle c h = ground arith

acquire_new-Acquired :
    (now pick turn : ℕ) (p : Pool)
    → NoneAvailable p
    → Acquired now pick p (acquire_new now (record p { round_robin_index = turn }))
unfolding acquire_new
acquire_new-Acquired now pick turn p h =
    elim (Bool-cases (ltb (length p.connections) p.max_connections)) [
      | inl e ↦ rw e (inr (h, ltb→lt (length p.connections) p.max_connections e, refl, refl, refl))
      | inr e ↦ rw e (h, ground arith, refl, refl)
    ]

acquire_selected-Acquired :
    (now pick turn : ℕ) (p : Pool) (o : Option Connection)
    → Selected p.strategy p.round_robin_index pick p.connections o
    → Acquired now pick p (acquire_selected now o (record p { round_robin_index = turn }))
unfolding acquire_selected
acquire_selected-Acquired now pick turn p none h = acquire_new-Acquired now pick turn p h
acquire_selected-Acquired now pick turn p (some c) h =
    rw (available_idle c h.1) (inl (c, h.0, h.1, h.2, refl, refl, refl))

acquire_new-turn :
    (now : ℕ) (p : Pool) → (acquire_new now p).1.round_robin_index ≡ p.round_robin_index
unfolding acquire_new
acquire_new-turn now p = ground arith

acquire_selected-turn :
    (now : ℕ) (o : Option Connection) (p : Pool)
    → (acquire_selected now o p).1.round_robin_index ≡ p.round_robin_index
unfolding acquire_selected
acquire_selected-turn now none p = acquire_new-turn now p
acquire_selected-turn now (some c) p = ground (arith, acquire_new-turn now p)

pub acquire-Acquired :
    (now pick : ℕ) (p : Pool)
    → Acquired now pick p (acquire now pick p)
      × TurnsOn p.strategy p.round_robin_index p.connections
          (acquire now pick p).1.round_robin_index
unfolding acquire
acquire-Acquired now pick p =
    let r = select_connection p.strategy p.round_robin_index pick p.connections in
    let t = acquire_selected-turn now r.0 (record p { round_robin_index = r.1 }) in
    (
      acquire_selected-Acquired now pick r.1 p r.0
          (select_connection-Selected p.strategy p.round_robin_index pick p.connections),
      subst (TurnsOn p.strategy p.round_robin_index p.connections) (sym t)
          (select_connection-TurnsOn p.strategy p.round_robin_index pick p.connections),
    )

Ascending-le : (low high : ℕ) (cs : List Connection) → Ascending low high cs → low ≤ high
Ascending-le low high [] a = a
Ascending-le low high (c ∷ cs) a = omega (arith, a.0, Ascending-le c.conn_id high cs a.1)

In-bounds :
    (low high : ℕ) (d : Connection) (cs : List Connection)
    → Ascending low high cs
    → In d cs
    → (low < d.conn_id) × (d.conn_id ≤ high)
In-bounds low high d [] a h = elim h [ ]
In-bounds low high d (c ∷ cs) a (inl e) = rw e (a.0, Ascending-le c.conn_id high cs a.1)
In-bounds low high d (c ∷ cs) a (inr h) =
    let b = In-bounds c.conn_id high d cs a.1 h in (omega (arith, a.0, b.0), b.1)

-- identifiers are unique
In-unique :
    (low high : ℕ) (c d : Connection) (cs : List Connection)
    → Ascending low high cs
    → In c cs
    → In d cs
    → c.conn_id ≡ d.conn_id
    → c ≡ d
In-unique low high c d [] a h k e = elim h [ ]
In-unique low high c d (x ∷ cs) a (inl f) (inl g) e = f ∙ sym g
In-unique low high c d (x ∷ cs) a (inl f) (inr k) e =
    let b = In-bounds x.conn_id high d cs a.1 k in
    absurd (omega (arith, b.0, e, ap (λ (y : Connection). y.conn_id) f))
In-unique low high c d (x ∷ cs) a (inr h) (inl g) e =
    let b = In-bounds x.conn_id high c cs a.1 h in
    absurd (omega (arith, b.0, e, ap (λ (y : Connection). y.conn_id) g))
In-unique low high c d (x ∷ cs) a (inr h) (inr k) e = In-unique x.conn_id high c d cs a.1 h k e

In-edit :
    (i : ℕ) (f : Connection → Connection) (d : Connection) (cs : List Connection)
    → d.conn_id ≢ i
    → In d cs
    → In d (edit i f cs)
In-edit i f d [] n h = elim h [ ]
In-edit i f d (c ∷ cs) n (inl e) = elim (Bool-cases (c.conn_id == i)) [
  | inl same ↦ absurd (n (ap (λ (y : Connection). y.conn_id) e ∙ ground arith))
  | inr other ↦ rw other (inl e)
]
In-edit i f d (c ∷ cs) n (inr h) = elim (Bool-cases (c.conn_id == i)) [
  | inl same ↦ rw same (inr h)
  | inr other ↦ rw other (inr (In-edit i f d cs n h))
]

In-append : (d : Connection) (cs ds : List Connection) → In d cs → In d (cs ++ ds)
In-append d [] ds h = elim h [ ]
In-append d (c ∷ cs) ds (inl e) = inl e
In-append d (c ∷ cs) ds (inr h) = inr (In-append d cs ds h)

in_use_unavailable : (c : Connection) → c.state ≡ in_use → is_available c ≡ false
unfolding is_available
in_use_unavailable c h = rw h refl

abbrev pub Excludes : Connection → Option ℕ × Pool → Type 0
Excludes d (r, p') = (r ≢ some d.conn_id) × In d p'.connections

false_is_true : false ≡ true → ⊥
false_is_true e = cc

none_is_some : {A : Type 0} {a : A} → none ≡ some a → ⊥
none_is_some e = cc

some_of : {i j : ℕ} → some i ≡ some j → i ≡ j
some_of e = cc

clash : (c d : Connection) → is_available c ≡ true → d.state ≡ in_use → c ≡ d → ⊥
clash c d a u e = false_is_true (sym (in_use_unavailable d u) ∙ ap is_available (sym e) ∙ a)

excluded :
    (now pick : ℕ) (p : Pool) (d : Connection)
    → IsSound p
    → In d p.connections
    → d.state ≡ in_use
    → (r : Option ℕ) (p' : Pool) → Acquired now pick p (r, p')
    → Excludes d (r, p')
excluded now pick p d s h u none p' a = (λ e. none_is_some e, rw a.2 h)
excluded now pick p d s h u (some i) p' (inl (c, k, a, b, e, f, g)) =
    let n : d.conn_id ≢ i = λ q.
      clash c d a u (In-unique 0 p.conn_counter c d p.connections s.ascending k h (e ∙ sym q)) in
    (λ q. n (sym (some_of q)), rw f (In-edit i (take_connection now) d p.connections n h))
excluded now pick p d s h u (some i) p' (inr (a, b, e, f, g)) =
    let k = In-bounds 0 p.conn_counter d p.connections s.ascending h in
    (
      λ q. omega (arith, k.1, e, some_of q),
      rw f (In-append d p.connections (take_connection now (new_connection now i) ∷ []) h),
    )

-- In a pool within its size whose identifiers ascend, as in every run, a connection that is in use is
-- not handed out again by a call of `acquire`, and stays in the pool as it was.
pub acquire-Excludes :
    (now pick : ℕ) (p : Pool) (d : Connection)
    → IsSound p
    → In d p.connections
    → d.state ≡ in_use
    → Excludes d (acquire now pick p)
acquire-Excludes now pick p d s h u =
    excluded now pick p d s h u (acquire now pick p).0 (acquire now pick p).1
      (acquire-Acquired now pick p).0
