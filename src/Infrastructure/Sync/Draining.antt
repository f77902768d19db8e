-- ===== src/Infrastructure/Sync/Draining.antt =====
-- The loop over the pending syncs, `drain` of backend/infrastructure/state_sync.py.
use dutchkem_trading_ai.Infrastructure.Sync.Fifo.{enqueue_lem}
use dutchkem_trading_ai.Infrastructure.Sync.RoundTrip.{written, sync_state-steady}
use dutchkem_trading_ai.Common.{
  length-append, ◌++◌, drop, ◌-◌, false, ◌≤◌, ◌∙◌, suc, ap, refl, arith, ◌<◌, length, true, All, ℕ,
  String, Option, none, some, Bool, ◌≡◌, List, [], ◌∷◌, ◌+◌, if◌then◌else◌,
}
use dutchkem_trading_ai.Infrastructure.Documents.{Document}
use dutchkem_trading_ai.Infrastructure.Sync.Buffer.{StateBuffer, dequeue_from, Pending, dequeue}
use dutchkem_trading_ai.Infrastructure.Sync.Replicas.{
  SyncReply, buffered, stamped, Link, steady, Synchronizer, returned, index_error, sync_state,
}

-- One round of the loop: what the client is at its call of `sync_state`, and the time.
pub record Round : Type 0 where
  pub client : Option Link
  pub at : ℕ

-- Where the loop is after the given rounds.
pub data Progress : Type 0 where
  finished : ℕ → Progress
  running : ℕ → Progress
  stopped : Progress

abbrev counted : Bool → ℕ → ℕ
counted b n = if b then n + 1 else n

module _ (dumps : Document → String) (loads : String → Option Document) (digest : Document → String)
    (print : ℕ → String) where
  unfoldable pub drain : List Round → ℕ → Synchronizer → Progress × Synchronizer
  unfolding dequeue sync_state
  drain [] n s = (running n, s)
  drain (r ∷ rs) n s =
      let (item, b) = dequeue s.buffer in
      let s' : Synchronizer = record s { buffer = b } in
      elim item [
        | none ↦ (finished n, s')
        | some i ↦
            let (reply, s'') = sync_state dumps loads digest print r.client r.at i.key i.state s' in
            elim reply [
              | index_error ↦ (stopped, s'')
              | returned done ↦ drain rs (counted done n) s''
            ]
      ]

  unfoldable pub process_buffered_syncs : List Round → Synchronizer → Progress × Synchronizer
  unfolding drain
  process_buffered_syncs rounds s = drain rounds 0 s

  abbrev pub HasClient : Round → Type 0
  HasClient r = r.client ≡ some steady

  abbrev pub HasNoClient : Round → Type 0
  HasNoClient r = r.client ≡ none

  sent :
      (r : Round) (i : Pending) (s : Synchronizer)
      → HasClient r
      → (s' : Synchronizer) × (sync_state dumps loads digest print r.client r.at i.key i.state s
          ≡ (returned true, s'))
        × (s'.buffer ≡ s.buffer)
  sent r i s h =
      let e = sync_state-steady dumps loads digest print r.at i.key i.state s in
      (
        record s {
          redis =
              written dumps loads digest print i.key
                (stamped dumps loads digest print s.node_id r.at i.state) s.node_id r.at s.redis;
        },
        rw h e,
        refl,
      )

  -- a turn of the loop whose call returns
  drain-turn :
      (r : Round) (rs : List Round) (n : ℕ) (s s' : Synchronizer) (i : Pending) (is : List Pending)
      (b : Bool)
      → s.buffer.items ≡ i ∷ is
      → sync_state dumps loads digest print r.client r.at i.key i.state
          (record s { buffer = record s.buffer { items = is } })
        ≡ (returned b, s')
      → drain (r ∷ rs) n s ≡ drain rs (counted b n) s'
  unfolding drain dequeue dequeue_from
  drain-turn r rs n s s' i is b e f =
      rw (e, dequeue_from)
        (rw (f, drain) (ap (λ (p : SyncReply × Synchronizer). drain rs (counted b n) p.1) f))

  drain-empty :
      (r : Round) (rs : List Round) (n : ℕ) (s : Synchronizer)
      → s.buffer.items ≡ []
      → ((drain (r ∷ rs) n s).0 ≡ finished n) × ((drain (r ∷ rs) n s).1.buffer.items ≡ [])
  unfolding drain dequeue dequeue_from
  drain-empty r rs n s e = rw (e, dequeue_from) (refl, refl)

  drain-sends :
      (rs : List Round) (items : List Pending) (n : ℕ) (s : Synchronizer)
      → All HasClient rs
      → s.buffer.items ≡ items
      → length items < length rs
      → ((drain rs n s).0 ≡ finished (n + length items)) × ((drain rs n s).1.buffer.items ≡ [])
  drain-sends [] items n s c e h = absurd (omega arith)
  drain-sends (r ∷ rs) [] n s c e h = let d = drain-empty r rs n s e in (rw d.0 (ground arith), d.1)
  drain-sends (r ∷ rs) (i ∷ is) n s c e h =
      let (s', f, g) = sent r i (record s { buffer = record s.buffer { items = is } }) c.0 in
      let rest =
        drain-sends rs is (n + 1) s' c.1 (ap (λ (x : StateBuffer). x.items) g) (omega arith) in
      let sum : n + 1 + length is ≡ n + suc (length is) = omega arith in
      rw (drain-turn r rs n s s' i is true e f) (rest.0 ∙ ap finished sum, rest.1)

  -- With a working client at every round, the loop ends after at most one round more than there are
  -- pending syncs: it reports all of them as processed, and leaves the buffer empty.
  pub process_buffered_syncs-finishes :
      (rounds : List Round) (s : Synchronizer)
      → All HasClient rounds
      → length s.buffer.items < length rounds
      → ((process_buffered_syncs rounds s).0 ≡ finished (length s.buffer.items))
        × ((process_buffered_syncs rounds s).1.buffer.items ≡ [])
  unfolding process_buffered_syncs
  process_buffered_syncs-finishes rounds s c h =
      let d = drain-sends rounds s.buffer.items 0 s c refl h in (rw d.0 (ground arith), d.1)

  put_back :
      (r : Round) (i : Pending) (is : List Pending) (s : Synchronizer)
      → HasNoClient r
      → suc (length is) ≤ s.buffer.max_size
      → (s' : Synchronizer) × (sync_state dumps loads digest print r.client r.at i.key i.state
            (record s { buffer = record s.buffer { items = is } })
          ≡ (returned false, s'))
        × (length s'.buffer.items ≡ suc (length is))
        × (s'.buffer.max_size ≡ s.buffer.max_size)
        × (s'.redis ≡ s.redis)
  unfolding sync_state buffered
  put_back r i is s h room =
      let b : StateBuffer = record s.buffer { items = is } in
      let i' : Pending = record { key = i.key; state = i.state; timestamp = r.at } in
      let room' : length is + 1 - s.buffer.max_size ≡ 0 = omega arith in
      let e = enqueue_lem i.key i.state r.at b (omega arith) (omega arith) in
      (
        record s {
          buffer = record s.buffer {
            items = drop (length is + 1 - s.buffer.max_size) is ++ i' ∷ [];
          };
        },
        rw (h, sync_state) (rw (e, buffered) refl),
        rw room' (omega (arith, length-append is (i' ∷ []))),
        refl,
        refl,
      )

  -- still running, with nothing processed, the buffer as large as before and Redis as it was
  pub record Spins (n size : ℕ) (s : Synchronizer) (progress : Progress) (s' : Synchronizer)
      : Type 0 where
    pub is_running : progress ≡ running n
    pub size_same : length s'.buffer.items ≡ size
    pub redis_same : s'.redis ≡ s.redis

  drain-Spins :
      (rs : List Round) (items : List Pending) (n : ℕ) (s : Synchronizer)
      → All HasNoClient rs
      → s.buffer.items ≡ items
      → 0 < length items
      → length items ≤ s.buffer.max_size
      → Spins n (length items) s (drain rs n s).0 (drain rs n s).1
  unfolding drain
  drain-Spins rs [] n s c e h room = absurd (omega arith)
  drain-Spins [] (i ∷ is) n s c e h room = record {
    is_running = refl;
    size_same = ap length e;
    redis_same = refl;
  }
  drain-Spins (r ∷ rs) (i ∷ is) n s c e h room =
      let (s', f, l, m, q) = put_back r i is s c.0 room in
      let rest =
        drain-Spins rs s'.buffer.items n s' c.1 refl (omega (arith, l)) (omega (arith, l, m)) in
      rw (drain-turn r rs n s s' i is false e f) (record {
        is_running = rest.is_running;
        size_same = rest.size_same ∙ l;
        redis_same = rest.redis_same ∙ q;
      })

  -- With no client at any round, a loop that starts on a buffer that is not empty never ends, however
  -- many rounds it makes: each round puts back what it took out, nothing is processed and Redis is
  -- left as it was. The buffer holds as many entries as before, within its size.
  pub process_buffered_syncs-Spins :
      (rounds : List Round) (s : Synchronizer)
      → All HasNoClient rounds
      → 0 < length s.buffer.items
      → length s.buffer.items ≤ s.buffer.max_size
      → Spins 0
          (length s.buffer.items)
          s
          (process_buffered_syncs rounds s).0
          (process_buffered_syncs rounds s).1
  unfolding process_buffered_syncs
  process_buffered_syncs-Spins rounds s c h room =
      drain-Spins rounds s.buffer.items 0 s c refl h room
