-- ===== src/Infrastructure/Sync/Fifo.antt =====
-- What the buffer of backend/infrastructure/state_sync.py promises: a stream of everything that was
-- ever enqueued, read in order, of which a reader that falls behind by more than the buffer's size
-- loses the oldest entries.
use dutchkem_trading_ai.Common.{
  subst, ◌∙◌, ap, Bool-cases, ℕ, zero, suc, String, Option, none, some, ◌≡◌, refl, List, [], ◌∷◌,
  ◌++◌, ◌+◌, ◌-◌, ◌≤◌, ◌<◌, arith, if◌then◌else◌, leb, length, drop, push_bounded, length-append,
  length-drop, inl, inr, sym,
}
use mathlib.Core.Path.{◌≡⟨◌⟩◌, ◌∎}
use dutchkem_trading_ai.Infrastructure.Documents.{Document}
use dutchkem_trading_ai.Infrastructure.Sync.Buffer.{
  Pending, StateBuffer, popleft, make_room, enqueue, dequeue, dequeue_from, BufferCall, put, take,
  run_calls,
}

pub record Stream : Type 0 where
  pub history : List Pending
  pub taken : ℕ

abbrev later : ℕ → ℕ → ℕ
later a b = if leb a b then b else a

abbrev pub write : ℕ → Pending → Stream → Stream
write size x s = record {
  history = s.history ++ x ∷ [];
  taken = later s.taken (length s.history + 1 - size);
}

abbrev pub read_rest : List Pending → Stream → Option Pending × Stream
read_rest [] s = (none, s)
read_rest (x ∷ xs) s = (some x, record s { taken = s.taken + 1 })

-- the entry at the reader's place, if there is one
abbrev pub read : Stream → Option Pending × Stream
read s = read_rest (drop s.taken s.history) s

unfoldable pub run_stream : ℕ → List BufferCall → Stream → List (Option Pending) × Stream
run_stream size [] s = ([], s)
run_stream size (put k d now ∷ cs) s =
    run_stream size cs (write size (record { key = k; state = d; timestamp = now }) s)
run_stream size (take ∷ cs) s =
    let (outs, s') = run_stream size cs (read s).1 in ((read s).0 ∷ outs, s')

pub record Refines (b : StateBuffer) (s : Stream) : Type 0 where
  pub items_eq : b.items ≡ drop s.taken s.history
  pub taken_le : s.taken ≤ length s.history
  pub within : length s.history ≤ s.taken + b.max_size

drop-append {ℓ} :
    {A : Type ℓ} (n : ℕ) (xs ys : List A) → n ≤ length xs → drop n (xs ++ ys) ≡ drop n xs ++ ys
drop-append zero xs ys h = refl
drop-append (suc n) [] ys h = elim h [ ]
drop-append (suc n) (x ∷ xs) ys h = drop-append n xs ys (omega arith)

drop-suc {ℓ} :
    {A : Type ℓ} (n : ℕ) (xs : List A) {y : A} {ys : List A}
    → drop n xs ≡ y ∷ ys
    → (drop (suc n) xs ≡ ys) × (n < length xs)
drop-suc zero [] h = cc
drop-suc zero (x ∷ xs) h = ground arith
drop-suc (suc n) [] h = cc
drop-suc (suc n) (x ∷ xs) h = let r = drop-suc n xs h in (r.0, omega (arith, r.1))

push_bounded-room {ℓ} :
    {A : Type ℓ} (size : ℕ) (xs : List A) (x : A)
    → length xs < size
    → push_bounded size xs x ≡ xs ++ x ∷ []
unfolding push_bounded
push_bounded-room size xs x h = let e : length xs + 1 - size ≡ 0 = omega arith in rw e refl

make_room_lem :
    (size : ℕ) (xs : List Pending)
    → 0 < size
    → length xs ≤ size
    → make_room size xs ≡ some (drop (length xs + 1 - size) xs)
unfolding make_room popleft
make_room_lem size [] pos fits = let e : 0 + 1 - size ≡ 0 = omega arith in rw e (ground arith)
make_room_lem size (x ∷ xs) pos fits = elim (Bool-cases (leb size (length (x ∷ xs)))) [
  | inl full ↦ let e : length (x ∷ xs) + 1 - size ≡ 1 = ground arith in rw (full, e) refl
  | inr more ↦ let e : length (x ∷ xs) + 1 - size ≡ 0 = ground arith in rw (more, e) refl
]

-- A buffer within its size keeps its newest entries behind the new one, and no call of it raises.
pub enqueue_lem :
    (k : String) (d : Document) (now : ℕ) (b : StateBuffer)
    → 0 < b.max_size
    → length b.items ≤ b.max_size
    → enqueue k d now b
      ≡ some (record b {
        items =
            drop (length b.items + 1 - b.max_size) b.items
            ++ record { key = k; state = d; timestamp = now } ∷ [];
      })
unfolding enqueue
enqueue_lem k d now b pos fits =
    let kept = drop (length b.items + 1 - b.max_size) b.items in
    let short : length kept < b.max_size =
      omega (arith, length-drop (length b.items + 1 - b.max_size) b.items) in
    rw (make_room_lem b.max_size b.items pos fits, enqueue)
      (rw (push_bounded-room b.max_size kept (record { key = k; state = d; timestamp = now }) short)
        refl)

drop_nil {ℓ} : {A : Type ℓ} (n : ℕ) → drop {A = A} n [] ≡ []
drop_nil zero = refl
drop_nil (suc n) = refl

drop-drop {ℓ} : {A : Type ℓ} (n m : ℕ) (xs : List A) → drop n (drop m xs) ≡ drop (m + n) xs
drop-drop n zero xs = let e : 0 + n ≡ n = omega arith in rw e refl
drop-drop n (suc m) [] = let e : suc m + n ≡ suc (m + n) = omega arith in rw e (drop_nil n)
drop-drop n (suc m) (x ∷ xs) =
    let e : suc m + n ≡ suc (m + n) = omega arith in rw e (drop-drop n m xs)

enqueue-Refines :
    (k : String) (d : Document) (now : ℕ) (b : StateBuffer) (s : Stream)
    → 0 < b.max_size
    → Refines b s
    → (b' : StateBuffer) × (enqueue k d now b ≡ some b')
      × (b'.max_size ≡ b.max_size)
      × Refines b' (write b.max_size (record { key = k; state = d; timestamp = now }) s)
enqueue-Refines k d now b s pos r =
    let x : Pending = record { key = k; state = d; timestamp = now } in
    let skip = length b.items + 1 - b.max_size in
    let size : length b.items ≡ length s.history - s.taken =
      ap length r.items_eq ∙ length-drop s.taken s.history in
    let next : later s.taken (length s.history + 1 - b.max_size) ≡ s.taken + skip =
      ground (arith, size) in
    (
      record b { items = drop skip b.items ++ x ∷ [] },
      enqueue_lem k d now b pos (omega (arith, r.within, size)),
      refl,
      record {
        items_eq =
            drop skip b.items ++ x ∷ []
            ≡⟨ ap (λ xs. drop skip xs ++ x ∷ []) r.items_eq ⟩
              drop skip (drop s.taken s.history) ++ x ∷ []
            ≡⟨ ap (λ xs. xs ++ x ∷ []) (drop-drop skip s.taken s.history) ⟩
              drop (s.taken + skip) s.history ++ x ∷ []
            ≡⟨ sym (drop-append (s.taken + skip) s.history (x ∷ []) (omega (arith, size, pos))) ⟩
              drop (s.taken + skip) (s.history ++ x ∷ [])
            ≡⟨ ap (λ n. drop n (s.history ++ x ∷ [])) (sym next) ⟩
              drop (later s.taken (length s.history + 1 - b.max_size)) (s.history ++ x ∷ []) ∎;
        taken_le = ground (arith, length-append s.history (x ∷ []));
        within = ground (arith, length-append s.history (x ∷ []));
      },
    )

dequeue_from-Refines :
    (xs : List Pending) (b : StateBuffer) (s : Stream)
    → b.items ≡ xs
    → drop s.taken s.history ≡ xs
    → Refines b s
    → ((dequeue_from xs b).0 ≡ (read_rest xs s).0)
      × Refines (dequeue_from xs b).1 (read_rest xs s).1
      × ((dequeue_from xs b).1.max_size ≡ b.max_size)
unfolding dequeue_from
dequeue_from-Refines [] b s e h r = (refl, r, refl)
dequeue_from-Refines (x ∷ xs) b s e h r =
    let d = drop-suc s.taken s.history h in
    let n : s.taken + 1 ≡ suc s.taken = omega arith in
    (
      refl,
      record {
        items_eq = sym (rw n d.0);
        taken_le = omega (arith, d.1);
        within = omega (arith, r.within);
      },
      refl,
    )

dequeue-Refines :
    (b : StateBuffer) (s : Stream)
    → Refines b s
    → ((dequeue b).0 ≡ (read s).0)
      × Refines (dequeue b).1 (read s).1
      × ((dequeue b).1.max_size ≡ b.max_size)
unfolding dequeue
dequeue-Refines b s r =
    subst
      (λ xs.
        ((dequeue_from b.items b).0 ≡ (read_rest xs s).0)
        × Refines (dequeue_from b.items b).1 (read_rest xs s).1
        × ((dequeue_from b.items b).1.max_size ≡ b.max_size))
      r.items_eq (dequeue_from-Refines b.items b s refl (sym r.items_eq) r)

abbrev Simulates : ℕ → List BufferCall → StateBuffer → Stream → Type 0
Simulates size calls b s =
    (b' : StateBuffer) × (run_calls calls b ≡ some ((run_stream size calls s).0, b'))
    × (length b'.items ≤ size)
    × Refines b' (run_stream size calls s).1

runs :
    (size : ℕ) (calls : List BufferCall) (b : StateBuffer) (s : Stream)
    → 0 < size
    → b.max_size ≡ size
    → Refines b s
    → Simulates size calls b s
unfolding run_calls run_stream
runs size [] b s pos z r =
    (b, refl, omega (arith, r.within, ap length r.items_eq, length-drop s.taken s.history), r)
runs size (put k d now ∷ cs) b s pos z r =
    let x : Pending = record { key = k; state = d; timestamp = now } in
    let (b', e, m, r') = enqueue-Refines k d now b s (omega arith) r in
    let q = subst (λ n. Refines b' (write n x s)) z r' in
    let (c, f, l, q') = runs size cs b' (write size x s) pos (m ∙ z) q in
    (c, rw (e, run_calls) f, l, q')
runs size (take ∷ cs) b s pos z r =
    let (o, r', m) = dequeue-Refines b s r in
    let (c, f, l, q) = runs size cs (dequeue b).1 (read s).1 pos (m ∙ z) r' in
    (c, rw f (ground (arith, o)), l, q)

-- Every run of calls of a buffer of positive size returns without an exception, and its calls of
-- `dequeue` return what the reader of the stream reads: the buffer is at each point the part of the
-- history that was neither read nor dropped, the oldest first, and it never holds more than its size.
pub run_calls-run_stream :
    (calls : List BufferCall) (b : StateBuffer) (s : Stream)
    → 0 < b.max_size
    → Refines b s
    → (b' : StateBuffer) × (run_calls calls b ≡ some ((run_stream b.max_size calls s).0, b'))
      × (length b'.items ≤ b.max_size)
      × Refines b' (run_stream b.max_size calls s).1
run_calls-run_stream calls b s pos r = runs b.max_size calls b s pos refl r
