-- ===== src/Infrastructure/Sync/Buffer.antt =====
-- The queue of pending syncs, `StateBuffer` of backend/infrastructure/state_sync.py.
use dutchkem_trading_ai.Common.{
  ℕ, String, Option, none, some, List, [], ◌∷◌, if◌then◌else◌, leb, length, push_bounded,
}
use dutchkem_trading_ai.Infrastructure.Documents.{Document}

pub record Pending : Type 0 where
  pub key : String
  pub state : Document
  pub timestamp : ℕ

pub record StateBuffer : Type 0 where
  pub max_size : ℕ
  pub items : List Pending

-- `deque.popleft()`, what is left; an empty deque raises IndexError
unfoldable pub popleft : List Pending → Option (List Pending)
popleft [] = none
popleft (x ∷ xs) = some xs

unfoldable pub make_room : ℕ → List Pending → Option (List Pending)
unfolding popleft
make_room max_size items = if leb max_size (length items) then popleft items else some items

-- `none` stands for the IndexError of a buffer of size 0.
unfoldable pub enqueue : String → Document → ℕ → StateBuffer → Option StateBuffer
unfolding make_room push_bounded
enqueue key state now b = elim (make_room b.max_size b.items) [
  | none ↦ none
  | some kept ↦
      let item : Pending = record { key = key; state = state; timestamp = now } in
      some (record b { items = push_bounded b.max_size kept item })
]

unfoldable pub dequeue_from : List Pending → StateBuffer → Option Pending × StateBuffer
dequeue_from [] b = (none, b)
dequeue_from (x ∷ xs) b = (some x, record b { items = xs })

unfoldable pub dequeue : StateBuffer → Option Pending × StateBuffer
unfolding dequeue_from
dequeue b = dequeue_from b.items b

-- Calls of the buffer, and what the calls of `dequeue` return.
pub data BufferCall : Type 0 where
  put : String → Document → ℕ → BufferCall
  take : BufferCall

unfoldable pub run_calls :
    List BufferCall → StateBuffer → Option (List (Option Pending) × StateBuffer)
run_calls [] b = some ([], b)
run_calls (put k s now ∷ cs) b = elim (enqueue k s now b) [
  | none ↦ none
  | some b' ↦ run_calls cs b'
]
run_calls (take ∷ cs) b = elim (run_calls cs (dequeue b).1) [
  | none ↦ none
  | some (outs, b') ↦ some ((dequeue b).0 ∷ outs, b')
]
