-- ===== src/Infrastructure/Sync/Examples.antt =====
-- Tests of the state synchronisation of backend/infrastructure/state_sync.py, and its theorems at
-- concrete inputs.
use dutchkem_trading_ai.Common.Dict.{lookup, insert}
use dutchkem_trading_ai.Common.{
  if◌then◌else◌, ℕ, String, Option, none, some, true, false, ◌≡◌, ◌≤◌, refl, [], ◌∷◌, length,
  str_eq, arith,
}
use dutchkem_trading_ai.Infrastructure.Documents.{Document, word, number}
use dutchkem_trading_ai.Common.Dict.{remove}
use dutchkem_trading_ai.Infrastructure.Sync.Buffer.{StateBuffer, Pending, put, take, run_calls}
use dutchkem_trading_ai.Infrastructure.Sync.Fifo.{run_calls-run_stream, Stream, run_stream, Refines}
use dutchkem_trading_ai.Infrastructure.Sync.Replicas.{
  Redis, steady, Synchronizer, stamped, returned, sync_state, get_state, verify_consistency,
}
use dutchkem_trading_ai.Infrastructure.Sync.RoundTrip.{
  verify_consistency-synced, sync_state-get_state,
}
use dutchkem_trading_ai.Infrastructure.Sync.Draining.{
  process_buffered_syncs, process_buffered_syncs-finishes, process_buffered_syncs-Spins, Round,
  finished, Spins,
}

abbrev account : Document
account = ("balance", number 5000) ∷ []

abbrev pending : String → Pending
pending k = record { key = k; state = account; timestamp = 7 }

abbrev two_pending : StateBuffer
two_pending = record { max_size = 2; items = pending "account" ∷ pending "positions" ∷ [] }

abbrev empty_store : Redis
empty_store = record { synced = []; histories = []; nodes = []; locks = [] }

abbrev node : Synchronizer
node = record {
  node_id = "node-1";
  buffer = two_pending;
  consistency_log = [];
  redis = empty_store;
}

-- a digest that tells documents of even and odd length apart
abbrev parity : Document → String
parity [] = "even"
parity (e ∷ d) = if str_eq (parity d) "even" then "odd" else "even"

abbrev to_json : Document → String
to_json d = "{}"

abbrev decimal : ℕ → String
decimal n = "0"

abbrev stream : Stream
stream = record { history = two_pending.items; taken = 0 }

run_calls-run_stream_example :
    let calls = put "orders" account 9 ∷ take ∷ take ∷ take ∷ [] in
    (b' : StateBuffer) × (run_calls calls two_pending ≡ some ((run_stream 2 calls stream).0, b'))
    × (length b'.items ≤ 2)
    × Refines b' (run_stream 2 calls stream).1
run_calls-run_stream_example =
    run_calls-run_stream (put "orders" account 9 ∷ take ∷ take ∷ take ∷ []) two_pending stream
      (omega arith) (record { items_eq = refl; taken_le = (omega arith); within = (omega arith) })

-- the full buffer drops the account, which is the oldest
oldest_dropped :
    (run_stream 2 (put "orders" account 9 ∷ take ∷ take ∷ take ∷ []) stream).0
    ≡ some (pending "positions")
      ∷ some (record { key = "orders"; state = account; timestamp = 9 })
      ∷ none
      ∷ []
unfolding run_stream
oldest_dropped = refl

abbrev account_saved : Document
account_saved =
    ("balance", number 5000)
    ∷ ("_sync_timestamp", number 100)
    ∷ ("_sync_node", word "node-1")
    ∷ ("_sync_hash", word "odd")
    ∷ []

abbrev of_json : String → Option Document
of_json t = some account_saved

sync_state-get_state_example :
    let after =
      sync_state to_json of_json parity decimal (some steady) 100 "account" account node in
    (after.0 ≡ returned true)
    × (get_state to_json of_json parity decimal (some steady) "account" after.1.redis
        ≡ some (stamped to_json of_json parity decimal "node-1" 100 account))
    × ((k : String)
        → str_eq "account" k ≡ false
        → lookup k after.1.redis.synced ≡ lookup k node.redis.synced)
    × (after.1.buffer ≡ node.buffer)
unfolding stamped insert
sync_state-get_state_example =
    sync_state-get_state to_json of_json parity decimal 100 "account" account node refl refl

-- the account as its first attempt left it, synced again
abbrev of_json_again : String → Option Document
of_json_again t = some (
    ("balance", number 5000)
    ∷ ("_sync_timestamp", number 110)
    ∷ ("_sync_node", word "node-1")
    ∷ ("_sync_hash", word "even")
    ∷ [])

differ : {A : Type 0} → false ≡ true → A
differ e = cc

verify_consistency-synced_example :
    (verify_consistency to_json of_json_again parity decimal
      (some steady)
      111
      "account"
      (sync_state to_json of_json_again parity decimal
        (some steady)
        110
        "account"
        account_saved
        node).1).0
    ≡ false
unfolding stamped insert remove lookup
verify_consistency-synced_example =
    verify_consistency-synced to_json of_json_again parity decimal 110 "account" account_saved node
      refl refl 111 refl (λ e. differ e)

abbrev with_client : Round
with_client = record { client = some steady; at = 120 }

abbrev without_client : Round
without_client = record { client = none; at = 120 }

process_buffered_syncs-finishes_example :
    let rounds = with_client ∷ with_client ∷ with_client ∷ [] in
    ((process_buffered_syncs to_json of_json parity decimal rounds node).0 ≡ finished 2)
    × ((process_buffered_syncs to_json of_json parity decimal rounds node).1.buffer.items ≡ [])
process_buffered_syncs-finishes_example =
    process_buffered_syncs-finishes to_json of_json parity decimal
      (with_client ∷ with_client ∷ with_client ∷ []) node (refl, (refl, (refl, tt))) (omega arith)

process_buffered_syncs-Spins_example :
    let after =
      process_buffered_syncs to_json of_json parity decimal
        (without_client ∷ without_client ∷ without_client ∷ [])
        node in
    Spins to_json of_json parity decimal 0 2 node after.0 after.1
process_buffered_syncs-Spins_example =
    process_buffered_syncs-Spins to_json of_json parity decimal
      (without_client ∷ without_client ∷ without_client ∷ []) node (refl, (refl, (refl, tt)))
      (omega arith) (omega arith)
