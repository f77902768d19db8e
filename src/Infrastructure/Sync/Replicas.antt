-- ===== src/Infrastructure/Sync/Replicas.antt =====
-- The reads and writes of `StateSynchronizer`, backend/infrastructure/state_sync.py, on Redis. Redis
-- is not code of the repository: what the code relies on is a store of texts and lists with
-- `set`, `get`, `lpush` and `ltrim`, each of which may raise. The prefixes of the keys keep synced
-- states, histories, node entries and locks apart, and are four parts of the store here. Expiry
-- (`ex=`) is left out.
use dutchkem_trading_ai.Common.Dict.{Dict, lookup, insert}
use dutchkem_trading_ai.Common.Exec.{Exec, ok, err, ◌>>◌}
use dutchkem_trading_ai.Common.{
  ◌||◌, ◌==◌, ℕ, zero, suc, String, Option, none, some, Bool, true, false, List, [], ◌∷◌, str_eq,
  if◌then◌else◌, push_bounded,
}
use dutchkem_trading_ai.Infrastructure.Documents.{Value, word, number, json, Document}
use dutchkem_trading_ai.Common.Dict.{remove}
use dutchkem_trading_ai.Infrastructure.Sync.Buffer.{StateBuffer, enqueue}

pub record Redis : Type 0 where
  pub synced : Dict String
  pub histories : Dict (List String)
  pub nodes : Dict (Dict String)
  pub locks : Dict String

-- The client's connection: it stays, or raises from some call on.
pub data Link : Type 0 where
  steady : Link
  breaks_after : ℕ → Link

pub record Session : Type 0 where
  pub redis : Redis
  pub link : Link

pub data RedisError : Type 0 where
  connection_error : RedisError

abbrev pub Call : Type 0 → Type 0
Call A = Exec Session RedisError A

-- one call of the client
call_on : {A : Type 0} → Link → (Redis → A × Redis) → Call A
call_on steady f s = let (a, r) = f s.redis in (ok a, record s { redis = r })
call_on (breaks_after zero) f s = (err connection_error, s)
call_on (breaks_after (suc n)) f s =
    let (a, r) = f s.redis in (ok a, record { redis = r; link = breaks_after n })

unfoldable pub call : {A : Type 0} → (Redis → A × Redis) → Call A
unfolding call_on
call f s = call_on s.link f s

abbrev pub update : (Redis → Redis) → Redis → Unit {0} × Redis
update f r = (tt, f r)

abbrev pub list_at : String → Dict (List String) → List String
list_at k d = elim (lookup k d) [ none ↦ [] | some xs ↦ xs ]

abbrev pub dict_at : String → Dict (Dict String) → Dict String
dict_at k d = elim (lookup k d) [ none ↦ [] | some e ↦ e ]

abbrev pub take : ℕ → List String → List String
take zero xs = []
take (suc n) [] = []
take (suc n) (x ∷ xs) = x ∷ take n xs

abbrev pub set_synced : String → String → Redis → Redis
set_synced k v r = record r { synced = insert k v r.synced }

abbrev pub push_history : String → String → Redis → Redis
push_history k v r = record r { histories = insert k (v ∷ list_at k r.histories) r.histories }

abbrev pub trim_history : String → ℕ → Redis → Redis
trim_history k n r = record r { histories = insert k (take n (list_at k r.histories)) r.histories }

abbrev pub set_node : String → String → String → Redis → Redis
set_node node k v r = record r { nodes = insert node (insert k v (dict_at node r.nodes)) r.nodes }

pub record Check : Type 0 where
  pub key : String
  pub consistent : Bool
  pub stored_hash : Option Value
  pub current_hash : String
  pub verified_at : ℕ

pub record Synchronizer : Type 0 where
  pub node_id : String
  pub buffer : StateBuffer
  pub consistency_log : List Check
  pub redis : Redis

-- What `sync_state` ends with. A buffer of size 0 raises IndexError.
pub data SyncReply : Type 0 where
  returned : Bool → SyncReply
  index_error : SyncReply

unfoldable pub buffered : String → Document → ℕ → Synchronizer → SyncReply × Synchronizer
buffered key state now s = elim (enqueue key state now s.buffer) [
  | none ↦ (index_error, s)
  | some b ↦ (returned false, record s { buffer = b })
]

-- `json.dumps(state, default=str)`, `json.loads`, the MD5 digest of the JSON text with sorted keys,
-- and the text that Redis stores for a number.
module _ (dumps : Document → String) (loads : String → Option Document) (digest : Document → String)
    (print : ℕ → String) where
  -- the three keys that are added to the caller's dict
  unfoldable pub with_origin : String → ℕ → Document → Document
  with_origin node_id now state =
      insert "_sync_node" (word node_id) (insert "_sync_timestamp" (number now) state)

  unfoldable pub stamped : String → ℕ → Document → Document
  unfolding with_origin
  stamped node_id now state =
      let state' = with_origin node_id now state in
      insert "_sync_hash" (word (digest state')) state'

  unfoldable pub write_state : String → Document → String → ℕ → Call Unit
  unfolding call
  write_state key state node_id now = do
    call (update (set_synced key (dumps state)))
    call (update (push_history key (dumps state)))
    call (update (trim_history key 100))
    call (update (set_node node_id "last_sync" (print now)))

  -- `client` is the connection at this call, `none` where Redis is not available. The dict that is
  -- put back into the buffer after an exception is the stamped one.
  unfoldable pub sync_state :
      Option Link → ℕ → String → Document → Synchronizer → SyncReply × Synchronizer
  unfolding write_state stamped buffered
  sync_state none now key state s = buffered key state now s
  sync_state (some link) now key state s =
      let state' = stamped s.node_id now state in
      let (done, left) =
        write_state key state' s.node_id now (record { redis = s.redis; link = link }) in
      let s' : Synchronizer = record s { redis = left.redis } in
      elim done [ ok _ ↦ (returned true, s') | err _ ↦ buffered key state' now s' ]

  abbrev parsed : Option String → Option Document
  parsed none = none
  parsed (some t) = if str_eq t "" then none else loads t

  -- An exception of Redis or of the parser is logged, and None is returned.
  unfoldable pub get_state : Option Link → String → Redis → Option Document
  get_state (some (breaks_after zero)) key r = none
  get_state (some _) key r = parsed (lookup key r.synced)
  get_state none key r = none

  abbrev is_falsy : Option Value → Bool
  is_falsy none = true
  is_falsy (some (word t)) = str_eq t ""
  is_falsy (some (number n)) = n == 0
  is_falsy (some (json t)) =
      str_eq t "null" || str_eq t "false" || str_eq t "[]" || str_eq t "{}" || str_eq t "0.0"

  abbrev equals_text : Option Value → String → Bool
  equals_text (some (word t)) u = str_eq t u
  equals_text _ u = false

  abbrev consistent_with : Option Value → String → Bool
  consistent_with stored current = if is_falsy stored then true else equals_text stored current

  unfoldable pub check_document : String → ℕ → Document → Synchronizer → Bool × Synchronizer
  check_document key now state s =
      let stored = lookup "_sync_hash" state in
      let current = digest (remove "_sync_hash" state) in
      let check : Check = record {
        key = key;
        consistent = consistent_with stored current;
        stored_hash = stored;
        current_hash = current;
        verified_at = now;
      } in
      (check.consistent, record s { consistency_log = push_bounded 500 s.consistency_log check })

  -- The `consistent` entry of the result. An empty document is no state, and is not logged.
  unfoldable pub verify_consistency : Option Link → ℕ → String → Synchronizer → Bool × Synchronizer
  unfolding get_state check_document
  verify_consistency client now key s = elim (get_state client key s.redis) [
    | none ↦ (false, s)
    | some [] ↦ (false, s)
    | some (e ∷ es) ↦ check_document key now (e ∷ es) s
  ]
