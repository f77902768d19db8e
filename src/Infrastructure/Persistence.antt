-- ===== src/Infrastructure/Persistence.antt =====
-- The saved trading state, `TradingStatePersistence` of backend/infrastructure/trading_state.py: the
-- operations on Redis, the file of the latest state and the database. The snapshots with a time in
-- their name, which no code reads again, and their clean-up are left out.
use dutchkem_trading_ai.Common.Dict.{Dict, lookup, insert}
use dutchkem_trading_ai.Common.{
  ℕ, zero, suc, String, Option, none, some, Bool, true, false, ◌≡◌, List, [], ◌∷◌, str_eq, ◌||◌,
  if◌then◌else◌, length,
}
use dutchkem_trading_ai.Infrastructure.Documents.{Document}
pub mod Loading
pub mod Emergency
mod Examples

-- What the `data` entry of a snapshot holds: `{'positions': [...], 'count': n}`, the same for orders,
-- each item as its JSON text, or the caller's dict.
pub data Payload : Type 0 where
  positions : List String → ℕ → Payload
  orders : List String → ℕ → Payload
  entries : Document → Payload

pub record Snapshot : Type 0 where
  pub kind : String
  pub payload : Payload
  pub timestamp : ℕ
  pub iso_timestamp : String
  pub signature : Option String

-- What the three stores hold, `Text` being the JSON texts.
pub record Stores (Text : Type 0) : Type 0 where
  pub redis : Dict Text
  pub redis_history : Dict (List Text)
  pub latest_files : Dict Text
  pub database_rows : List (String × Text × Option String)

-- The Redis client at a call of the module: absent, working, or raising from some call on.
pub data Client : Type 0 where
  no_client : Client
  raises_after : ℕ → Client
  works : Client

-- The disk at a save: both files are written, or the first write raises, or the second, which leaves
-- what was written of the latest file.
pub data Disk (Text : Type 0) : Type 0 where
  writable : Disk Text
  snapshot_fails : Disk Text
  latest_fails : Text → Disk Text

pub record Backends (Text : Type 0) : Type 0 where
  pub client : Client
  pub disk : Disk Text
  -- Django is installed, and the insert succeeds
  pub database : Bool
  pub time : ℕ
  pub iso : String

module _ {Text : Type 0} (dumps : Snapshot → Text) (loads : Text → Option Snapshot)
    (sign : Snapshot → String) where
  abbrev history_of : String → Stores Text → List Text
  history_of k s = elim (lookup k s.redis_history) [ none ↦ [] | some ts ↦ ts ]

  abbrev take : ℕ → List Text → List Text
  take zero ts = []
  take (suc n) [] = []
  take (suc n) (t ∷ ts) = t ∷ take n ts

  abbrev set_latest : String → Text → Stores Text → Stores Text
  set_latest k t s = record s { redis = insert k t s.redis }

  abbrev push : String → Text → Stores Text → Stores Text
  push k t s = record s { redis_history = insert k (t ∷ history_of k s) s.redis_history }

  abbrev trim : String → Stores Text → Stores Text
  trim k s = record s { redis_history = insert k (take 100 (history_of k s)) s.redis_history }

  unfoldable pub save_to_redis : Client → String → Text → Stores Text → Bool × Stores Text
  save_to_redis no_client k t s = (false, s)
  save_to_redis (raises_after zero) k t s = (false, s)
  save_to_redis (raises_after (suc zero)) k t s = (false, set_latest k t s)
  save_to_redis (raises_after (suc (suc zero))) k t s = (false, push k t (set_latest k t s))
  save_to_redis _ k t s = (true, trim k (push k t (set_latest k t s)))

  unfoldable pub save_to_file : Disk Text → String → Text → Stores Text → Bool × Stores Text
  save_to_file writable k t s = (true, record s { latest_files = insert k t s.latest_files })
  save_to_file snapshot_fails k t s = (false, s)
  save_to_file (latest_fails broken) k t s =
      (false, record s { latest_files = insert k broken s.latest_files })

  unfoldable pub save_to_db :
      Bool → String → Text → Option String → Stores Text → Bool × Stores Text
  save_to_db false k t signature s = (false, s)
  save_to_db true k t signature s =
      (true, record s { database_rows = (k, t, signature) ∷ s.database_rows })

  -- The signature is computed before it is a part of the snapshot.
  unfoldable pub signed : Snapshot → Snapshot
  signed t = record t { signature = some (sign t) }

  unfoldable pub snapshot_of : Backends Text → String → Payload → Snapshot
  unfolding signed
  snapshot_of b kind payload = signed (record {
    kind = kind;
    payload = payload;
    timestamp = b.time;
    iso_timestamp = b.iso;
    signature = none;
  })

  unfoldable pub save_state : Backends Text → String → Payload → Stores Text → Bool × Stores Text
  unfolding save_to_redis save_to_file save_to_db snapshot_of
  save_state b kind payload s =
      let t = snapshot_of b kind payload in
      let (in_redis, s1) = save_to_redis b.client kind (dumps t) s in
      let (in_file, s2) = save_to_file b.disk kind (dumps t) s1 in
      let (in_db, s3) = save_to_db b.database kind (dumps t) t.signature s2 in
      (in_redis || in_file || in_db, s3)

  abbrev signature_or_empty : Snapshot → String
  signature_or_empty t = elim t.signature [ none ↦ "" | some x ↦ x ]

  -- The whole snapshot is signed again, with the signature that it bears.
  unfoldable pub verify_state : Snapshot → String → Bool
  verify_state t signature = str_eq (sign t) signature

  abbrev pub parsed : Option Text → Option Snapshot
  parsed none = none
  parsed (some t) = loads t

  unfoldable pub load_from_redis : Client → String → Stores Text → Option Snapshot
  load_from_redis no_client k s = none
  load_from_redis (raises_after zero) k s = none
  load_from_redis _ k s = parsed (lookup k s.redis)

  unfoldable pub load_from_file : String → Stores Text → Option Snapshot
  load_from_file k s = parsed (lookup k s.latest_files)

  unfoldable pub accept : Option Snapshot → Option Snapshot
  unfolding verify_state
  accept none = none
  accept (some t) = if verify_state t (signature_or_empty t) then some t else none

  unfoldable pub load_state : Client → String → Stores Text → Option Snapshot
  unfolding load_from_redis load_from_file accept
  load_state client k s = elim (accept (load_from_redis client k s)) [
    | none ↦ accept (load_from_file k s)
    | some t ↦ some t
  ]

  unfoldable pub save_positions : Backends Text → List String → Stores Text → Bool × Stores Text
  unfolding save_state
  save_positions b ps s = save_state b "positions" (positions ps (length ps)) s

  unfoldable pub save_account : Backends Text → Payload → Stores Text → Bool × Stores Text
  unfolding save_state
  save_account b account s = save_state b "account" account s

  unfoldable pub save_orders : Backends Text → List String → Stores Text → Bool × Stores Text
  unfolding save_state
  save_orders b os s = save_state b "orders" (orders os (length os)) s

  -- `state['data']['positions']`; `none` stands for the KeyError of another dict
  abbrev positions_in : Payload → Option (List String)
  positions_in (positions ps n) = some ps
  positions_in _ = none

  abbrev orders_in : Payload → Option (List String)
  orders_in (orders os n) = some os
  orders_in _ = none

  unfoldable pub load_positions : Client → Stores Text → Option (List String)
  unfolding load_state
  load_positions client s = elim (load_state client "positions" s) [
    | none ↦ some []
    | some t ↦ positions_in t.payload
  ]

  unfoldable pub load_orders : Client → Stores Text → Option (List String)
  unfolding load_state
  load_orders client s = elim (load_state client "orders" s) [
    | none ↦ some []
    | some t ↦ orders_in t.payload
  ]

  unfoldable pub load_account : Client → Stores Text → Option Payload
  unfolding load_state
  load_account client s = elim (load_state client "account" s) [
    | none ↦ none
    | some t ↦ some t.payload
  ]
