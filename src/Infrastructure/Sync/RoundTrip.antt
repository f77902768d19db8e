-- ===== src/Infrastructure/Sync/RoundTrip.antt =====
-- A state that was synced is read back, and its consistency check, of
-- backend/infrastructure/state_sync.py.
use dutchkem_trading_ai.Common.Dict.{insert, lookup-insert, lookup}
use dutchkem_trading_ai.Common.Exec.{◌>>=◌}
use dutchkem_trading_ai.Common.{
  Option-cases, is_some, not, inr, inl, Bool-cases, [], ◌∷◌, none, eq_refl, true, false, str_eq,
  some, ℕ, String, Option, ◌≡◌, refl,
}
use dutchkem_trading_ai.Infrastructure.Documents.{number, word, Value, Document}
use dutchkem_trading_ai.Common.Dict.{remove_changes, remove-insert_new, remove-insert, remove}
use dutchkem_trading_ai.Infrastructure.Sync.Replicas.{
  SyncReply, check_document, with_origin, verify_consistency, stamped, get_state, returned,
  Synchronizer, sync_state, Redis, steady, call, set_node, write_state, set_synced, push_history,
  trim_history,
}

module _ (dumps : Document → String) (loads : String → Option Document) (digest : Document → String)
    (print : ℕ → String) where
  pub written : String → Document → String → ℕ → Redis → Redis
  written key state node now r =
      set_node node "last_sync" (print now)
        (trim_history key 100 (push_history key (dumps state) (set_synced key (dumps state) r)))

  pub sync_state-steady :
      (now : ℕ) (key : String) (state : Document) (s : Synchronizer)
      → sync_state dumps loads digest print (some steady) now key state s ≡ (
        returned true,
        record s {
          redis =
              written key
                (stamped dumps loads digest print s.node_id now state)
                s.node_id
                now
                s.redis;
        },
      )
  unfolding sync_state write_state ◌>>=◌ call written
  sync_state-steady now key state s = refl

  verify_found :
      (now : ℕ) (key : String) (s : Synchronizer) (d : Document) (h : String)
      → get_state dumps loads digest print (some steady) key s.redis ≡ some d
      → lookup "_sync_hash" d ≡ some (word h)
      → str_eq h "" ≡ false
      → (verify_consistency dumps loads digest print (some steady) now key s).0
        ≡ str_eq h (digest (remove "_sync_hash" d))
  unfolding verify_consistency lookup check_document
  verify_found now key s [] h g e n = absurd (cc)
  verify_found now key s (p ∷ d) h g e n = rw (g, verify_consistency) (rw (e, n) refl)

  module _ (now : ℕ) (key : String) (state : Document) (s : Synchronizer) where
    -- the document as it is written, before and with its hash
    abbrev pub unhashed : Document
    unhashed = with_origin dumps loads digest print s.node_id now state

    abbrev pub saved : Document
    saved = stamped dumps loads digest print s.node_id now state

    abbrev pub synced_by : SyncReply × Synchronizer
    synced_by = sync_state dumps loads digest print (some steady) now key state s

    -- the two other stamps leave the hash alone
    hash_of_unhashed : lookup "_sync_hash" unhashed ≡ lookup "_sync_hash" state
    unfolding with_origin
    hash_of_unhashed =
        rw
          (
            lookup-insert "_sync_node" "_sync_hash" (word s.node_id)
                (insert "_sync_timestamp" (number now) state),
            lookup-insert "_sync_timestamp" "_sync_hash" (number now) state,
          )
          refl

    module _ (loads-dumps : loads (dumps saved) ≡ some saved)
        (dumps-nonempty : str_eq (dumps saved) "" ≡ false) where
      -- With a working client, and if the JSON text of the stamped state is not empty and is parsed
      -- to that state again, a synced state is read back under its key with the three stamps that were
      -- added to it; the states of all other keys and the buffer are as before.
      pub sync_state-get_state :
          (synced_by.0 ≡ returned true)
          × (get_state dumps loads digest print (some steady) key synced_by.1.redis ≡ some saved)
          × ((k : String)
              → str_eq key k ≡ false
              → lookup k synced_by.1.redis.synced ≡ lookup k s.redis.synced)
          × (synced_by.1.buffer ≡ s.buffer)
      unfolding get_state written
      sync_state-get_state = rw (sync_state-steady now key state s) (
        refl,
        rw (lookup-insert key key (dumps saved) s.redis.synced, eq_refl key, dumps-nonempty)
            loads-dumps,
        λ k e. rw (lookup-insert key k (dumps saved) s.redis.synced, e) refl,
        refl,
      )

      -- what the check of a state that was just synced compares
      verify_synced :
          (later : ℕ)
          → str_eq (digest unhashed) "" ≡ false
          → (verify_consistency dumps loads digest print (some steady) later key synced_by.1).0
            ≡ str_eq (digest unhashed) (
                digest
                  (remove "_sync_hash" (insert "_sync_hash" (word (digest unhashed)) unhashed)))
      unfolding stamped
      verify_synced later n =
          verify_found later key synced_by.1 saved (digest unhashed) sync_state-get_state.1
            (rw (lookup-insert "_sync_hash" "_sync_hash" (word (digest unhashed)) unhashed) refl) n

      verify_consistency-fresh :
          (later : ℕ)
          → str_eq (digest unhashed) "" ≡ false
          → lookup "_sync_hash" state ≡ none
          → (verify_consistency dumps loads digest print (some steady) later key synced_by.1).0
            ≡ true
      verify_consistency-fresh later n h =
          let missing : lookup "_sync_hash" unhashed ≡ none = rw hash_of_unhashed h in
          rw
            (
              verify_synced later n,
              remove-insert_new "_sync_hash" (word (digest unhashed)) unhashed missing,
            )
            (eq_refl (digest unhashed))

      verify_consistency-again :
          (later : ℕ) (old : Value)
          → str_eq (digest unhashed) "" ≡ false
          → (str_eq (digest unhashed) (digest (remove "_sync_hash" unhashed)) ≡ true
              → unhashed ≡ remove "_sync_hash" unhashed)
          → lookup "_sync_hash" state ≡ some old
          → (verify_consistency dumps loads digest print (some steady) later key synced_by.1).0
            ≡ false
      verify_consistency-again later old n injective h =
          rw (verify_synced later n, remove-insert "_sync_hash" (word (digest unhashed)) unhashed)
            elim (Bool-cases (str_eq (digest unhashed) (digest (remove "_sync_hash" unhashed)))) [
              | inl same ↦ absurd (
                  remove_changes "_sync_hash" old unhashed (rw hash_of_unhashed h) (injective same))
              | inr differs ↦ differs
            ]

      -- The consistency check of a state that was just synced, with a working client, passes exactly
      -- if the state bore no hash before: a state that was synced once already, or whose first attempt
      -- raised, is reported as inconsistent, since the new hash is computed over the old one and
      -- checked without it. Assumed: the JSON text of the stamped state is parsed to it again, neither
      -- that text nor the digest is empty, and the digest does not collide on the state with and
      -- without its hash.
      pub verify_consistency-synced :
          (later : ℕ)
          → str_eq (digest unhashed) "" ≡ false
          → (str_eq (digest unhashed) (digest (remove "_sync_hash" unhashed)) ≡ true
              → unhashed ≡ remove "_sync_hash" unhashed)
          → (verify_consistency dumps loads digest print (some steady) later key synced_by.1).0
            ≡ not (is_some (lookup "_sync_hash" state))
      verify_consistency-synced later n injective =
          elim (Option-cases (lookup "_sync_hash" state)) [
            | inl h ↦ rw h (verify_consistency-fresh later n h)
            | inr (old, h) ↦ rw h (verify_consistency-again later old n injective h)
          ]
