-- ===== src/Infrastructure/Persistence/Loading.antt =====
-- What `load_state` of backend/infrastructure/trading_state.py accepts of what `save_state` wrote.
use dutchkem_trading_ai.Common.Dict.{Dict, lookup, insert, lookup-insert}
use dutchkem_trading_ai.Common.{
  subst, zero, suc, String, Option, none, some, Bool, true, false, ◌≡◌, refl, [], str_eq,
  Bool-cases, Option-cases, inl, inr, eq_iff, ◌∙◌, sym, ap,
}
use dutchkem_trading_ai.Infrastructure.Persistence.{
  parsed, Payload, Snapshot, Stores, Client, no_client, raises_after, works, Disk, writable,
  snapshot_fails, latest_fails, Backends, save_to_redis, save_to_file, save_to_db, signed,
  snapshot_of, save_state, load_state, load_from_redis, load_from_file, accept, verify_state,
}

abbrev pub empty_stores : {Text : Type 0} → Stores Text
empty_stores = record { redis = []; redis_history = []; latest_files = []; database_rows = [] }

none_is_some : {A : Type 0} {a : A} → none ≡ some a → ⊥
none_is_some e = cc

module _ {Text : Type 0} (dumps : Snapshot → Text) (loads : Text → Option Snapshot)
    (sign : Snapshot → String) where
  -- what a write that was cut off leaves is no JSON text
  abbrev pub TornIsUnreadable : Disk Text → Type 0
  TornIsUnreadable (latest_fails t) = loads t ≡ none
  TornIsUnreadable _ = Unit

  -- The stores after saves of any kinds, with any of the stores failing at each.
  pub data Saved : Stores Text → Type 0 where
    nothing : Saved empty_stores
    then_save :
        (b : Backends Text) (kind : String) (payload : Payload) (s : Stores Text)
        → Saved s
        → TornIsUnreadable b.disk
        → Saved (save_state dumps loads sign b kind payload s).1

  -- a text that is unreadable, or holds a snapshot with the signature of the unsigned one
  abbrev IsOwn : Text → Type 0
  IsOwn x =
      (t : Snapshot)
      → loads x ≡ some t
      → (u : Snapshot) × (u.signature ≡ none) × (t ≡ signed dumps loads sign u)

  AllOwn : Dict Text → Type 0
  AllOwn d = (k : String) (x : Text) → lookup k d ≡ some x → IsOwn x

  insert-AllOwn :
      (k : String) (x : Text) (d : Dict Text) → IsOwn x → AllOwn d → AllOwn (insert k x d)
  unfolding AllOwn
  insert-AllOwn k x d own all j y e = elim (Bool-cases (str_eq k j)) [
    | inl same ↦
        let f : some x ≡ some y = rw (lookup-insert k j x d, same) at e in
        let g : x ≡ y = cc in subst (λ z. IsOwn z) g own
    | inr other ↦ all j y (rw (lookup-insert k j x d, other) at e)
  ]

  record AllStored (s : Stores Text) : Type 0 where
    in_redis : AllOwn s.redis
    in_files : AllOwn s.latest_files

  module _ (loads-dumps : (t : Snapshot) → loads (dumps t) ≡ some t) where
    dumps-IsOwn :
        (t u : Snapshot) → u.signature ≡ none → t ≡ signed dumps loads sign u → IsOwn (dumps t)
    dumps-IsOwn t u h e v l =
        (u, h, (let f : some v ≡ some t = sym l ∙ loads-dumps t in let g : v ≡ t = cc in g) ∙ e)

    save_to_redis-AllStored :
        (c : Client) (k : String) (x : Text) (s : Stores Text)
        → IsOwn x
        → AllStored s
        → AllStored (save_to_redis dumps loads sign c k x s).1
    unfolding save_to_redis
    save_to_redis-AllStored no_client k x s o a = a
    save_to_redis-AllStored (raises_after zero) k x s o a = a
    save_to_redis-AllStored (raises_after (suc zero)) k x s o a = record {
      in_redis = insert-AllOwn k x s.redis o a.in_redis;
      in_files = a.in_files;
    }
    save_to_redis-AllStored (raises_after (suc (suc zero))) k x s o a = record {
      in_redis = insert-AllOwn k x s.redis o a.in_redis;
      in_files = a.in_files;
    }
    save_to_redis-AllStored (raises_after (suc (suc (suc n)))) k x s o a = record {
      in_redis = insert-AllOwn k x s.redis o a.in_redis;
      in_files = a.in_files;
    }
    save_to_redis-AllStored works k x s o a = record {
      in_redis = insert-AllOwn k x s.redis o a.in_redis;
      in_files = a.in_files;
    }

    torn-IsOwn : (x : Text) → loads x ≡ none → IsOwn x
    torn-IsOwn x h t e = absurd (none_is_some (sym h ∙ e))

    save_to_file-AllStored :
        (d : Disk Text) (k : String) (x : Text) (s : Stores Text)
        → TornIsUnreadable d
        → IsOwn x
        → AllStored s
        → AllStored (save_to_file dumps loads sign d k x s).1
    unfolding save_to_file
    save_to_file-AllStored writable k x s r o a = record {
      in_redis = a.in_redis;
      in_files = insert-AllOwn k x s.latest_files o a.in_files;
    }
    save_to_file-AllStored snapshot_fails k x s r o a = a
    save_to_file-AllStored (latest_fails b) k x s r o a = record {
      in_redis = a.in_redis;
      in_files = insert-AllOwn k b s.latest_files (torn-IsOwn b r) a.in_files;
    }

    save_to_db-AllStored :
        (ok : Bool) (k : String) (x : Text) (g : Option String) (s : Stores Text)
        → AllStored s
        → AllStored (save_to_db dumps loads sign ok k x g s).1
    unfolding save_to_db
    save_to_db-AllStored true k x g s a = record { in_redis = a.in_redis; in_files = a.in_files }
    save_to_db-AllStored false k x g s a = a

    save_state-AllStored :
        (b : Backends Text) (k : String) (p : Payload) (s : Stores Text)
        → TornIsUnreadable b.disk
        → AllStored s
        → AllStored (save_state dumps loads sign b k p s).1
    unfolding save_state snapshot_of
    save_state-AllStored b k p s r a =
        let u : Snapshot = record {
          kind = k;
          payload = p;
          timestamp = b.time;
          iso_timestamp = b.iso;
          signature = none;
        } in
        let t = signed dumps loads sign u in
        let o = dumps-IsOwn t u refl refl in
        let s1 = (save_to_redis dumps loads sign b.client k (dumps t) s).1 in
        let s2 = (save_to_file dumps loads sign b.disk k (dumps t) s1).1 in
        save_to_db-AllStored b.database k (dumps t) t.signature s2 (
          save_to_file-AllStored b.disk k (dumps t) s1 r o
            (save_to_redis-AllStored b.client k (dumps t) s o a))

    Saved-AllStored : {s : Stores Text} → Saved s → AllStored s
    unfolding lookup AllOwn
    Saved-AllStored nothing = record {
      in_redis = λ k x e. absurd (none_is_some e);
      in_files = λ k x e. absurd (none_is_some e);
    }
    Saved-AllStored (then_save b k p s h r) = save_state-AllStored b k p s r (Saved-AllStored h)

    module _
        (no_collision : (t : Snapshot)
          → t.signature ≡ none
          → sign (signed dumps loads sign t) ≡ sign t
          → signed dumps loads sign t ≡ t) where
      parsed-own :
          (k : String) (d : Dict Text)
          → AllOwn d
          → (t : Snapshot) → parsed dumps loads sign (lookup k d) ≡ some t
          → (u : Snapshot) × (u.signature ≡ none) × (t ≡ signed dumps loads sign u)
      unfolding AllOwn
      parsed-own k d a t e = elim (Option-cases (lookup k d)) [
        | inl n ↦ absurd (none_is_some (rw n at e))
        | inr (x, f) ↦ a k x f t (rw f at e)
      ]

      redis-own :
          (c : Client) (k : String) (s : Stores Text)
          → AllStored s
          → (t : Snapshot) → load_from_redis dumps loads sign c k s ≡ some t
          → (u : Snapshot) × (u.signature ≡ none) × (t ≡ signed dumps loads sign u)
      unfolding load_from_redis
      redis-own no_client k s a t e = absurd (none_is_some e)
      redis-own (raises_after zero) k s a t e = absurd (none_is_some e)
      redis-own (raises_after (suc n)) k s a t e = parsed-own k s.redis a.in_redis t e
      redis-own works k s a t e = parsed-own k s.redis a.in_redis t e

      file-own :
          (k : String) (s : Stores Text)
          → AllStored s
          → (t : Snapshot) → load_from_file dumps loads sign k s ≡ some t
          → (u : Snapshot) × (u.signature ≡ none) × (t ≡ signed dumps loads sign u)
      unfolding load_from_file
      file-own k s a t e = parsed-own k s.latest_files a.in_files t e

      signature_differs :
          (u : Snapshot)
          → u.signature ≡ none
          → str_eq (sign (signed dumps loads sign u)) (sign u) ≡ false
      unfolding signed
      signature_differs u h =
          elim (Bool-cases (str_eq (sign (signed dumps loads sign u)) (sign u))) [
            | inl same ↦
                let e =
                  no_collision u h ((eq_iff (sign (signed dumps loads sign u)) (sign u)).0 same) in
                absurd (none_is_some (sym h ∙ ap (λ (t : Snapshot). t.signature) (sym e)))
            | inr differs ↦ differs
          ]

      accept-none :
          (o : Option Snapshot)
          → ((t : Snapshot)
              → o ≡ some t
              → (u : Snapshot) × (u.signature ≡ none) × (t ≡ signed dumps loads sign u))
          → accept dumps loads sign o ≡ none
      unfolding accept verify_state signed
      accept-none none h = refl
      accept-none (some t) h = let (u, n, e) = h t refl in rw e (rw (signature_differs u n) refl)

      -- After any saves of states of any kinds, whichever of the stores failed at each of them, no state
      -- of any kind is loaded: the signature was computed before it was part of the snapshot, and is
      -- verified over the snapshot with it. Assumed: a JSON text is parsed to what it was printed
      -- from, a text that was cut off is not parsed, and the HMAC of a snapshot with its signature and
      -- that without it are equal only if they are the same snapshot.
      pub load_state-none :
          (c : Client) (kind : String) {s : Stores Text}
          → Saved s
          → load_state dumps loads sign c kind s ≡ none
      unfolding load_state
      load_state-none c kind {s} h =
          let a = Saved-AllStored h in
          rw
            (
              accept-none (load_from_redis dumps loads sign c kind s) (redis-own c kind s a),
              load_state,
            )
            (accept-none (load_from_file dumps loads sign kind s) (file-own kind s a))
