-- ===== src/Common/Dict.antt =====
-- A Python dict keyed by text, as an association list in insertion order: an update keeps the
-- place of its key, a new key goes to the end.
use dutchkem_trading_ai.Common.{str_eq}
use Prim.Native.Nat.{suc}
use Prim.Native.String.{String}
use mathlib.Core.Path.{◌≡◌, refl, ap}
use mathlib.Core.Logic.{◌≢◌}
use mathlib.Core.Bool.{Bool, true, false}
use mathlib.Core.Option.{Option, none, some}
use mathlib.Core.List.{List, [], ◌∷◌}
use native.Mathlib.Omega.{arith}
use text.Mathlib.Text.{◌==◌}
use text.Mathlib.TextEquality.{eq_iff}
use text.Mathlib.TextPositions.{eq_refl}
use dutchkem_trading_ai.Common.Lists.{length}
use dutchkem_trading_ai.Common.Tests.{if◌then◌else◌}

abbrev pub Dict {ℓ} : Type ℓ → Type ℓ
Dict V = List (String × V)

module _ {ℓ} {V : Type ℓ} where
  -- `d.get(k)`
  unfoldable pub lookup : String → Dict V → Option V
  lookup k [] = none
  lookup k ((j, v) ∷ d) = if j == k then some v else lookup k d

  -- `d[k] = v`
  unfoldable pub insert : String → V → Dict V → Dict V
  insert k v [] = (k, v) ∷ []
  insert k v ((j, w) ∷ d) = if j == k then (j, v) ∷ d else (j, w) ∷ insert k v d

  -- a write through the object that `d[k]` holds; nothing if the key is not there
  unfoldable pub modify : String → (V → V) → Dict V → Dict V
  modify k f [] = []
  modify k f ((j, w) ∷ d) = if j == k then (j, f w) ∷ d else (j, w) ∷ modify k f d

  -- `k in d`
  abbrev pub contains : String → Dict V → Bool
  contains k d = elim (lookup k d) [ none ↦ false | some _ ↦ true ]

  pub lookup-insert :
      (k j : String) (v : V) (d : Dict V)
      → lookup j (insert k v d) ≡ (if k == j then some v else lookup j d)
  unfolding lookup insert
  lookup-insert k j v [] = refl
  lookup-insert k j v ((i, w) ∷ d) =
      ground (arith, eq_iff k j, eq_iff i k, eq_iff i j, lookup-insert k j v d)

  abbrev pub apply_some : (V → V) → Option V → Option V
  apply_some f none = none
  apply_some f (some v) = some (f v)

  pub lookup-modify :
      (k j : String) (f : V → V) (d : Dict V)
      → lookup j (modify k f d) ≡ (if k == j then apply_some f (lookup j d) else lookup j d)
  unfolding lookup modify
  lookup-modify k j f [] = ground arith
  lookup-modify k j f ((i, w) ∷ d) =
      ground (arith, eq_iff k j, eq_iff i k, eq_iff i j, lookup-modify k j f d)

  -- `d.pop(k, None)`, what is left of the dict
  unfoldable pub remove : String → Dict V → Dict V
  remove k [] = []
  remove k ((j, v) ∷ d) = if str_eq j k then d else (j, v) ∷ remove k d

  -- a key that was not there is removed again without a trace
  pub remove-insert_new :
      (k : String) (v : V) (d : Dict V) → lookup k d ≡ none → remove k (insert k v d) ≡ d
  unfolding remove insert lookup
  remove-insert_new k v [] h = ground (arith, eq_refl k)
  remove-insert_new k v ((j, w) ∷ d) h = ground (arith, eq_iff j k, remove-insert_new k v d)

  -- what was written under the key is gone again, also if it replaced an entry
  pub remove-insert : (k : String) (v : V) (d : Dict V) → remove k (insert k v d) ≡ remove k d
  unfolding remove insert
  remove-insert k v [] = ground (arith, eq_refl k)
  remove-insert k v ((j, w) ∷ d) = ground (arith, eq_iff j k, remove-insert k v d)

  length-remove :
      (k : String) (v : V) (d : Dict V) → lookup k d ≡ some v → suc (length (remove k d)) ≡ length d
  unfolding remove lookup
  length-remove k v [] h = absurd (cc)
  length-remove k v ((j, w) ∷ d) h = ground (arith, length-remove k v d)

  -- removing a key that is there changes the dict
  pub remove_changes : (k : String) (v : V) (d : Dict V) → lookup k d ≡ some v → d ≢ remove k d
  remove_changes k v d h e = omega (arith, length-remove k v d h, ap length e)

pub ruleset dict_laws = (lookup-insert, lookup-modify, eq_refl)
