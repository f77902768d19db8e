-- ===== src/Security/ZeroTrust/Levels.antt =====
-- The trust that a path needs, by backend/security/zero_trust.py.
use Prim.Native.String.{count}
use text.Mathlib.Text.{starts_with}
use dutchkem_trading_ai.Common.{
  ◌∙◌, sym, ap, ℕ, ◌≤◌, String, true, false, List, [], ◌∷◌, ltb, ◌==◌, ◌||◌, All, Among, ◌≡◌, ◌⊎◌,
  inl, inr, refl, arith, Bool-cases,
}
use dutchkem_trading_ai.Security.ZeroTrust.{
  Segment, insert_by_length, sort_by_length, level_of, required_trust_level, segment_trust_levels,
}

-- no entry of the list has a longer prefix
abbrev NotLonger : ℕ → List Segment → Type 0
NotLonger n ss = All (λ (t : Segment). count t.0 ≤ n) ss

abbrev Descending : List Segment → Type 0
Descending [] = Unit
Descending (s ∷ ss) = NotLonger (count s.0) ss × Descending ss

NotLonger-mono : (m n : ℕ) (ss : List Segment) → m ≤ n → NotLonger m ss → NotLonger n ss
NotLonger-mono m n [] h a = tt
NotLonger-mono m n (s ∷ ss) h a = (omega (arith, a.0), NotLonger-mono m n ss h a.1)

insert_by_length-NotLonger :
    (n : ℕ) (s : Segment) (ss : List Segment)
    → count s.0 ≤ n
    → NotLonger n ss
    → NotLonger n (insert_by_length s ss)
unfolding insert_by_length
insert_by_length-NotLonger n s [] h a = (h, tt)
insert_by_length-NotLonger n s (t ∷ ts) h a =
    elim (Bool-cases (ltb (count t.0) (count s.0) || count t.0 == count s.0)) [
      | inl e ↦ rw e (h, a)
      | inr e ↦ rw e (a.0, insert_by_length-NotLonger n s ts h a.1)
    ]

insert_by_length-Descending :
    (s : Segment) (ss : List Segment) → Descending ss → Descending (insert_by_length s ss)
unfolding insert_by_length
insert_by_length-Descending s [] d = (tt, tt)
insert_by_length-Descending s (t ∷ ts) d =
    elim (Bool-cases (ltb (count t.0) (count s.0) || count t.0 == count s.0)) [
      | inl e ↦
          let le : count t.0 ≤ count s.0 = ground arith in
          rw e ((le, NotLonger-mono (count t.0) (count s.0) ts le d.0), d)
      | inr e ↦
          let le : count s.0 ≤ count t.0 = ground arith in
          rw e (
            insert_by_length-NotLonger (count t.0) s ts le d.0,
            insert_by_length-Descending s ts d.1,
          )
    ]

sort_by_length-Descending : (ss : List Segment) → Descending (sort_by_length ss)
unfolding sort_by_length
sort_by_length-Descending [] = tt
sort_by_length-Descending (s ∷ ss) =
    insert_by_length-Descending s (sort_by_length ss) (sort_by_length-Descending ss)

swap :
    (x s t : Segment) (ts us : List Segment)
    → (Among x us → Among x (s ∷ ts))
    → Among x (t ∷ us)
    → Among x (s ∷ t ∷ ts)
swap x s t ts us ih (inl e) = inr (inl e)
swap x s t ts us ih (inr m) = elim (ih m) [ inl e ↦ inl e | inr k ↦ inr (inr k) ]

swap_back :
    (x s t : Segment) (ts us : List Segment)
    → (Among x (s ∷ ts) → Among x us)
    → Among x (s ∷ t ∷ ts)
    → Among x (t ∷ us)
swap_back x s t ts us ih (inl e) = inr (ih (inl e))
swap_back x s t ts us ih (inr (inl e)) = inl e
swap_back x s t ts us ih (inr (inr m)) = inr (ih (inr m))

under :
    (x s : Segment) (ts us : List Segment)
    → (Among x ts → Among x us)
    → Among x (s ∷ ts)
    → Among x (s ∷ us)
under x s ts us f (inl e) = inl e
under x s ts us f (inr m) = inr (f m)

-- Sorting keeps the entries, in both directions.
Among-insert_by_length :
    (x s : Segment) (ss : List Segment) → Among x (insert_by_length s ss) → Among x (s ∷ ss)
unfolding insert_by_length
Among-insert_by_length x s [] m = m
Among-insert_by_length x s (t ∷ ts) m =
    elim (Bool-cases (ltb (count t.0) (count s.0) || count t.0 == count s.0)) [
      | inl e ↦ rw e at m
      | inr e ↦ swap x s t ts (insert_by_length s ts) (Among-insert_by_length x s ts) (rw e at m)
    ]

insert_by_length-Among :
    (x s : Segment) (ss : List Segment) → Among x (s ∷ ss) → Among x (insert_by_length s ss)
unfolding insert_by_length
insert_by_length-Among x s [] m = m
insert_by_length-Among x s (t ∷ ts) m =
    elim (Bool-cases (ltb (count t.0) (count s.0) || count t.0 == count s.0)) [
      | inl e ↦ rw e m
      | inr e ↦ rw e (swap_back x s t ts (insert_by_length s ts) (insert_by_length-Among x s ts) m)
    ]

Among-sort_by_length : (x : Segment) (ss : List Segment) → Among x (sort_by_length ss) → Among x ss
unfolding sort_by_length
Among-sort_by_length x [] m = m
Among-sort_by_length x (s ∷ ss) m =
    under x s (sort_by_length ss) ss (Among-sort_by_length x ss)
      (Among-insert_by_length x s (sort_by_length ss) m)

sort_by_length-Among : (x : Segment) (ss : List Segment) → Among x ss → Among x (sort_by_length ss)
unfolding sort_by_length
sort_by_length-Among x [] m = m
sort_by_length-Among x (s ∷ ss) m =
    insert_by_length-Among x s (sort_by_length ss)
      (under x s ss (sort_by_length ss) (sort_by_length-Among x ss) m)

-- The level is that of an entry whose prefix the path has, and no entry with a longer prefix has it
-- too; or no entry's prefix is the path's, and it is 60.
abbrev pub OfLongest : String → List Segment → ℕ → Type 0
OfLongest path ss n =
    ((e : Segment) × Among e ss
      × (starts_with path e.0 ≡ true)
      × (e.1 ≡ n)
      × ((d : Segment) → Among d ss → starts_with path d.0 ≡ true → count d.0 ≤ count e.0))
    ⊎ (((d : Segment) → Among d ss → starts_with path d.0 ≡ false) × (n ≡ 60))

All-Among : (n : ℕ) (d : Segment) (ss : List Segment) → NotLonger n ss → Among d ss → count d.0 ≤ n
All-Among n d [] a m = elim m [ ]
All-Among n d (s ∷ ss) a (inl e) = rw e a.0
All-Among n d (s ∷ ss) a (inr m) = All-Among n d ss a.1 m

false_is_true : false ≡ true → ⊥
false_is_true e = cc

none_matching :
    (path prefix : String) (level : ℕ) (ss : List Segment)
    → starts_with path prefix ≡ false
    → ((d : Segment) → Among d ss → starts_with path d.0 ≡ false)
    → (d : Segment) → Among d ((prefix, level) ∷ ss)
    → starts_with path d.0 ≡ false
none_matching path prefix level ss e h d (inl f) = ap (λ (t : Segment). starts_with path t.0) f ∙ e
none_matching path prefix level ss e h d (inr m) = h d m

no_longer_matching :
    (path prefix : String) (level n : ℕ) (ss : List Segment)
    → starts_with path prefix ≡ false
    → ((d : Segment) → Among d ss → starts_with path d.0 ≡ true → count d.0 ≤ n)
    → (d : Segment) → Among d ((prefix, level) ∷ ss)
    → starts_with path d.0 ≡ true
    → count d.0 ≤ n
no_longer_matching path prefix level n ss e h d (inl f) k =
    absurd (false_is_true (sym e ∙ sym (ap (λ (t : Segment). starts_with path t.0) f) ∙ k))
no_longer_matching path prefix level n ss e h d (inr m) k = h d m k

longest_of_rest :
    (path prefix : String) (level : ℕ) (ss : List Segment) {n : ℕ}
    → starts_with path prefix ≡ false
    → OfLongest path ss n
    → OfLongest path ((prefix, level) ∷ ss) n
longest_of_rest path prefix level ss e (inl (x, m, k, f, h)) =
    inl (x, inr m, k, f, no_longer_matching path prefix level (count x.0) ss e h)
longest_of_rest path prefix level ss e (inr (h, f)) =
    inr (none_matching path prefix level ss e h, f)

level_of-OfLongest :
    (path : String) (ss : List Segment) → Descending ss → OfLongest path ss (level_of path ss)
unfolding level_of
level_of-OfLongest path [] d = inr (λ e m. elim m [ ], refl)
level_of-OfLongest path ((prefix, level) ∷ ss) d = elim (Bool-cases (starts_with path prefix)) [
  | inl e ↦ rw e (
      inl (
        (prefix, level),
        inl refl,
        e,
        refl,
        λ x m k. All-Among (count prefix) x ((prefix, level) ∷ ss) (omega arith, d.0) m,
      ))
  | inr e ↦ rw e (longest_of_rest path prefix level ss e (level_of-OfLongest path ss d.1))
]

unsorted :
    (path : String) {n : ℕ}
    → OfLongest path (sort_by_length segment_trust_levels) n
    → OfLongest path segment_trust_levels n
unsorted path (inl (x, m, k, f, h)) = inl (
  x,
  Among-sort_by_length x segment_trust_levels m,
  k,
  f,
  λ d l. h d (sort_by_length-Among d segment_trust_levels l),
)
unsorted path (inr (h, f)) = inr (λ d l. h d (sort_by_length-Among d segment_trust_levels l), f)

-- The level of a path is that of the entry with the longest prefix among the entries whose prefix the
-- path has, or 60 where it has none of them.
pub required_trust_level-OfLongest :
    (path : String) → OfLongest path segment_trust_levels (required_trust_level path)
unfolding required_trust_level
required_trust_level-OfLongest path = unsorted path (
    level_of-OfLongest path (sort_by_length segment_trust_levels)
      (sort_by_length-Descending segment_trust_levels))
