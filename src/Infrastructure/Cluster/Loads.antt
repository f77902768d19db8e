-- ===== src/Infrastructure/Cluster/Loads.antt =====
-- The candidate of the least load, as backend/infrastructure/multi_node.py chooses it.
use dutchkem_trading_ai.Common.Dict.{Dict}
use dutchkem_trading_ai.Common.{
  ℕ, ◌≤◌, String, Option, none, some, Bool, true, false, [], ◌∷◌, ltb, ◌&&◌, ◌≡◌, ◌⊎◌, inl, inr,
  refl, arith, Bool-cases, sym, ap, ◌∙◌, Among,
}
use dutchkem_trading_ai.Infrastructure.Cluster.{Member, least_loaded}

-- no entry that passes the test has a smaller load
abbrev pub NoLess : (String → Member → Bool) → ℕ → Dict Member → Type 0
NoLess p load d = (e : String × Member) → Among e d → p e.0 e.1 ≡ true → load ≤ e.1.load_score

-- the first of the least load, among entries that pass the test, or none of them passes
abbrev pub Least : (String → Member → Bool) → Dict Member → Option (String × ℕ) → Type 0
Least p d none = (e : String × Member) → Among e d → p e.0 e.1 ≡ false
Least p d (some (k, load)) =
    (n : Member) × Among (k, n) d × (p k n ≡ true) × (n.load_score ≡ load) × NoLess p load d

-- from a best entry so far
abbrev LeastFrom :
    (String → Member → Bool) → String × ℕ → Dict Member → Option (String × ℕ) → Type 0
LeastFrom p (j, load) d none = ⊥
LeastFrom p (j, load) d (some (k, l)) =
    (l ≤ load)
    × (((k ≡ j) × (l ≡ load))
        ⊎ ((n : Member) × Among (k, n) d × (p k n ≡ true) × (n.load_score ≡ l)))
    × NoLess p l d

pub false_is_true : false ≡ true → ⊥
false_is_true e = cc

module _ (p : String → Member → Bool) where
  found :
      (k : String) (n : Member) (i : String) (l : ℕ) (d : Dict Member)
      → p k n ≡ true
      → ((i ≡ k) × (l ≡ n.load_score))
        ⊎ ((m : Member) × Among (i, m) d × (p i m ≡ true) × (m.load_score ≡ l))
      → (m : Member) × Among (i, m) ((k, n) ∷ d) × (p i m ≡ true) × (m.load_score ≡ l)
  found k n i l d e (inl (f, g)) =
      (n, inl (ap (λ (t : String). (t, n)) f), ap (λ t. p t n) f ∙ e, sym g)
  found k n i l d e (inr (m, a, b, c)) = (m, inr a, b, c)

  kept :
      (i j : String) (l load : ℕ) (k : String) (n : Member) (d : Dict Member)
      → ((i ≡ j) × (l ≡ load))
        ⊎ ((m : Member) × Among (i, m) d × (p i m ≡ true) × (m.load_score ≡ l))
      → ((i ≡ j) × (l ≡ load))
        ⊎ ((m : Member) × Among (i, m) ((k, n) ∷ d) × (p i m ≡ true) × (m.load_score ≡ l))
  kept i j l load k n d (inl e) = inl e
  kept i j l load k n d (inr (m, a, b, c)) = inr (m, inr a, b, c)

  no_less :
      (k : String) (n : Member) (l : ℕ) (d : Dict Member)
      → l ≤ n.load_score
      → NoLess p l d
      → NoLess p l ((k, n) ∷ d)
  no_less k n l d a c x (inl f) q = rw f a
  no_less k n l d a c x (inr m) q = c x m q

  NoLess-kept :
      (k : String) (n : Member) (l load : ℕ) (d : Dict Member)
      → (p k n && ltb n.load_score load) ≡ false
      → l ≤ load
      → NoLess p l d
      → NoLess p l ((k, n) ∷ d)
  NoLess-kept k n l load d e a c x (inl f) q =
      let h : p k n ≡ true = sym (ap (λ (t : String × Member). p t.0 t.1) f) ∙ q in
      rw f (ground (arith, h))
  NoLess-kept k n l load d e a c x (inr m) q = c x m q

  taken :
      (j : String) (load : ℕ) (k : String) (n : Member) (d : Dict Member)
      → (p k n && ltb n.load_score load) ≡ true
      → (o : Option (String × ℕ)) → LeastFrom p (k, n.load_score) d o
      → LeastFrom p (j, load) ((k, n) ∷ d) o
  taken j load k n d e none h = h
  taken j load k n d e (some (i, l)) (a, b, c) = (
    ground (arith, a),
    inr (found k n i l d (ground arith) b),
    λ x m q. no_less k n l d a c x m q,
  )

  passed :
      (j : String) (load : ℕ) (k : String) (n : Member) (d : Dict Member)
      → (p k n && ltb n.load_score load) ≡ false
      → (o : Option (String × ℕ)) → LeastFrom p (j, load) d o
      → LeastFrom p (j, load) ((k, n) ∷ d) o
  passed j load k n d e none h = h
  passed j load k n d e (some (i, l)) (a, b, c) =
      (a, kept i j l load k n d b, λ x m q. NoLess-kept k n l load d e a c x m q)

  least_loaded-LeastFrom :
      (j : String) (load : ℕ) (d : Dict Member)
      → LeastFrom p (j, load) d (least_loaded p (some (j, load)) d)
  unfolding least_loaded
  least_loaded-LeastFrom j load [] = (omega arith, inl (refl, refl), λ e m. absurd m)
  least_loaded-LeastFrom j load ((k, n) ∷ d) = elim (Bool-cases (p k n && ltb n.load_score load)) [
    | inl e ↦ rw e (
        taken j load k n d e (least_loaded p (some (k, n.load_score)) d)
          (least_loaded-LeastFrom k n.load_score d))
    | inr e ↦ rw e (
        passed j load k n d e (least_loaded p (some (j, load)) d) (least_loaded-LeastFrom j load d))
  ]

  none_passes :
      (k : String) (n : Member) (d : Dict Member)
      → p k n ≡ false
      → ((e : String × Member) → Among e d → p e.0 e.1 ≡ false)
      → (e : String × Member) → Among e ((k, n) ∷ d)
      → p e.0 e.1 ≡ false
  none_passes k n d e h x (inl f) = ap (λ (t : String × Member). p t.0 t.1) f ∙ e
  none_passes k n d e h x (inr m) = h x m

  NoLess-skip :
      (k : String) (n : Member) (l : ℕ) (d : Dict Member)
      → p k n ≡ false
      → NoLess p l d
      → NoLess p l ((k, n) ∷ d)
  NoLess-skip k n l d e c x (inl f) q =
      absurd (false_is_true (sym e ∙ sym (ap (λ (t : String × Member). p t.0 t.1) f) ∙ q))
  NoLess-skip k n l d e c x (inr m) q = c x m q

  Least-skip :
      (k : String) (n : Member) (d : Dict Member) (o : Option (String × ℕ))
      → p k n ≡ false
      → Least p d o
      → Least p ((k, n) ∷ d) o
  Least-skip k n d none e h = λ x m. none_passes k n d e h x m
  Least-skip k n d (some (i, l)) e (m, a, b, c, r) =
      (m, inr a, b, c, λ x q v. NoLess-skip k n l d e r x q v)

  Least-first :
      (k : String) (n : Member) (d : Dict Member) (o : Option (String × ℕ))
      → p k n ≡ true
      → LeastFrom p (k, n.load_score) d o
      → Least p ((k, n) ∷ d) o
  Least-first k n d none e h = absurd h
  Least-first k n d (some (i, l)) e (a, b, c) =
      let (m, f, g, r) = found k n i l d e b in (m, f, g, r, λ x q v. no_less k n l d a c x q v)

  pub least_loaded-Least : (d : Dict Member) → Least p d (least_loaded p none d)
  unfolding least_loaded
  least_loaded-Least [] = λ e m. absurd m
  least_loaded-Least ((k, n) ∷ d) = elim (Bool-cases (p k n)) [
    | inl e ↦ rw e (
        Least-first k n d (least_loaded p (some (k, n.load_score)) d) e
          (least_loaded-LeastFrom k n.load_score d))
    | inr e ↦ rw e (Least-skip k n d (least_loaded p none d) e (least_loaded-Least d))
  ]
