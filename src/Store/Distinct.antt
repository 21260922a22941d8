-- ===== src/Store/Distinct.antt =====
-- Tables whose rows have distinct ids, and what a find selects in them.
use kan_pad.Base.{
  ℕ, ◌≡◌, refl, ◌∙◌, sym, inl, inr, Bool, true, false, List, [], ◌∷◌, map, arith, any, select,
  Member, Member-Permᴰ, any-Permᴰ, Member-select, select-Member, Bool-cases, ◌==◌, ==_iff, ==_refl,
}
use mathlib.Core.List.{Permᴰ}

module _ {Row : Type 0} where
  -- No two rows have one id.
  abbrev pub Distinct : (Row → ℕ) → List Row → Type 0
  Distinct id [] = Unit
  Distinct id (x ∷ xs) = (any (λ y. id x == id y) xs ≡ false) × Distinct id xs

  abbrev pub same_id : (Row → ℕ) → Row → Row → Bool
  same_id id x y = id x == id y

  pub any-Member :
      (p : Row → Bool) (x : Row) (t : List Row) → Member x t → p x ≡ true → any p t ≡ true
  any-Member p x [] m h = absurd m
  any-Member p x (y ∷ ys) m h = ground (arith, any-Member p x ys)

  any-map :
      (id : Row → ℕ) (i : ℕ) (f : Row → Row) (t : List Row)
      → ((x : Row) → id (f x) ≡ id x)
      → any (λ y. i == id y) (map f t) ≡ any (λ y. i == id y) t
  any-map id i f [] h = refl
  any-map id i f (x ∷ xs) h = rw (h x, any-map id i f xs h)

  pub Distinct-map :
      (id : Row → ℕ) (f : Row → Row) (t : List Row)
      → ((x : Row) → id (f x) ≡ id x)
      → Distinct id t
      → Distinct id (map f t)
  Distinct-map id f [] h d = tt
  Distinct-map id f (x ∷ xs) h d =
      (rw (h x, any-map id (id x) f xs h) d.0, Distinct-map id f xs h d.1)

  -- In such a table an id determines its row.
  pub Distinct-unique :
      (id : Row → ℕ) (x y : Row) (t : List Row)
      → Distinct id t
      → Member x t
      → Member y t
      → id x ≡ id y
      → x ≡ y
  Distinct-unique id x y [] d mx my e = absurd mx
  Distinct-unique id x y (z ∷ zs) d (inl p) (inl q) e = p ∙ sym q
  Distinct-unique id x y (z ∷ zs) d (inl p) (inr my) e =
      ground (arith, any-Member (λ w. id z == id w) y zs my)
  Distinct-unique id x y (z ∷ zs) d (inr mx) (inl q) e =
      ground (arith, any-Member (λ w. id z == id w) x zs mx)
  Distinct-unique id x y (z ∷ zs) d (inr mx) (inr my) e = Distinct-unique id x y zs d.1 mx my e

module _ {Row : Type 0} (id : Row → ℕ) where
  pub any-same : (x : Row) (t : List Row) → Member x t → any (same_id id x) t ≡ true
  any-same x t m = any-Member (same_id id x) x t m (==_refl (id x))

  pub Member-any :
      (y : Row) (xs : List Row)
      → any (same_id id y) xs ≡ true
      → (x : Row) × Member x xs × (id y ≡ id x)
  Member-any y [] h = absurd (ground arith)
  Member-any y (x ∷ xs) h = elim (Bool-cases (id y == id x)) [
    | inl p ↦ (x, inl refl, (==_iff _ _).0 p)
    | inr p ↦ let (z, m, e) = Member-any y xs (ground arith) in (z, inr m, e)
  ]

  pub any-selected :
      (p : Row → Bool) (xs t : List Row)
      → Distinct id t
      → Permᴰ xs (select p t)
      → (y : Row) → Member y t
      → any (same_id id y) xs ≡ p y
  any-selected p xs t d perm y my = elim (Bool-cases (any (same_id id y) xs)) [
    | inl h ↦
        let (x, m, e) = Member-any y xs h in
        let (mx, px) = Member-select p x t (Member-Permᴰ x perm m) in
        let same : y ≡ x = Distinct-unique id y x t d my mx e in h ∙ sym (rw same px)
    | inr h ↦ elim (Bool-cases (p y)) [
      | inl q ↦
          let found : any (same_id id y) xs ≡ true =
            rw (any-Permᴰ (same_id id y) perm)
              (any-same y (select p t) (select-Member p y t my q)) in
          found ∙ sym q
      | inr q ↦ h ∙ sym q
    ]
  ]

module _ {Row : Type 0} (id : Row → ℕ) where
  any-select :
      (i : ℕ) (p : Row → Bool) (t : List Row)
      → any (λ y. i == id y) t ≡ false
      → any (λ y. i == id y) (select p t) ≡ false
  any-select i p [] h = refl
  any-select i p (x ∷ xs) h = ground (arith, any-select i p xs)

  pub Distinct-select : (p : Row → Bool) (t : List Row) → Distinct id t → Distinct id (select p t)
  Distinct-select p [] d = tt
  Distinct-select p (x ∷ xs) d =
      ground (arith, Distinct-select p xs d.1, any-select (id x) p xs d.0)

  pub Distinct-Permᴰ : {xs ys : List Row} → Permᴰ xs ys → Distinct id xs → Distinct id ys
  Distinct-Permᴰ Permᴰ.nil d = d
  Distinct-Permᴰ (Permᴰ.cons {a = x} {b = y} e r) d =
      (rw (← e) (rw (← any-Permᴰ (λ z. id x == id z) r) d.0), Distinct-Permᴰ r d.1)
  Distinct-Permᴰ (Permᴰ.swap e f) d = ground arith
  Distinct-Permᴰ (Permᴰ.trans r s) d = Distinct-Permᴰ s (Distinct-Permᴰ r d)
