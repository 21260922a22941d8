-- ===== src/Tests/Lawful.antt =====
-- The database in memory satisfies the hypotheses on a repository.
use mathlib.Core.List.{Permᴰ}
use mathlib.Core.Path.{subst}
use kan_pad.Base.{
  ℕ, ◌≤◌, zero, suc, ap, ◌≡◌, refl, sym, inl, inr, Bool, true, false, List, [], ◌∷◌, none, some,
  length, select, any, Member, Member-select, arith, ◌==◌, Bool-cases, Option-cases,
}
use kan_pad.Tests.Memory.{
  find_first, before, insert_by, sort_by, take, drop, largest, fresh, in_memory,
}
use kan_pad.Base.Int.{ℤ, leb_ℤ, ◌≤ℤ◌}
use kan_pad.Store.Repository.{Order, asc, desc}
use kan_pad.Store.Repository.Documented.{IsDocumented, IsGenerated, IsOrdered, Before}

module _ {Row : Type 0} where
  find_first_sound :
      (p : Row → Bool) (t : List Row) (x : Row)
      → find_first p t ≡ some x
      → Member x t × (p x ≡ true)
  find_first_sound p [] x h = absurd (ground arith)
  find_first_sound p (y ∷ ys) x h = elim (Bool-cases (p y)) [
    | inl e ↦ let same : y ≡ x = ground arith in (inl (sym same), rw (← same) e)
    | inr e ↦ let (m, q) = find_first_sound p ys x (ground arith) in (inr m, q)
  ]

  find_first_complete :
      (p : Row → Bool) (t : List Row) (x : Row) → find_first p t ≡ none → Member x t → p x ≡ false
  find_first_complete p [] x h m = absurd m
  find_first_complete p (y ∷ ys) x h (inl e) = ground arith
  find_first_complete p (y ∷ ys) x h (inr m) = ground (arith, find_first_complete p ys x)

  Permᴰ-refl : (xs : List Row) → Permᴰ xs xs
  Permᴰ-refl [] = Permᴰ.nil
  Permᴰ-refl (x ∷ xs) = Permᴰ.cons refl (Permᴰ-refl xs)

  insert_by-Permᴰ :
      (o : Order) (key : Row → ℤ) (x : Row) (xs : List Row) → Permᴰ (insert_by o key x xs) (x ∷ xs)
  insert_by-Permᴰ o key x [] = Permᴰ-refl _
  insert_by-Permᴰ o key x (y ∷ ys) = elim (Bool-cases (before o key x y)) [
    | inl e ↦ rw e (Permᴰ-refl _)
    | inr e ↦
        rw e (Permᴰ.trans (Permᴰ.cons refl (insert_by-Permᴰ o key x ys)) (Permᴰ.swap refl refl))
  ]

  sort_by-Permᴰ : (o : Order) (key : Row → ℤ) (xs : List Row) → Permᴰ (sort_by o key xs) xs
  sort_by-Permᴰ o key [] = Permᴰ.nil
  sort_by-Permᴰ o key (x ∷ xs) =
      Permᴰ.trans (insert_by-Permᴰ o key x (sort_by o key xs))
        (Permᴰ.cons refl (sort_by-Permᴰ o key xs))

  -- what the order of two rows says
  before-true : (o : Order) (key : Row → ℤ) (x y : Row) → before o key x y ≡ true → Before o key x y
  before-true asc key x y h = ground arith
  before-true desc key x y h = ground arith

  before-false :
      (o : Order) (key : Row → ℤ) (x y : Row) → before o key x y ≡ false → Before o key y x
  before-false asc key x y h = ground arith
  before-false desc key x y h = ground arith

  insert_by-IsOrdered :
      (o : Order) (key : Row → ℤ) (x : Row) (xs : List Row)
      → IsOrdered o key xs
      → IsOrdered o key (insert_by o key x xs)
  insert_by-IsOrdered o key x [] h = tt
  insert_by-IsOrdered o key x (y ∷ []) h = elim (Bool-cases (before o key x y)) [
    | inl e ↦ rw e (before-true o key x y e, tt)
    | inr e ↦ rw e (before-false o key x y e, tt)
  ]
  insert_by-IsOrdered o key x (y ∷ z ∷ zs) h =
      let rest = insert_by-IsOrdered o key x (z ∷ zs) h.1 in
      elim (Bool-cases (before o key x y)) [
        | inl e ↦ rw e (before-true o key x y e, h)
        | inr e ↦ elim (Bool-cases (before o key x z)) [
          | inl f ↦ rw (e, f) (before-false o key x y e, (before-true o key x z f, h.1))
          | inr f ↦ rw (e, f) (h.0, rw f at rest)
        ]
      ]

  sort_by-IsOrdered :
      (o : Order) (key : Row → ℤ) (xs : List Row) → IsOrdered o key (sort_by o key xs)
  sort_by-IsOrdered o key [] = tt
  sort_by-IsOrdered o key (x ∷ xs) =
      insert_by-IsOrdered o key x (sort_by o key xs) (sort_by-IsOrdered o key xs)

  drop-Member : (n : ℕ) (x : Row) (xs : List Row) → Member x (drop n xs) → Member x xs
  drop-Member zero x xs m = m
  drop-Member (suc n) x [] m = m
  drop-Member (suc n) x (y ∷ ys) m = inr (drop-Member n x ys m)

  take-Member : (n : ℕ) (x : Row) (xs : List Row) → Member x (take n xs) → Member x xs
  take-Member zero x xs m = absurd m
  take-Member (suc n) x [] m = m
  take-Member (suc n) x (y ∷ ys) (inl h) = inl h
  take-Member (suc n) x (y ∷ ys) (inr m) = inr (take-Member n x ys m)

  take_all : (n : ℕ) (xs : List Row) → length xs ≤ n → take n xs ≡ xs
  take_all zero [] h = refl
  take_all zero (x ∷ xs) h = absurd (omega arith)
  take_all (suc n) [] h = refl
  take_all (suc n) (x ∷ xs) h = ap (◌∷◌ x) (take_all n xs (omega arith))

  length-take : (n : ℕ) (xs : List Row) → length (take n xs) ≤ n
  length-take zero xs = omega arith
  length-take (suc n) [] = omega arith
  length-take (suc n) (x ∷ xs) = omega (arith, length-take n xs)

  largest-none :
      (key : Row → ℤ) (p : Row → Bool) (t : List Row) (x : Row)
      → largest key p t ≡ none
      → Member x t
      → p x ≡ false
  largest-none key p [] x h m = absurd m
  largest-none key p (y ∷ ys) x h m = elim (Bool-cases (p y)) [
    | inl e ↦ absurd (ground arith)
    | inr e ↦ ground (arith, largest-none key p ys x)
  ]

  largest_upper :
      (key : Row → ℤ) (p : Row → Bool) (t : List Row) (k : ℤ) (x : Row)
      → largest key p t ≡ some k
      → Member x t
      → p x ≡ true
      → key x ≤ℤ k
  largest_upper key p [] k x h m q = absurd m
  largest_upper key p (y ∷ ys) k x h m q = elim (Bool-cases (p y)) [
    | inl e ↦ elim (Option-cases (largest key p ys)) [
      | inl f ↦ ground (arith, largest-none key p ys x f)
      | inr (j, f) ↦ ground (arith, largest_upper key p ys j x f)
    ]
    | inr e ↦ ground (arith, largest_upper key p ys k x)
  ]

  largest_attained :
      (key : Row → ℤ) (p : Row → Bool) (t : List Row) (k : ℤ)
      → largest key p t ≡ some k
      → (x : Row) × Member x t × (p x ≡ true) × (key x ≡ k)
  largest_attained key p [] k h = absurd (ground arith)
  largest_attained key p (y ∷ ys) k h = elim (Bool-cases (p y)) [
    | inl e ↦ elim (Option-cases (largest key p ys)) [
      | inl f ↦ (y, inl refl, e, ground arith)
      | inr (j, f) ↦ elim (Bool-cases (leb_ℤ (key y) j)) [
        | inl g ↦ let (x, m, q, r) = largest_attained key p ys j f in (x, inr m, q, ground arith)
        | inr g ↦ (y, inl refl, e, ground arith)
      ]
    ]
    | inr e ↦ let (x, m, q, r) = largest_attained key p ys k (ground arith) in (x, inr m, q, r)
  ]

  fresh-positive : (id : Row → ℕ) (t : List Row) → 1 ≤ fresh id t
  fresh-positive id [] = omega arith
  fresh-positive id (x ∷ xs) = omega (arith, fresh-positive id xs)

  fresh-above :
      (id : Row → ℕ) (t : List Row) (n : ℕ) → fresh id t ≤ n → any (λ y. id y == n) t ≡ false
  fresh-above id [] n h = refl
  fresh-above id (x ∷ xs) n h =
      ground (arith, fresh-above id xs n (omega arith), fresh-positive id xs)

  pub in_memory-IsGenerated :
      (same : Row → Row → Bool) (id : Row → ℕ) → IsGenerated id (in_memory same id)
  in_memory-IsGenerated same id = record {
    insert_lem = λ make t. (
      record { id = fresh id t; created_at = fresh id t },
      refl,
      fresh-above id t _ (omega arith),
      ground (arith, fresh-positive id t),
    );
    update_lem = λ i change t. refl;
  }

  pub in_memory-IsDocumented :
      (same : Row → Row → Bool) (id : Row → ℕ) → IsDocumented same (in_memory same id)
  in_memory-IsDocumented same id = record {
    find_one-sound = find_first_sound;
    find_one-complete = find_first_complete;
    find-Permᴰ = λ p t. Permᴰ-refl _;
    find_ordered-Permᴰ = λ o key p t. sort_by-Permᴰ o key (select p t);
    find_ordered-IsOrdered = λ o key p t. sort_by-IsOrdered o key (select p t);
    find_page-sound = λ limit skip p t x m.
        Member-select p x t (drop-Member _ x _ (take-Member (suc limit) x _ m));
    length-find_page-le = λ limit skip p t. length-take (suc limit) _;
    find_page-Permᴰ = λ limit p t short.
        subst (λ u. Permᴰ u (select p t)) (sym (take_all (suc limit) (select p t) short))
          (Permᴰ-refl _);
    max-none = largest-none;
    max-some = largest_upper;
    max_attained = largest_attained;
    save_present = λ x t h. ground arith;
    save_absent = λ x t h. ground arith;
    remove_lem = λ x t. refl;
    delete_lem = λ p t. refl;
  }
