-- ===== src/Base/Lists.antt =====
-- Lists measured by native numbers, Boolean selection, and membership by recursion.
use Prim.Native.Nat.{ℕ, suc, ◌+◌}
use mathlib.Core.Path.{◌≡◌, refl, ap, ap₂}
use mathlib.Core.Logic.{◌⊎◌, inl, inr}
use mathlib.Core.Bool.{Bool, true, false, ◌&&◌, ◌||◌}
use mathlib.Core.List.{List, [], ◌∷◌, ◌++◌, map, Permᴰ}
use native.Mathlib.Omega.{arith}
use kan_pad.Base.Tests.{if◌then◌else◌}

module _ {ℓ} {A : Type ℓ} where
  abbrev pub length : List A → ℕ
  length [] = 0
  length (x ∷ xs) = suc (length xs)

  -- `xs.filter(p)`
  abbrev pub select : (A → Bool) → List A → List A
  select p [] = []
  select p (x ∷ xs) = let rest = select p xs in if p x then x ∷ rest else rest

  -- `xs.some(p)`
  abbrev pub any : (A → Bool) → List A → Bool
  any p [] = false
  any p (x ∷ xs) = p x || any p xs

  -- `xs.every(p)`
  abbrev pub all : (A → Bool) → List A → Bool
  all p [] = true
  all p (x ∷ xs) = p x && all p xs

  abbrev pub All {κ} : (A → Type κ) → List A → Type κ
  All P [] = Unit
  All P (x ∷ xs) = P x × All P xs

  pub length-append : (xs ys : List A) → length (xs ++ ys) ≡ length xs + length ys
  length-append [] ys = omega arith
  length-append (x ∷ xs) ys = omega (arith, length-append xs ys)

  pub length-Permᴰ : {xs ys : List A} → Permᴰ xs ys → length xs ≡ length ys
  length-Permᴰ Permᴰ.nil = refl
  length-Permᴰ (Permᴰ.cons e p) = ap suc (length-Permᴰ p)
  length-Permᴰ (Permᴰ.swap e f) = refl
  length-Permᴰ (Permᴰ.trans p q) = omega (arith, length-Permᴰ p, length-Permᴰ q)

  pub select-select :
      (p q : A → Bool) (xs : List A) → select p (select q xs) ≡ select (λ x. q x && p x) xs
  select-select p q [] = refl
  select-select p q (x ∷ xs) = ground (arith, select-select p q xs)

  pub any-Permᴰ : (p : A → Bool) {xs ys : List A} → Permᴰ xs ys → any p xs ≡ any p ys
  any-Permᴰ p Permᴰ.nil = refl
  any-Permᴰ p (Permᴰ.cons e r) = ground (arith, any-Permᴰ p r)
  any-Permᴰ p (Permᴰ.swap e f) = ground arith
  any-Permᴰ p (Permᴰ.trans r s) = ground (arith, any-Permᴰ p r, any-Permᴰ p s)

module _ {A : Type 0} where
  abbrev pub Member : A → List A → Type 0
  Member x [] = ⊥
  Member x (y ∷ ys) = (x ≡ y) ⊎ Member x ys

  pub Member-Permᴰ : (x : A) {xs ys : List A} → Permᴰ xs ys → Member x xs → Member x ys
  Member-Permᴰ x Permᴰ.nil m = m
  Member-Permᴰ x (Permᴰ.cons e p) (inl h) = inl (ground arith)
  Member-Permᴰ x (Permᴰ.cons e p) (inr m) = inr (Member-Permᴰ x p m)
  Member-Permᴰ x (Permᴰ.swap e f) (inl h) = inr (inl (ground arith))
  Member-Permᴰ x (Permᴰ.swap e f) (inr (inl h)) = inl (ground arith)
  Member-Permᴰ x (Permᴰ.swap e f) (inr (inr m)) = inr (inr m)
  Member-Permᴰ x (Permᴰ.trans p q) m = Member-Permᴰ x q (Member-Permᴰ x p m)

  pub Member-select :
      (p : A → Bool) (x : A) (xs : List A) → Member x (select p xs) → Member x xs × (p x ≡ true)
  Member-select p x [] m = absurd m
  Member-select p x (y ∷ ys) m = ground (arith, Member-select p x ys)

  pub select-Member :
      (p : A → Bool) (x : A) (xs : List A) → Member x xs → p x ≡ true → Member x (select p xs)
  select-Member p x [] m h = m
  select-Member p x (y ∷ ys) m h = ground (arith, select-Member p x ys)

  pub map-cong :
      {B : Type 0} (f g : A → B) (xs : List A)
      → ((x : A) → Member x xs → f x ≡ g x)
      → map f xs ≡ map g xs
  map-cong f g [] h = refl
  map-cong f g (x ∷ xs) h = ground (arith, h x (inl refl), map-cong f g xs (λ y m. h y (inr m)))

module _ {A B C : Type 0} where
  pub map-map : (f : A → B) (g : B → C) (xs : List A) → map g (map f xs) ≡ map (λ x. g (f x)) xs
  map-map f g [] = refl
  map-map f g (x ∷ xs) = ap (◌∷◌ (g (f x))) (map-map f g xs)

module _ {A B : Type 0} where
  pub Member-map : (f : A → B) (x : A) (xs : List A) → Member x xs → Member (f x) (map f xs)
  Member-map f x [] m = m
  Member-map f x (y ∷ ys) (inl h) = inl (ap f h)
  Member-map f x (y ∷ ys) (inr m) = inr (Member-map f x ys m)

  pub map-Member :
      (f : A → B) (y : B) (xs : List A) → Member y (map f xs) → (x : A) × Member x xs × (y ≡ f x)
  map-Member f y [] m = absurd m
  map-Member f y (x ∷ xs) (inl h) = (x, inl refl, h)
  map-Member f y (x ∷ xs) (inr m) = let (z, mz, e) = map-Member f y xs m in (z, inr mz, e)

module _ {A : Type 0} where
  -- a pass that keeps what a test sees keeps how many it admits
  pub length-select-map :
      (p : A → Bool) (f : A → A) (xs : List A)
      → ((x : A) → p (f x) ≡ p x)
      → length (select p (map f xs)) ≡ length (select p xs)
  length-select-map p f [] h = refl
  length-select-map p f (x ∷ xs) h = ground (arith, h x, length-select-map p f xs h)

  -- a pass that changes no row changes nothing
  pub map-same : (f : A → A) (xs : List A) → ((x : A) → Member x xs → f x ≡ x) → map f xs ≡ xs
  map-same f [] h = refl
  map-same f (x ∷ xs) h = ap₂ ◌∷◌ (h x (inl refl)) (map-same f xs (λ y m. h y (inr m)))

  pub Member-snoc : (y x : A) (t : List A) → Member y (t ++ x ∷ []) → Member y t ⊎ (y ≡ x)
  Member-snoc y x [] (inl h) = inr h
  Member-snoc y x [] (inr m) = absurd m
  Member-snoc y x (z ∷ zs) (inl h) = inl (inl h)
  Member-snoc y x (z ∷ zs) (inr m) = elim (Member-snoc y x zs m) [
    | inl k ↦ inl (inr k)
    | inr e ↦ inr e
  ]

  pub snoc-Member : (x : A) (t : List A) → Member x (t ++ x ∷ [])
  snoc-Member x [] = inl refl
  snoc-Member x (z ∷ zs) = inr (snoc-Member x zs)

  pub Member-left : (y x : A) (t : List A) → Member y t → Member y (t ++ x ∷ [])
  Member-left y x [] m = absurd m
  Member-left y x (z ∷ zs) (inl h) = inl h
  Member-left y x (z ∷ zs) (inr m) = inr (Member-left y x zs m)

  -- a stronger test admits no row where a weaker one admits none
  pub any-weaken :
      (p q : A → Bool) (t : List A)
      → ((x : A) → p x ≡ false → q x ≡ false)
      → any p t ≡ false
      → any q t ≡ false
  any-weaken p q [] h e = refl
  any-weaken p q (x ∷ xs) h e = ground (arith, h x, any-weaken p q xs h)

  pub select-append :
      (p : A → Bool) (xs ys : List A) → select p (xs ++ ys) ≡ select p xs ++ select p ys
  select-append p [] ys = refl
  select-append p (x ∷ xs) ys = ground (arith, select-append p xs ys)

  pub any-false : (p : A → Bool) (x : A) (t : List A) → any p t ≡ false → Member x t → p x ≡ false
  any-false p x [] h m = absurd m
  any-false p x (y ∷ ys) h (inl e) = ground arith
  any-false p x (y ∷ ys) h (inr m) = ground (arith, any-false p x ys)

  -- selecting what a stronger test admits changes nothing for it
  pub any-select-weaken :
      (p q : A → Bool) (t : List A)
      → ((x : A) → p x ≡ true → q x ≡ true)
      → any p (select q t) ≡ any p t
  any-select-weaken p q [] h = refl
  any-select-weaken p q (x ∷ xs) h = ground (arith, h x, any-select-weaken p q xs h)

  pub any-none :
      (p : A → Bool) (t : List A) → ((x : A) → Member x t → p x ≡ false) → any p t ≡ false
  any-none p [] h = refl
  any-none p (x ∷ xs) h = ground (arith, h x (inl refl), any-none p xs (λ y m. h y (inr m)))

  pub append-nil : (xs : List A) → xs ++ [] ≡ xs
  append-nil [] = refl
  append-nil (x ∷ xs) = ap (◌∷◌ x) (append-nil xs)

  pub append-append : (xs : List A) (x : A) (ys : List A) → (xs ++ x ∷ []) ++ ys ≡ xs ++ x ∷ ys
  append-append [] x ys = refl
  append-append (z ∷ zs) x ys = ap (◌∷◌ z) (append-append zs x ys)
