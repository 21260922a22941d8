-- ===== src/Frontend/Arrays.antt =====
-- JavaScript's array methods as frontend/src uses them, read at every index.
use kan_pad.Base.{
  ℕ, zero, suc, ◌-◌, ◌≤◌, ◌<◌, ◌≡◌, refl, ◌≢◌, not, Bool, List, [], ◌∷◌, Option, none, some, arith,
  length, select, ltb, ◌==◌, if◌then◌else◌,
}

abbrev next_index : Option ℕ → Option ℕ
next_index none = none
next_index (some i) = some (suc i)

module _ {A : Type 0} where
  -- `xs.find(p)`
  unfoldable pub find : (A → Bool) → List A → Option A
  find p [] = none
  find p (x ∷ xs) = let rest = find p xs in if p x then some x else rest

  -- `xs.findIndex(p)`; `none` stands for -1
  unfoldable pub find_index : (A → Bool) → List A → Option ℕ
  find_index p [] = none
  find_index p (x ∷ xs) = let rest = next_index (find_index p xs) in if p x then some 0 else rest

  -- `xs.splice(i, 0, x)`: an index past the end adds at the end
  unfoldable pub insert_at : ℕ → A → List A → List A
  insert_at zero x xs = x ∷ xs
  insert_at (suc i) x [] = x ∷ []
  insert_at (suc i) x (y ∷ ys) = y ∷ insert_at i x ys

  -- `xs.splice(i, 1)`
  unfoldable pub remove_at : ℕ → List A → List A
  remove_at i [] = []
  remove_at zero (x ∷ xs) = xs
  remove_at (suc i) (x ∷ xs) = x ∷ remove_at i xs

  -- `xs[i]`
  unfoldable pub nth : List A → ℕ → Option A
  nth [] i = none
  nth (x ∷ xs) zero = some x
  nth (x ∷ xs) (suc i) = nth xs i

  pub nth-length : (xs : List A) (i : ℕ) {x : A} → nth xs i ≡ some x → i < length xs
  unfolding nth
  nth-length [] i e = ground arith
  nth-length (x ∷ xs) zero e = omega arith
  nth-length (x ∷ xs) (suc i) e = omega (arith, nth-length xs i e)

  pub nth-below : (xs : List A) (i : ℕ) → i < length xs → (x : A) × (nth xs i ≡ some x)
  unfolding nth
  nth-below [] i h = absurd (omega arith)
  nth-below (x ∷ xs) zero h = (x, refl)
  nth-below (x ∷ xs) (suc i) h = nth-below xs i (omega arith)

  -- what is left of an array around a new element
  pub nth-insert_at :
      (i : ℕ) (x : A) (xs : List A) (j : ℕ)
      → i ≤ length xs
      → nth (insert_at i x xs) j
        ≡ (if ltb j i then nth xs j else if j == i then some x else nth xs (j - 1))
  unfolding nth insert_at
  nth-insert_at zero x xs zero h = refl
  nth-insert_at zero x xs (suc j) h = ground arith
  nth-insert_at (suc i) x [] j h = absurd (omega arith)
  nth-insert_at (suc i) x (y ∷ ys) zero h = ground arith
  nth-insert_at (suc i) x (y ∷ ys) (suc zero) h =
      ground (arith, nth-insert_at i x ys zero (omega arith))
  nth-insert_at (suc i) x (y ∷ ys) (suc (suc j)) h =
      ground (arith, nth-insert_at i x ys (suc j) (omega arith))

  pub nth-remove_at :
      (i : ℕ) (xs : List A) (j : ℕ)
      → nth (remove_at i xs) j ≡ (if ltb j i then nth xs j else nth xs (suc j))
  unfolding nth remove_at
  nth-remove_at i [] j = ground arith
  nth-remove_at zero (x ∷ xs) j = ground arith
  nth-remove_at (suc i) (x ∷ xs) zero = ground arith
  nth-remove_at (suc i) (x ∷ xs) (suc j) = ground (arith, nth-remove_at i xs j)

-- `ids.filter((c) => c !== id)`
abbrev pub without : ℕ → List ℕ → List ℕ
without id ids = select (λ j. not (j == id)) ids

pub without-without : (id : ℕ) (ids : List ℕ) → without id (without id ids) ≡ without id ids
without-without id [] = refl
without-without id (j ∷ ids) = ground (arith, without-without id ids)

pub without-insert_at : (id i : ℕ) (ids : List ℕ) → without id (insert_at i id ids) ≡ without id ids
unfolding insert_at
without-insert_at id zero ids = ground arith
without-insert_at id (suc i) [] = ground arith
without-insert_at id (suc i) (j ∷ ids) = ground (arith, without-insert_at id i ids)

pub without-absent :
    (id : ℕ) (ids : List ℕ) → ((i : ℕ) → nth ids i ≢ some id) → without id ids ≡ ids
unfolding nth
without-absent id [] h = refl
without-absent id (j ∷ ids) h = ground (arith, h zero, without-absent id ids (λ i. h (suc i)))

-- Where an id stands once, filtering it out removes that place.
pub without-once :
    (id p : ℕ) (ids : List ℕ)
    → nth ids p ≡ some id
    → ((i : ℕ) → nth ids i ≡ some id → i ≡ p)
    → without id ids ≡ remove_at p ids
unfolding nth remove_at
without-once id p [] e h = refl
without-once id zero (j ∷ ids) e h =
    ground (arith, without-absent id ids (λ i k. let q = h (suc i) k in absurd (omega arith)))
without-once id (suc p) (j ∷ ids) e h =
    ground (arith, h zero, without-once id p ids e (λ i k. let q = h (suc i) k in omega arith))
