-- ===== src/Store/SaveAll.antt =====
-- `save(rows)` of rows that were read before: each takes the place of the row with its id.
use kan_pad.Base.{
  ℕ, ap, ◌∙◌, sym, ◌≡◌, refl, inl, inr, true, false, List, [], ◌∷◌, map, map-map, map-cong, arith,
  any, Member, ◌==◌, if◌then◌else◌,
}
use kan_pad.Store.Distinct.{Distinct, same_id, any-Member}
use kan_pad.Store.Repository.{Repository}
use kan_pad.Store.Repository.Documented.{replace, IsDocumented}

module _ {Row : Type 0} (id : Row → ℕ) where
  unfoldable pub save_all : Repository Row → List Row → List Row → List Row
  save_all r [] t = t
  save_all r (x ∷ xs) t = save_all r xs (r.save x t)

  -- the row that a list has for the id of `y`, or `y`
  unfoldable pub latest : List Row → Row → Row
  latest [] y = y
  latest (x ∷ xs) y = if id y == id x then x else latest xs y

  latest_absent : (x : Row) (xs : List Row) → any (λ y. id x == id y) xs ≡ false → latest xs x ≡ x
  unfolding latest
  latest_absent x [] h = refl
  latest_absent x (y ∷ ys) h = ground (arith, latest_absent x ys)

  -- all ids of `xs` occur in `t`
  abbrev pub Known : List Row → List Row → Type 0
  Known xs t = (x : Row) → Member x xs → any (same_id id x) t ≡ true

  map-latest_nil : (t : List Row) → map (latest []) t ≡ t
  unfolding latest
  map-latest_nil [] = refl
  map-latest_nil (y ∷ ys) = ap (◌∷◌ y) (map-latest_nil ys)

  any-replace :
      (x z : Row) (t : List Row)
      → any (same_id id z) (replace (same_id id) x t) ≡ any (same_id id z) t
  any-replace x z [] = refl
  any-replace x z (y ∷ ys) = ground (arith, any-replace x z ys)

  module _ (r : Repository Row) (doc : IsDocumented (same_id id) r) where
    pub save_all-latest :
        (xs t : List Row) → Distinct id xs → Known xs t → save_all r xs t ≡ map (latest xs) t
    unfolding save_all latest
    save_all-latest [] t d k = sym (map-latest_nil t)
    save_all-latest (x ∷ xs) t d k =
        let rest =
          save_all-latest xs (replace (same_id id) x t) d.1
            (λ z m. any-replace x z t ∙ k z (inr m)) in
        let fused = map-map (λ y. if id x == id y then x else y) (latest xs) t in
        rw (doc.save_present x t (k x (inl refl)))
          (rest ∙ fused ∙ map-cong _ _ t (λ y m. ground (arith, latest_absent x xs)))

  -- a row that the list has under an id is the one taken, if ids are distinct
  pub latest-Member :
      (x y : Row) (xs : List Row) → Distinct id xs → Member x xs → id x ≡ id y → latest xs y ≡ x
  unfolding latest
  latest-Member x y [] d m e = absurd m
  latest-Member x y (z ∷ zs) d (inl h) e = ground arith
  latest-Member x y (z ∷ zs) d (inr m) e =
      ground (arith, any-Member (λ w. id z == id w) x zs m, latest-Member x y zs d.1 m e)

  pub latest_new : (y : Row) (xs : List Row) → any (same_id id y) xs ≡ false → latest xs y ≡ y
  unfolding latest
  latest_new y [] h = refl
  latest_new y (x ∷ xs) h = ground (arith, latest_new y xs)
