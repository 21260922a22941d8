-- ===== src/Store/Bulk.antt =====
-- Saving, one by one, the rows that a find returned is one pass over the table.
use kan_pad.Base.{
  ℕ, ◌≡◌, refl, ap, ap₂, ◌∙◌, sym, inl, inr, Bool, true, false, ◌&&◌, ◌||◌, List, [], ◌∷◌, map,
  arith, any, select, Member, Member-Permᴰ, Member-select, map-cong, Bool-cases, ◌==◌, ==_iff,
  if◌then◌else◌,
}
use mathlib.Core.List.{Permᴰ}
use kan_pad.Store.Repository.{Repository}
use kan_pad.Store.Repository.Documented.{replace, IsDocumented}
use kan_pad.Store.Distinct.{Distinct, same_id, Distinct-unique, any-selected}

module _ {Row : Type 0} where
  -- the loop: the new value of a row is saved where a test asks for it
  unfoldable pub save_each :
      Repository Row → (Row → Bool) → (Row → Row) → List Row → List Row → List Row
  save_each r test change [] t = t
  save_each r test change (x ∷ xs) t =
      save_each r test change xs (if test x then r.save (change x) t else t)

  -- the pass: a row is changed where it is selected and the test asks for it
  abbrev pub pass : (Row → Bool) → (Row → Row) → (Row → Bool) → Row → Row
  pass test change chosen y = if chosen y && test y then change y else y

  module _ (id : Row → ℕ) (r : Repository Row) (doc : IsDocumented (same_id id) r)
      (test : Row → Bool) (change : Row → Row) (keeps : (x : Row) → id (change x) ≡ id x) where
    id-pass : (chosen : Row → Bool) (y : Row) → id (pass test change chosen y) ≡ id y
    id-pass chosen y = ground (arith, keeps y)

    any-pass :
        (z : Row) (chosen : Row → Bool) (x : Row) (t : List Row)
        → Member x t
        → id z ≡ id x
        → any (same_id id z) (map (pass test change chosen) t) ≡ true
    any-pass z chosen x [] m e = absurd m
    any-pass z chosen x (y ∷ ys) (inl h) e =
        let p : (id z == id (pass test change chosen y)) ≡ true =
          (==_iff _ _).1 (e ∙ ap id h ∙ sym (id-pass chosen y)) in
        rw p
    any-pass z chosen x (y ∷ ys) (inr m) e =
        let rest = any-pass z chosen x ys m e in
        elim (Bool-cases (id z == id (pass test change chosen y))) [
          | inl p ↦ rw p
          | inr p ↦ rw p rest
        ]

    -- one more row among those selected
    abbrev add_chosen : (Row → Bool) → Row → Row → Bool
    add_chosen chosen x y = chosen y || id y == id x

    pass-skip :
        (chosen : Row → Bool) (x : Row) (t : List Row)
        → Distinct id t
        → Member x t
        → test x ≡ false
        → map (pass test change chosen) t ≡ map (pass test change (add_chosen chosen x)) t
    pass-skip chosen x t d m e = map-cong _ _ t (λ y my.
        let u : (id y ≡ id x) → y ≡ x = Distinct-unique id y x t d my m in
        elim (Bool-cases (id y == id x)) [
          | inl p ↦ rw (u ((==_iff _ _).0 p), e) (ground arith)
          | inr p ↦ ground arith
        ])

    pass-save_one :
        (chosen : Row → Bool) (x y : Row)
        → (id y ≡ id x → y ≡ x)
        → test x ≡ true
        → (if id (change x) == id (pass test change chosen y)
            then change x
            else pass test change chosen y)
          ≡ pass test change (add_chosen chosen x) y
    pass-save_one chosen x y u e = elim (Bool-cases (id y == id x)) [
      | inl p ↦ rw (u ((==_iff _ _).0 p)) (ground (arith, keeps x, id-pass chosen x))
      | inr p ↦ ground (arith, keeps x, id-pass chosen y)
    ]

    pass-save :
        (chosen : Row → Bool) (x : Row) (t : List Row)
        → Distinct id t
        → Member x t
        → test x ≡ true
        → (u : List Row) → ((y : Row) → Member y u → Member y t)
        → replace (same_id id) (change x) (map (pass test change chosen) u)
          ≡ map (pass test change (add_chosen chosen x)) u
    pass-save chosen x t d m e [] sub = refl
    pass-save chosen x t d m e (y ∷ ys) sub =
        let rest = pass-save chosen x t d m e ys (λ z mz. sub z (inr mz)) in
        let u : (id y ≡ id x) → y ≡ x = Distinct-unique id y x t d (sub y (inl refl)) m in
        ap₂ ◌∷◌ (pass-save_one chosen x y u e) rest

    save_each-pass_from :
        (chosen : Row → Bool) (xs : List Row) (t : List Row)
        → Distinct id t
        → ((x : Row) → Member x xs → Member x t)
        → save_each r test change xs (map (pass test change chosen) t)
          ≡ map (pass test change (λ y. chosen y || any (same_id id y) xs)) t
    unfolding save_each
    save_each-pass_from chosen [] t d sub = map-cong _ _ t (λ y my. ground arith)
    save_each-pass_from chosen (x ∷ xs) t d sub =
        let m = sub x (inl refl) in
        let rest = save_each-pass_from (add_chosen chosen x) xs t d (λ y my. sub y (inr my)) in
        let regroup : map (pass test change (λ y. add_chosen chosen x y || any (same_id id y) xs)) t
            ≡ map (pass test change (λ y. chosen y || any (same_id id y) (x ∷ xs))) t =
          map-cong _ _ t (λ y my. ground arith) in
        elim (Bool-cases (test x)) [
          | inl p ↦
              rw
                (
                  p,
                  doc.save_present (change x) _ (any-pass (change x) chosen x t m (keeps x)),
                  pass-save chosen x t d m p t (λ y my. my),
                )
                (rest ∙ regroup)
          | inr p ↦ rw (p, pass-skip chosen x t d m p) (rest ∙ regroup)
        ]

    pass_none : (t : List Row) → map (pass test change (λ _. false)) t ≡ t
    pass_none [] = refl
    pass_none (x ∷ xs) = ap (◌∷◌ x) (pass_none xs)

    -- What is saved is what is found, each row as it was found: the loop is one pass.
    pub save_each-pass :
        (xs : List Row) (t : List Row)
        → Distinct id t
        → ((x : Row) → Member x xs → Member x t)
        → save_each r test change xs t ≡ map (pass test change (λ y. any (same_id id y) xs)) t
    save_each-pass xs t d sub = rw (pass_none t) at (save_each-pass_from (λ _. false) xs t d sub)

    -- Where the rows come from a find, the pass goes over the rows that its test admits.
    pub save_each-select :
        (p : Row → Bool) (xs t : List Row)
        → Distinct id t
        → Permᴰ xs (select p t)
        → save_each r test change xs t ≡ map (pass test change p) t
    save_each-select p xs t d perm =
        save_each-pass xs t d (λ x m. (Member-select p x t (Member-Permᴰ x perm m)).0)
        ∙ map-cong _ _ t (λ y my. rw (any-selected id p xs t d perm y my))
