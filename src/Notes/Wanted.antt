-- ===== src/Notes/Wanted.antt =====
-- When a note meets the query of `findAll`, said of its links, its tags and its title.
use kan_pad.Base.{
  ℕ, zero, suc, ◌≡◌, refl, inl, inr, ap, ◌↔◌, true, not, is_some, List, [], ◌∷◌, Option, none, some,
  Member, Bool-cases, ◌==◌, ==_iff, arith,
}
use kan_pad.Base.Text.{Text}
use kan_pad.Notes.Query.{
  NoteType, ListNotesDto, matches, matches_search, matches_type, matches_tag, matches_board,
  is_some_of,
}
use kan_pad.Store.Cascade.{is_in}
use kan_pad.Store.Entities.{Note}
use kan_pad.Store.Repository.{Orm}

-- a reference that is set
abbrev IsGiven : Option ℕ → Type 0
IsGiven reference = (i : ℕ) × (reference ≡ some i)

-- the kind of a note, by what it is linked to
abbrev HasType : Option NoteType → Note → Type 0
HasType none n = Unit
HasType (some NoteType.board) n = IsGiven n.board_id
HasType (some NoteType.project) n = IsGiven n.project_id
HasType (some NoteType.card) n = IsGiven n.card_id
HasType (some NoteType.general) n = (n.board_id ≡ none) × (n.project_id ≡ none) × (n.card_id ≡ none)

is_some_iff : (x : Option ℕ) → (is_some x ≡ true) ↔ IsGiven x
is_some_iff none = (λ h. absurd (ground arith), λ (i, e). absurd (ground (arith, e)))
is_some_iff (some i) = (λ h. (i, refl), λ h. refl)

absent_iff : (x : Option ℕ) → (not (is_some x) ≡ true) ↔ (x ≡ none)
absent_iff none = (λ h. refl, λ h. refl)
absent_iff (some i) = (λ h. absurd (ground arith), λ h. absurd (ground arith))

type_iff : (type : Option NoteType) (n : Note) → (matches_type type n ≡ true) ↔ HasType type n
unfolding matches_type
type_iff none n = (λ h. tt, λ h. refl)
type_iff (some NoteType.board) n = is_some_iff n.board_id
type_iff (some NoteType.project) n = is_some_iff n.project_id
type_iff (some NoteType.card) n = is_some_iff n.card_id
type_iff (some NoteType.general) n =
    let b = absent_iff n.board_id in
    let p = absent_iff n.project_id in
    let c = absent_iff n.card_id in
    (
      λ h. (b.0 (ground arith), p.0 (ground arith), c.0 (ground arith)),
      λ (x, y, z). let u = b.1 x in let v = p.1 y in let w = c.1 z in ground (arith, u, v, w),
    )

-- a filter on a number asks for nothing where it is absent or 0
abbrev Asks : Option ℕ → (ℕ → Type 0) → Type 0
Asks none P = Unit
Asks (some zero) P = Unit
Asks (some (suc i)) P = P (suc i)

is_in_iff : (ids : List ℕ) (i : ℕ) → (is_in ids i ≡ true) ↔ Member i ids
is_in_iff [] i = (λ h. absurd (ground arith), λ m. absurd m)
is_in_iff (j ∷ ids) i = (
  λ h. elim (Bool-cases (i == j)) [
    | inl e ↦ inl ((==_iff i j).0 e)
    | inr e ↦ inr ((is_in_iff ids i).0 (ground (arith, e)))
  ],
  λ m. elim m [
    | inl e ↦ ground (arith, (==_iff i j).1 e)
    | inr k ↦ let there = (is_in_iff ids i).1 k in ground (arith, there)
  ],
)

tag_iff :
    (tag_id : Option ℕ) (n : Note)
    → (matches_tag tag_id n ≡ true) ↔ Asks tag_id (λ i. Member i n.tag_ids)
unfolding matches_tag
tag_iff none n = (λ h. tt, λ h. refl)
tag_iff (some zero) n = (λ h. tt, λ h. refl)
tag_iff (some (suc i)) n =
    let there = is_in_iff n.tag_ids (suc i) in
    (λ h. there.0 (ground arith), λ m. let k = there.1 m in ground (arith, k))

is_of_iff : (x : Option ℕ) (i : ℕ) → (is_some_of x i ≡ true) ↔ (x ≡ some i)
is_of_iff none i = (λ h. absurd (ground arith), λ h. absurd (ground arith))
is_of_iff (some j) i = (
  λ h. ap some ((==_iff j i).0 h),
  λ h. let same : j ≡ i = ground (arith, h) in (==_iff j i).1 same,
)

board_iff :
    (board_id : Option ℕ) (n : Note)
    → (matches_board board_id n ≡ true) ↔ Asks board_id (λ i. n.board_id ≡ some i)
unfolding matches_board
board_iff none n = (λ h. tt, λ h. refl)
board_iff (some zero) n = (λ h. tt, λ h. refl)
board_iff (some (suc i)) n =
    let there = is_of_iff n.board_id (suc i) in
    (λ h. there.0 (ground arith), λ m. let k = there.1 m in ground (arith, k))

module _ (o : Orm) where
  -- the title is LIKE the text that is searched for; an absent or empty text asks for nothing
  abbrev IsFound : Option Text → Note → Type 0
  IsFound none n = Unit
  IsFound (some []) n = Unit
  IsFound (some (c ∷ cs)) n = o.is_like (c ∷ cs) n.title ≡ true

  search_iff :
      (search : Option Text) (n : Note) → (matches_search o search n ≡ true) ↔ IsFound search n
  unfolding matches_search
  search_iff none n = (λ h. tt, λ h. refl)
  search_iff (some []) n = (λ h. tt, λ h. refl)
  search_iff (some (c ∷ cs)) n = (λ h. h, λ h. h)

  -- what `findAll` looks for, for a user and a query
  pub record IsWanted (user_id : ℕ) (query : ListNotesDto) (n : Note) : Type 0 where
    pub own : n.user_id ≡ user_id
    pub found : IsFound query.search n
    pub typed : HasType query.type n
    pub tagged : Asks query.tag_id (λ i. Member i n.tag_ids)
    pub on_board : Asks query.board_id (λ i. n.board_id ≡ some i)

  pub matches_iff :
      (user_id : ℕ) (query : ListNotesDto) (n : Note)
      → (matches o user_id query n ≡ true) ↔ IsWanted user_id query n
  unfolding matches
  matches_iff user_id query n =
      let s = search_iff query.search n in
      let t = type_iff query.type n in
      let g = tag_iff query.tag_id n in
      let b = board_iff query.board_id n in
      (
        λ h. record {
          own = ground arith;
          found = s.0 (ground arith);
          typed = t.0 (ground arith);
          tagged = g.0 (ground arith);
          on_board = b.0 (ground arith);
        },
        λ w.
            let u = (==_iff n.user_id user_id).1 w.own in
            let x = s.1 w.found in
            let y = t.1 w.typed in
            let z = g.1 w.tagged in let v = b.1 w.on_board in ground (arith, u, x, y, z, v),
      )
