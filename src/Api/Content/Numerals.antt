-- ===== src/Api/Content/Numerals.antt =====
-- The digits that a template literal prints, and what `parseInt` reads of them.
use kan_pad.Base.{
  ℕ, zero, suc, ◌+◌, ◌*◌, ◌/◌, ◌%◌, ◌<◌, ◌≡◌, refl, Bool, true, false, ◌++◌, inl, inr, arith, [],
  ◌∷◌, some, ◌==◌, Bool-cases, ◌∙◌,
}
use kan_pad.Base.Int.{pos}
use kan_pad.Base.Text.{Text, trim_start, is_space, codes}
use kan_pad.Api.Boards.{positive, parse_digits, parse_int}
use kan_pad.Api.Content.{decimal, moved_message}

-- n + 1 rounds are enough for the digits of n: more rounds print the same.
decimal_enough :
    (fuel more n : ℕ) (digits : Text)
    → n < fuel
    → n < more
    → decimal fuel n digits ≡ decimal more n digits
unfolding decimal
decimal_enough zero more n digits h k = absurd (omega (arith, h))
decimal_enough (suc fuel) zero n digits h k = absurd (omega (arith, k))
decimal_enough (suc fuel) (suc more) n digits h k = elim (Bool-cases (n / 10 == 0)) [
  | inl p ↦ rw p refl
  | inr p ↦ rw p (
      decimal_enough fuel more (n / 10) ((48 + n % 10) ∷ digits) (ground (arith, p))
        (ground (arith, p)))
]

parse_digits-digit :
    (d n : ℕ) (any : Bool) (digits : Text)
    → d < 10
    → parse_digits ((48 + d) ∷ digits) n any ≡ parse_digits digits (10 * n + d) true
unfolding parse_digits
parse_digits-digit d n any digits h = ground arith

parse_digits-decimal :
    (fuel n : ℕ) (any : Bool) (digits : Text)
    → n < fuel
    → parse_digits (decimal fuel n digits) 0 any ≡ parse_digits digits n true
unfolding decimal
parse_digits-decimal zero n any digits h = absurd (omega (arith, h))
parse_digits-decimal (suc fuel) n any digits h = elim (Bool-cases (n / 10 == 0)) [
  | inl p ↦
      let small : 10 * 0 + n % 10 ≡ n = ground (arith, p) in
      rw p (parse_digits-digit (n % 10) 0 any digits (omega arith) ∙ rw small refl)
  | inr p ↦
      let less : n / 10 < fuel = ground (arith, p, h) in
      let whole : 10 * (n / 10) + n % 10 ≡ n = omega arith in
      rw p (
        parse_digits-decimal fuel (n / 10) any ((48 + n % 10) ∷ digits) less
        ∙ parse_digits-digit (n % 10) (n / 10) true digits (omega arith)
        ∙ rw whole refl)
]

decimal-append :
    (fuel n : ℕ) (digits rest : Text)
    → decimal fuel n digits ++ rest ≡ decimal fuel n (digits ++ rest)
unfolding decimal
decimal-append zero n digits rest = refl
decimal-append (suc fuel) n digits rest =
    ground (arith, decimal-append fuel (n / 10) ((48 + n % 10) ∷ digits) rest)

decimal-digit :
    (fuel n : ℕ) (digits : Text)
    → (d : ℕ) × (rest : Text) × (d < 10) × (decimal (suc fuel) n digits ≡ (48 + d) ∷ rest)
unfolding decimal
decimal-digit zero n digits = (n % 10, digits, omega arith, ground arith)
decimal-digit (suc fuel) n digits =
    let (d, rest, small, e) = decimal-digit fuel (n / 10) ((48 + n % 10) ∷ digits) in
    elim (Bool-cases (n / 10 == 0)) [
      | inl p ↦ (n % 10, digits, omega arith, rw p refl)
      | inr p ↦ (d, rest, small, rw p e)
    ]

parse_int-digit :
    (d : ℕ) (rest : Text)
    → d < 10
    → parse_int ((48 + d) ∷ rest) ≡ positive (parse_digits ((48 + d) ∷ rest) 0 false)
unfolding parse_int trim_start is_space
parse_int-digit d rest h = ground (arith, h)

decimal-onto :
    (count : ℕ) (t : Text) → decimal (suc count) count [] ++ t ≡ decimal (suc count) count t
decimal-onto count t = decimal-append (suc count) count [] t

-- parseInt reads the number of cards back from the message of `moveAll`, for every name of the
-- column that they went to.
pub parse_int-moved_message :
    (count : ℕ) (name : Text) → parse_int (moved_message count name) ≡ some (pos count)
unfolding moved_message parse_digits
parse_int-moved_message count name =
    let after : Text = codes " cards moved to " ++ name in
    let (d, rest, small, e) = decimal-digit count count after in
    let printed : moved_message count name ≡ decimal (suc count) count after =
      decimal-onto count after in
    let read = parse_digits-decimal (suc count) count false after (omega arith) in
    let all : parse_int (decimal (suc count) count after)
        ≡ positive (parse_digits (decimal (suc count) count after) 0 false) =
      rw e (parse_int-digit d rest small) in
    rw (printed, all, read) refl
