-- ===== src/Scripts/CreateAdmin/Passwords.antt =====
-- What PASSWORD_REGEX of create-admin.ts matches.
use kan_pad.Base.{
  ℕ, ◌≤◌, ◌≡◌, ◌↔◌, refl, Bool, true, false, not, ◌||◌, ◌⊎◌, [], ◌∷◌, any, arith, inl, inr, length,
  Bool-cases,
}
use kan_pad.Base.Text.{Text}
use kan_pad.Scripts.CreateAdmin.{
  is_letter, is_digit, is_special, is_line_end, ahead, first_is, is_strong,
}

abbrev pub is_allowed : ℕ → Bool
is_allowed c = is_letter c || is_digit c || is_special c

line_end-allowed : (c : ℕ) → is_allowed c ≡ true → is_line_end c ≡ false
line_end-allowed c h = ground (arith, h)

ahead-any :
    (p : ℕ → Bool) (s : Text) → any (λ c. not (is_allowed c)) s ≡ false → ahead p s ≡ any p s
unfolding ahead
ahead-any p [] h = refl
ahead-any p (c ∷ s) h = elim (Bool-cases (is_allowed c)) [
  | inl a ↦ ground (arith, h, a, line_end-allowed c a, ahead-any p s)
  | inr a ↦ absurd (ground (arith, h, a))
]

-- validatePassword accepts exactly the passwords of at least 8 of the letters, digits and special
-- characters that have a letter, and a digit anywhere or a special character in the first place.
pub is_strong_iff :
    (s : Text)
    → (is_strong s ≡ true) ↔ (
        (any is_letter s ≡ true)
        × ((any is_digit s ≡ true) ⊎ (first_is is_special s ≡ true))
        × (any (λ c. not (is_allowed c)) s ≡ false)
        × (8 ≤ length s))
unfolding is_strong
is_strong_iff s = elim (Bool-cases (any (λ c. not (is_allowed c)) s)) [
  | inl bad ↦ ground (arith, bad)
  | inr good ↦ ground (arith, good, ahead-any is_letter s good, ahead-any is_digit s good)
]
