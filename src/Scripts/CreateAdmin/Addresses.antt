-- ===== src/Scripts/CreateAdmin/Addresses.antt =====
-- What EMAIL_REGEX of create-admin.ts matches.
use kan_pad.Base.{
  ℕ, ◌≡◌, ◌↔◌, refl, ap, ◌∙◌, true, false, not, ◌&&◌, [], ◌∷◌, ◌++◌, ◌==◌, ==_iff, arith, inl, inr,
  Bool-cases, &&_true,
}
use kan_pad.Base.Text.{Text, is_empty, is_space}
use kan_pad.Scripts.CreateAdmin.{is_plain, all_plain, dot_inside, is_domain, after_local, is_email}

-- `[^\s@]+`
abbrev pub IsName : Text → Type 0
IsName s = (is_empty s ≡ false) × (all_plain s ≡ true)

all_plain-append : (s t : Text) → all_plain (s ++ t) ≡ (all_plain s && all_plain t)
unfolding all_plain
all_plain-append [] t = refl
all_plain-append (c ∷ s) t = ground (arith, all_plain-append s t)

plain_tail : (c : ℕ) (s : Text) → all_plain (c ∷ s) ≡ true → all_plain s ≡ true
unfolding all_plain
plain_tail c s h = ground (arith, h)

plain_head : (c : ℕ) (s : Text) → all_plain (c ∷ s) ≡ true → is_plain c ≡ true
unfolding all_plain
plain_head c s h = ground (arith, h)

plain_none : all_plain [] ≡ true
unfolding all_plain
plain_none = refl

plain_dot : (s : Text) → all_plain s ≡ true → all_plain (46 ∷ s) ≡ true
unfolding all_plain is_space
plain_dot s h = h

plain_cons : (c : ℕ) (s : Text) → is_plain c ≡ true → all_plain s ≡ true → all_plain (c ∷ s) ≡ true
unfolding all_plain
plain_cons c s h k = ground (arith, h, k)

dot_inside-split :
    (s : Text)
    → dot_inside s ≡ true
    → (a : Text) × (b : Text) × (s ≡ a ++ 46 ∷ b) × (is_empty b ≡ false)
unfolding dot_inside
dot_inside-split [] h = absurd (ground (arith, h))
dot_inside-split (c ∷ s) h = elim (Bool-cases (c == 46 && not (is_empty s))) [
  | inl p ↦ ([], s, ground (arith, p), ground (arith, p))
  | inr p ↦
      let (a, b, e, n) = dot_inside-split s (ground (arith, h, p)) in
      (c ∷ a, b, ap (λ t. c ∷ t) e, n)
]

dot_inside-found : (a b : Text) → is_empty b ≡ false → dot_inside (a ++ 46 ∷ b) ≡ true
unfolding dot_inside
dot_inside-found [] b n = ground (arith, n)
dot_inside-found (c ∷ a) b n = ground (arith, dot_inside-found a b n)

after_local-split :
    (s : Text)
    → after_local s ≡ true
    → (a : Text) × (d : Text) × (s ≡ a ++ 64 ∷ d) × (all_plain a ≡ true) × (is_domain d ≡ true)
unfolding after_local
after_local-split [] h = absurd (ground (arith, h))
after_local-split (c ∷ s) h = elim (Bool-cases (c == 64)) [
  | inl p ↦ ([], s, ap (λ k. k ∷ s) ((==_iff c 64).0 p), plain_none, ground (arith, h, p))
  | inr p ↦
      let (a, d, e, plain, domain) = after_local-split s (ground (arith, h, p)) in
      (c ∷ a, d, ap (λ t. c ∷ t) e, plain_cons c a (ground (arith, h, p)) plain, domain)
]

after_local-found :
    (a d : Text) → all_plain a ≡ true → is_domain d ≡ true → after_local (a ++ 64 ∷ d) ≡ true
unfolding after_local
after_local-found [] d plain domain = domain
after_local-found (c ∷ a) d plain domain =
    let rest = after_local-found a d (plain_tail c a plain) domain in
    ground (arith, plain_head c a plain, rest)

is_domain-split :
    (d : Text)
    → is_domain d ≡ true
    → (a : Text) × (b : Text) × (d ≡ a ++ 46 ∷ b) × IsName a × IsName b
unfolding is_domain
is_domain-split [] h = absurd (ground (arith, h))
is_domain-split (c ∷ s) h =
    let (total, dotted) = &&_true (all_plain (c ∷ s)) (dot_inside s) h in
    let (a, b, e, n) = dot_inside-split s dotted in
    let whole : all_plain ((c ∷ a) ++ 46 ∷ b) ≡ true = rw e at total in
    let (left, right) =
      &&_true (all_plain (c ∷ a)) (all_plain (46 ∷ b))
        (rw (← all_plain-append (c ∷ a) (46 ∷ b)) whole) in
    (c ∷ a, b, ap (λ t. c ∷ t) e, (refl, left), (n, plain_tail 46 b right))

is_domain-found : (a b : Text) → IsName a → IsName b → is_domain (a ++ 46 ∷ b) ≡ true
unfolding is_domain
is_domain-found [] b na nb = absurd (ground (arith, na))
is_domain-found (c ∷ a) b na nb =
    let parts = all_plain-append (c ∷ a) (46 ∷ b) in
    let dotted = dot_inside-found a b nb.0 in rw (parts, na.1, dotted) (rw (plain_dot b nb.1) refl)

email-split :
    (s : Text)
    → is_email s ≡ true
    → (local : Text) × (domain : Text) × (top : Text) × (s ≡ local ++ 64 ∷ (domain ++ 46 ∷ top))
      × IsName local
      × IsName domain
      × IsName top
unfolding is_email
email-split [] h = absurd (ground (arith, h))
email-split (c ∷ s) h =
    let (first, rest) = &&_true (is_plain c) (after_local s) h in
    let (a, d, e, plain, found) = after_local-split s rest in
    let (domain, top, f, named, named_top) = is_domain-split d found in
    (
      c ∷ a,
      domain,
      top,
      ap (λ t. c ∷ t) e ∙ ap (λ t. c ∷ (a ++ 64 ∷ t)) f,
      (refl, plain_cons c a first plain),
      named,
      named_top,
    )

email-found :
    (local domain top : Text)
    → IsName local
    → IsName domain
    → IsName top
    → is_email (local ++ 64 ∷ (domain ++ 46 ∷ top)) ≡ true
unfolding is_email
email-found [] domain top l d t = absurd (ground (arith, l))
email-found (c ∷ local) domain top l d t =
    let rest =
      after_local-found local (domain ++ 46 ∷ top) (plain_tail c local l.1)
        (is_domain-found domain top d t) in
    ground (arith, plain_head c local l.1, rest)

-- validateEmail accepts exactly the texts `name@name.name`, where a name has at least one character
-- and neither white space nor `@`.
pub is_email_iff :
    (s : Text)
    → (is_email s ≡ true) ↔ (
        (local : Text) × (domain : Text) × (top : Text) × (s ≡ local ++ 64 ∷ (domain ++ 46 ∷ top))
        × IsName local
        × IsName domain
        × IsName top)
is_email_iff s =
    (email-split s, λ (local, domain, top, e, l, d, t). rw e (email-found local domain top l d t))
