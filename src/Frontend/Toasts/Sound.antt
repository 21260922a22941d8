-- ===== src/Frontend/Toasts/Sound.antt =====
-- The timers of the toasts: what is kept of handles and references, and what clearing and setting do.
use kan_pad.Base.{
  ℕ, ◌+◌, ◌≤◌, ◌<◌, ◌≡◌, ◌≢◌, ◌⊎◌, refl, ap, ap₂, get_or, Option, ◌∙◌, sym, inl, inr, Bool, true,
  not, List, [], ◌∷◌, some, arith, Member, Member-select, select-Member, select, Bool-cases,
  Option-cases, ◌==◌, ==_iff, ==_refl,
}
use kan_pad.Frontend.Toasts.{
  Toast, ToastType, ToastAction, TimerKey, shown, exiting, Timer, Provider, key_eq, ref_get,
  ref_delete, ref_set, set_timer, duration_of, clear_shown,
}

-- the toast that a key stands for
abbrev pub key_toast : TimerKey → ℕ
key_toast (shown id) = id
key_toast (exiting id) = id

-- A pending timer takes the toast away within 5 seconds.
pub record IsCovered (s : Provider) (t : Toast) : Type 0 where
  pub timer : Timer
  pub pending : Member timer (Provider.timers s)
  pub takes : Timer.toast_id timer ≡ Toast.id t
  pub soon : Timer.due timer ≤ Provider.now s + 5000

-- The handles are used once, a timer takes away the toast of its key, and each handle in
-- `timeoutRefs` is that of a pending timer that was set under the same key.
pub record IsSound (s : Provider) : Type 0 where
  pub handles : (t : Timer) → Member t (Provider.timers s) → Timer.handle t < Provider.next_handle s
  pub handles_once :
      (t u : Timer)
      → Member t (Provider.timers s)
      → Member u (Provider.timers s)
      → Timer.handle t ≡ Timer.handle u
      → t ≡ u
  pub keys_named :
      (t : Timer) → Member t (Provider.timers s) → Timer.toast_id t ≡ key_toast (Timer.key t)
  pub refs_pending :
      (k : TimerKey) (h : ℕ)
      → Member (k, h) (Provider.timeout_refs s)
      → (t : Timer) × Member t (Provider.timers s) × (Timer.handle t ≡ h) × (Timer.key t ≡ k)

pub record IsTimed (s : Provider) : Type 0 where
  pub sound : IsSound s
  pub covered : (t : Toast) → Member t (Provider.toasts s) → IsCovered s t

key_eq_eq : (j k : TimerKey) → key_eq j k ≡ true → j ≡ k
key_eq_eq (shown a) (shown b) e = ap shown ((==_iff a b).0 e)
key_eq_eq (exiting a) (exiting b) e = ap exiting ((==_iff a b).0 e)
key_eq_eq (shown a) (exiting b) e = absurd (ground arith)
key_eq_eq (exiting a) (shown b) e = absurd (ground arith)

Member-ref_set :
    (k : TimerKey) (h : ℕ) (r : TimerKey × ℕ) (refs : List (TimerKey × ℕ))
    → Member r (ref_set k h refs)
    → Member r refs ⊎ (r ≡ (k, h))
unfolding ref_set
Member-ref_set k h r [] (inl e) = inr e
Member-ref_set k h r [] (inr m) = absurd m
Member-ref_set k h r (x ∷ refs) m = ground (arith, Member-ref_set k h r refs)

ref_get-Member :
    (k : TimerKey) (h : ℕ) (refs : List (TimerKey × ℕ))
    → ref_get k refs ≡ some h
    → Member (k, h) refs
unfolding ref_get
ref_get-Member k h [] e = absurd (ground arith)
ref_get-Member k h ((j, i) ∷ refs) e = elim (Bool-cases (key_eq j k)) [
  | inl p ↦
      let q : some i ≡ some h = rw p at e in
      inl (ap₂ (λ x y. (x, y)) (sym (key_eq_eq j k p)) (sym (ap (λ z. get_or z h) q)))
  | inr p ↦ inr (ref_get-Member k h refs (rw p at e))
]

pub duration-le : (type : ToastType) (action : Option ToastAction) → duration_of type action ≤ 5000
unfolding duration_of
duration-le type action = ground arith

pub set_timer-IsSound :
    (delay : ℕ) (key : TimerKey) (id : ℕ) (s : Provider)
    → key_toast key ≡ id
    → IsSound s
    → IsSound (set_timer delay key id s)
unfolding set_timer
set_timer-IsSound delay key id s named sound = record {
  handles = λ t m. elim m [ inl e ↦ rw e (omega arith) | inr n ↦ omega (arith, sound.handles t n) ];
  handles_once = λ t u m n e. elim m [
    | inl p ↦ elim n [
      | inl q ↦ p ∙ sym q
      | inr there ↦ let b = sound.handles u there in absurd (omega (arith, b, e, ap Timer.handle p))
    ]
    | inr here ↦ elim n [
      | inl q ↦ let b = sound.handles t here in absurd (omega (arith, b, e, ap Timer.handle q))
      | inr there ↦ sound.handles_once t u here there e
    ]
  ];
  keys_named = λ t m. elim m [
    | inl e ↦ ap Timer.toast_id e ∙ sym named ∙ ap (λ u. key_toast (Timer.key u)) (sym e)
    | inr n ↦ sound.keys_named t n
  ];
  refs_pending = λ k h m. elim (Member-ref_set key s.next_handle (k, h) s.timeout_refs m) [
    | inl old ↦ let (t, n, e, j) = sound.refs_pending k h old in (t, inr n, e, j)
    | inr new ↦ (_, inl refl, sym (ap (λ r. r.1) new), sym (ap (λ r. r.0) new))
  ];
}

key_eq_refl : (k : TimerKey) → key_eq k k ≡ true
key_eq_refl (shown id) = ==_refl id
key_eq_refl (exiting id) = ==_refl id

-- a timer and its key are taken away
pub without-IsSound :
    (u : Timer) (s : Provider) (toasts : List Toast)
    → Member u s.timers
    → IsSound s
    → IsSound (record s {
      toasts = toasts;
      timers = select (λ t. not (Timer.handle t == u.handle)) s.timers;
      timeout_refs = ref_delete u.key s.timeout_refs;
    })
unfolding ref_delete
without-IsSound u s toasts there sound =
    let p : Timer → Bool = λ t. not (Timer.handle t == u.handle) in
    let q : TimerKey × ℕ → Bool = λ r. not (key_eq r.0 u.key) in
    record {
      handles = λ t m. sound.handles t (Member-select p t s.timers m).0;
      handles_once = λ t v m n.
          sound.handles_once t v (Member-select p t s.timers m).0 (Member-select p v s.timers n).0;
      keys_named = λ t m. sound.keys_named t (Member-select p t s.timers m).0;
      refs_pending = λ k h m.
          let (old, kept) = Member-select q (k, h) s.timeout_refs m in
          let (t, n, e, j) = sound.refs_pending k h old in
          elim (Bool-cases (Timer.handle t == u.handle)) [
            | inl c ↦
                let same = sound.handles_once t u n there ((==_iff _ _).0 c) in
                let key : k ≡ u.key = sym j ∙ ap Timer.key same in
                absurd (ground (arith, kept, ap (λ x. key_eq x u.key) key, key_eq_refl u.key))
            | inr c ↦ (t, select-Member p t s.timers n (rw c refl), e, j)
          ];
    }

abbrev cleared : ℕ → ℕ → Provider → Provider
cleared id h s = record s {
  timers = select (λ t. not (Timer.handle t == h)) (Provider.timers s);
  timeout_refs = ref_delete (shown id) s.timeout_refs;
}

-- `clear_shown` does nothing, or clears the timer kept under the toast's id
clear_shown-cases :
    (id : ℕ) (s : Provider)
    → (clear_shown id s ≡ s)
      ⊎ ((h : ℕ) × Member (shown id, h) s.timeout_refs × (clear_shown id s ≡ cleared id h s))
unfolding clear_shown
clear_shown-cases id s = elim (Option-cases (ref_get (shown id) s.timeout_refs)) [
  | inl e ↦ inl (rw (clear_shown, e) refl)
  | inr (h, e) ↦ elim (Bool-cases (h == 0)) [
    | inl z ↦ inl (rw (clear_shown, e, z) refl)
    | inr z ↦ inr (h, ref_get-Member (shown id) h s.timeout_refs e, rw (clear_shown, e, z) refl)
  ]
]

pub clear_shown-IsSound : (id : ℕ) (s : Provider) → IsSound s → IsSound (clear_shown id s)
clear_shown-IsSound id s sound = elim (clear_shown-cases id s) [
  | inl e ↦ rw e sound
  | inr (h, m, e) ↦
      let (u, there, handle, key) = sound.refs_pending (shown id) h m in
      let gone : cleared id h s ≡ record s {
        timers = select (λ t. not (Timer.handle t == u.handle)) s.timers;
        timeout_refs = ref_delete u.key s.timeout_refs;
      } =
        rw (handle, key) refl in
      rw (e, gone) (without-IsSound u s s.toasts there sound)
]

-- Clearing the timer of one toast leaves the others theirs.
pub clear_shown-IsCovered :
    (id : ℕ) (s : Provider) (t : Toast)
    → IsSound s
    → IsCovered s t
    → t.id ≢ id
    → IsCovered (clear_shown id s) t
clear_shown-IsCovered id s t sound c apart = elim (clear_shown-cases id s) [
  | inl e ↦ rw e c
  | inr (h, m, e) ↦
      let other : not (Timer.handle c.timer == h) ≡ true =
        elim (Bool-cases (Timer.handle c.timer == h)) [
          | inl p ↦
              let same = (==_iff _ _).0 p in
              let (u, there, handle, key) = sound.refs_pending (shown id) h m in
              let one : c.timer ≡ u =
                sound.handles_once c.timer u c.pending there ((==_iff _ _).0 p ∙ sym handle) in
              let takes : Timer.toast_id c.timer ≡ id =
                sound.keys_named c.timer c.pending
                ∙ ap (λ x. key_toast (Timer.key x)) one
                ∙ ap key_toast key in
              absurd (apart (sym c.takes ∙ takes))
          | inr p ↦ rw p refl
        ] in
      rw e (record {
        timer = c.timer;
        pending = select-Member _ c.timer s.timers c.pending other;
        takes = c.takes;
        soon = c.soon;
      })
]

pub clear_shown-toasts : (id : ℕ) (s : Provider) → Provider.toasts (clear_shown id s) ≡ s.toasts
clear_shown-toasts id s = elim (clear_shown-cases id s) [
  | inl e ↦ ap Provider.toasts e
  | inr (h, m, e) ↦ ap Provider.toasts e
]
