-- ===== src/Frontend/Toasts/Cleared.antt =====
-- Every toast leaves the screen.
use kan_pad.Base.{
  ℕ, ◌+◌, ◌≤◌, ◌≡◌, ◌≢◌, refl, ap, inl, inr, true, List, [], ◌∷◌, arith, Member, Member-select,
  select-Member, leb,
}
use kan_pad.Frontend.Toasts.{Toast, Timer, Provider, fire, fire_each, fire_due, elapse, Reach}
use kan_pad.Frontend.Toasts.Timed.{Reach-IsTimed}

survives :
    (ts : List Timer) (s : Provider) (x : Toast)
    → Member x (Provider.toasts (fire_each ts s))
    → Member x s.toasts × ((t : Timer) → Member t ts → t.toast_id ≢ x.id)
unfolding fire_each fire
survives [] s x m = (m, λ t n. absurd n)
survives (t ∷ ts) s x m =
    let (there, others) = survives ts (fire t s) x m in
    let (old, alive) = Member-select _ x s.toasts there in
    (
      old,
      λ u n. elim n [
        | inl e ↦ λ q. absurd (ground (arith, alive, ap Timer.toast_id e, q))
        | inr later ↦ others u later
      ],
    )

empty : {A : Type 0} (xs : List A) → ((x : A) → Member x xs → ⊥) → xs ≡ []
empty [] h = refl
empty (x ∷ xs) h = absurd (h x (inl refl))

-- From every state that can be reached, whatever was shown and dismissed: when no call follows for
-- 5 seconds and the timers that are due then have run, no toast is on the screen.
pub fire_due-clears :
    {now : ℕ} {s : Provider}
    → Reach now s
    → (n : ℕ) → 5000 ≤ n
    → Provider.toasts (fire_due (elapse n s)) ≡ []
unfolding fire_due
fire_due-clears {now} {s} r n long = empty _ λ x m.
    let (old, alive) = survives _ (elapse n s) x m in
    let c = (Reach-IsTimed r).covered x old in
    let is_due : leb (Timer.due c.timer) (s.now + n) ≡ true = ground (arith, c.soon, long) in
    alive c.timer (select-Member _ c.timer s.timers c.pending is_due) c.takes
