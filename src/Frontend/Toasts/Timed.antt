-- ===== src/Frontend/Toasts/Timed.antt =====
-- Every toast on the screen has a timer that takes it away.
use mathlib.Core.Path.{subst}
use kan_pad.Base.{
  ℕ, ◌≤◌, ◌≡◌, ◌⊎◌, refl, ap, get_or, ◌∙◌, sym, inl, inr, true, not, List, map, arith, Member,
  Member-select, select-Member, map-Member, Member-snoc, Bool-cases, ◌==◌, ==_iff,
}
use kan_pad.Frontend.Toasts.{
  Toast, ToastOptions, ToastType, TimerKey, shown, exiting, Timer, Provider, ref_delete, set_timer,
  toast, clear_shown, mark_exiting, dismiss, fire, elapse, mounted, Step, shows, dismisses, fires,
  waits, Reach, mount, step,
}
use kan_pad.Frontend.Toasts.Sound.{
  key_toast, IsCovered, IsSound, IsTimed, duration-le, set_timer-IsSound, without-IsSound,
  clear_shown-IsSound, clear_shown-IsCovered, clear_shown-toasts,
}

-- A timer is set for one toast; the others have theirs.
set_timer-IsTimed :
    (delay : ℕ) (key : TimerKey) (id : ℕ) (s : Provider) (toasts : List Toast)
    → delay ≤ 5000
    → key_toast key ≡ id
    → IsSound s
    → ((t : Toast) → Member t toasts → (Toast.id t ≡ id) ⊎ IsCovered s t)
    → IsTimed (set_timer delay key id (record s { toasts = toasts }))
unfolding set_timer
set_timer-IsTimed delay key id s toasts short named sound cover =
    let before : IsSound (record s { toasts = toasts }) = record {
      handles = sound.handles;
      handles_once = sound.handles_once;
      keys_named = sound.keys_named;
      refs_pending = sound.refs_pending;
    } in
    record {
      sound = set_timer-IsSound delay key id (record s { toasts = toasts }) named before;
      covered = λ t m. elim (cover t m) [
        | inl e ↦ record {
          timer = _;
          pending = inl refl;
          takes = sym e;
          soon = omega (arith, short);
        }
        | inr c ↦ record {
          timer = c.timer;
          pending = inr c.pending;
          takes = c.takes;
          soon = c.soon;
        }
      ];
    }

pub toast-IsTimed :
    (options : ToastOptions) (id : ℕ) (s : Provider) → IsTimed s → IsTimed (toast options id s)
unfolding toast
toast-IsTimed options id s timed =
    set_timer-IsTimed _ (shown id) id s _
      (duration-le (get_or options.type ToastType.default) options.action) refl timed.sound
      (λ t m. elim (Member-snoc t _ s.toasts m) [
        | inl old ↦ inr (timed.covered t old)
        | inr e ↦ inl (ap Toast.id e)
      ])

mark_exiting-id : (id : ℕ) (t : Toast) → Toast.id (mark_exiting id t) ≡ t.id
mark_exiting-id id t = ground arith

pub dismiss-IsTimed : (id : ℕ) (s : Provider) → IsTimed s → IsTimed (dismiss id s)
unfolding dismiss
dismiss-IsTimed id s timed =
    let c = clear_shown id s in
    set_timer-IsTimed 200 (exiting id) id c (map (mark_exiting id) c.toasts) (omega arith) refl
      (clear_shown-IsSound id s timed.sound)
      (λ t m.
        let (x, mx, e) = map-Member (mark_exiting id) t c.toasts m in
        let same = ap Toast.id e ∙ mark_exiting-id id x in
        elim (Bool-cases (x.id == id)) [
          | inl p ↦ inl (same ∙ (==_iff _ _).0 p)
          | inr p ↦
              let old = subst (Member x) (clear_shown-toasts id s) mx in
              let k =
                clear_shown-IsCovered id s x timed.sound (timed.covered x old)
                  (λ q. absurd (ground (arith, q, p))) in
              inr (record {
                timer = k.timer;
                pending = k.pending;
                takes = k.takes ∙ sym same;
                soon = k.soon;
              })
        ])

-- the timer that takes another toast away is another timer
another :
    (t : Timer) (s : Provider)
    → Member t s.timers
    → IsSound s
    → (x : Toast) (c : IsCovered s x) → not (x.id == t.toast_id) ≡ true
    → not (Timer.handle c.timer == t.handle) ≡ true
another t s m sound x c alive = elim (Bool-cases (Timer.handle c.timer == t.handle)) [
  | inl p ↦
      let one = sound.handles_once c.timer t c.pending m ((==_iff _ _).0 p) in
      absurd (ground (arith, alive, sym c.takes ∙ ap Timer.toast_id one))
  | inr p ↦ rw p refl
]

pub fire-IsTimed : (t : Timer) (s : Provider) → Member t s.timers → IsTimed s → IsTimed (fire t s)
unfolding fire ref_delete
fire-IsTimed t s m timed = record {
  sound = without-IsSound t s _ m timed.sound;
  covered = λ x n.
      let (old, alive) = Member-select _ x s.toasts n in
      let c = timed.covered x old in
      record {
        timer = c.timer;
        pending = select-Member _ c.timer s.timers c.pending (another t s m timed.sound x c alive);
        takes = c.takes;
        soon = c.soon;
      };
}

pub elapse-IsTimed : (n : ℕ) (s : Provider) → IsTimed s → IsTimed (elapse n s)
elapse-IsTimed n s timed = record {
  sound = record {
    handles = timed.sound.handles;
    handles_once = timed.sound.handles_once;
    keys_named = timed.sound.keys_named;
    refs_pending = timed.sound.refs_pending;
  };
  covered = λ x m.
      let c = timed.covered x m in
      record {
        timer = c.timer;
        pending = c.pending;
        takes = c.takes;
        soon = omega (arith, c.soon);
      };
}

mounted-IsTimed : (now : ℕ) → IsTimed (mounted now)
mounted-IsTimed now = record {
  sound = record {
    handles = λ t m. absurd m;
    handles_once = λ t u m n e. absurd m;
    keys_named = λ t m. absurd m;
    refs_pending = λ k h m. absurd m;
  };
  covered = λ t m. absurd m;
}

Step-IsTimed : {s u : Provider} → Step s u → IsTimed s → IsTimed u
Step-IsTimed (shows options id s) timed = toast-IsTimed options id s timed
Step-IsTimed (dismisses id s) timed = dismiss-IsTimed id s timed
Step-IsTimed (fires t s m due) timed = fire-IsTimed t s m timed
Step-IsTimed (waits n s) timed = elapse-IsTimed n s timed

-- Whatever is shown, dismissed and waited for, and whichever due timers have run, each toast on the
-- screen has a pending timer that takes it away within 5 seconds, no two pending timers have one
-- handle, a timer takes away the toast of the key it was set under, and each handle in `timeoutRefs`
-- is that of a pending timer that was set under the same key.
pub Reach-IsTimed : {now : ℕ} {s : Provider} → Reach now s → IsTimed s
Reach-IsTimed {now} mount = mounted-IsTimed now
Reach-IsTimed (step r st) = Step-IsTimed st (Reach-IsTimed r)
