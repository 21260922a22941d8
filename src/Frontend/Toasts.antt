-- ===== src/Frontend/Toasts.antt =====
-- frontend/src/components/ui/toast-provider/index.tsx and ../use-toast/context.ts: the messages on
-- the screen and the timers that take them away. A toast's id is a UUID, which is only compared; a
-- UUID does not end in `-exit`, so the two kinds of keys of `timeoutRefs` are never the same.
use kan_pad.Base.{
  ℕ, suc, ◌+◌, ◌≤◌, ◌≡◌, Bool, true, false, not, ◌&&◌, List, [], ◌∷◌, ◌++◌, map, Option, none, some,
  Member, any, select, get_or, is_some, leb, ◌==◌, if◌then◌else◌,
}
use kan_pad.Base.Text.{Text}
pub mod Sound
pub mod Timed
pub mod Cleared

pub data ToastType : Type 0 where
  default success error destructive : ToastType

-- `onClick` of an action is the caller's; the provider keeps its label.
pub record ToastAction : Type 0 where
  pub label : Text

pub record Toast : Type 0 where
  pub id : ℕ
  pub title : Text
  pub description : Option Text
  pub type : ToastType
  pub action : Option ToastAction
  pub is_exiting : Bool

-- the argument of `toast`
pub record ToastOptions : Type 0 where
  pub title : Text
  pub description : Option Text
  pub type : Option ToastType
  pub action : Option ToastAction

-- the keys `id` and `${id}-exit` of `timeoutRefs`
pub data TimerKey : Type 0 where
  shown : ℕ → TimerKey
  exiting : ℕ → TimerKey

-- A call of `setTimeout` that has not run: its callback deletes the key and filters out the toast.
pub record Timer : Type 0 where
  pub handle : ℕ
  pub due : ℕ
  pub key : TimerKey
  pub toast_id : ℕ

-- The state of the provider, with the host's clock, in milliseconds, and pending timers. The host
-- hands out the handles 1, 2, ….
pub record Provider : Type 0 where
  pub now : ℕ
  pub next_handle : ℕ
  pub toasts : List Toast
  pub timeout_refs : List (TimerKey × ℕ)
  pub timers : List Timer

abbrev pub key_eq : TimerKey → TimerKey → Bool
key_eq (shown a) (shown b) = a == b
key_eq (exiting a) (exiting b) = a == b
key_eq _ _ = false

-- `timeoutRefs.current.get`, `delete` and `set`
unfoldable pub ref_get : TimerKey → List (TimerKey × ℕ) → Option ℕ
ref_get k [] = none
ref_get k ((j, h) ∷ refs) = let rest = ref_get k refs in if key_eq j k then some h else rest

unfoldable pub ref_delete : TimerKey → List (TimerKey × ℕ) → List (TimerKey × ℕ)
ref_delete k = select (λ r. not (key_eq r.0 k))

unfoldable pub ref_set : TimerKey → ℕ → List (TimerKey × ℕ) → List (TimerKey × ℕ)
ref_set k h [] = (k, h) ∷ []
ref_set k h ((j, i) ∷ refs) =
    let rest = ref_set k h refs in if key_eq j k then (k, h) ∷ refs else (j, i) ∷ rest

unfoldable pub set_timer : ℕ → TimerKey → ℕ → Provider → Provider
unfolding ref_set
set_timer delay key id s = record s {
  next_handle = suc (Provider.next_handle s);
  timeout_refs = ref_set key s.next_handle s.timeout_refs;
  timers =
      record { handle = s.next_handle; due = s.now + delay; key = key; toast_id = id } ∷ s.timers;
}

-- `type === 'destructive' && options.action ? 5000 : 3000`
unfoldable pub duration_of : ToastType → Option ToastAction → ℕ
duration_of destructive action = if is_some action then 5000 else 3000
duration_of _ action = 3000

-- `toast`, with the id that `crypto.randomUUID()` gives
unfoldable pub toast : ToastOptions → ℕ → Provider → Provider
unfolding set_timer duration_of
toast options id s =
    let type = get_or options.type default in
    let new : Toast = record {
      id = id;
      title = options.title;
      description = options.description;
      type = type;
      action = options.action;
      is_exiting = false;
    } in
    set_timer (duration_of type options.action) (shown id) id
      (record s { toasts = s.toasts ++ new ∷ [] })

-- `if (existing) { clearTimeout(existing); timeoutRefs.current.delete(id) }`
unfoldable pub clear_shown : ℕ → Provider → Provider
unfolding ref_get ref_delete
clear_shown id s = elim (ref_get (shown id) (Provider.timeout_refs s)) [
  | none ↦ s
  | some h ↦ if h == 0 then s else record s {
    timers = select (λ t. not (Timer.handle t == h)) s.timers;
    timeout_refs = ref_delete (shown id) s.timeout_refs;
  }
]

abbrev pub mark_exiting : ℕ → Toast → Toast
mark_exiting id t = if t.id == id then record t { is_exiting = true } else t

unfoldable pub dismiss : ℕ → Provider → Provider
unfolding clear_shown set_timer
dismiss id s =
    let cleared = clear_shown id s in
    set_timer 200 (exiting id) id (record cleared { toasts = map (mark_exiting id) cleared.toasts })

-- the callback of a timer, which is then no longer pending
unfoldable pub fire : Timer → Provider → Provider
unfolding ref_delete
fire t s = record s {
  toasts = select (λ x. not (Toast.id x == t.toast_id)) (Provider.toasts s);
  timeout_refs = ref_delete t.key s.timeout_refs;
  timers = select (λ u. not (Timer.handle u == t.handle)) s.timers;
}

abbrev pub elapse : ℕ → Provider → Provider
elapse n s = record s { now = s.now + n }

-- `new Map()`, `useState([])`
abbrev pub mounted : ℕ → Provider
mounted now = record { now = now; next_handle = 1; toasts = []; timeout_refs = []; timers = [] }

-- the cleanup of the effect: `refs.forEach((id) => clearTimeout(id)); refs.clear()`
unfoldable pub unmount : Provider → Provider
unmount s = record s {
  timers = select (λ t. not (any (λ r. r.1 == Timer.handle t) (Provider.timeout_refs s))) s.timers;
  timeout_refs = [];
}

-- What can happen: a call, a timer that is due, the passing of time.
pub data Step : Provider → Provider → Type 0 where
  shows : (options : ToastOptions) (id : ℕ) (s : Provider) → Step s (toast options id s)
  dismisses : (id : ℕ) (s : Provider) → Step s (dismiss id s)
  fires :
      (t : Timer) (s : Provider)
      → Member t (Provider.timers s)
      → t.due ≤ Provider.now s
      → Step s (fire t s)
  waits : (n : ℕ) (s : Provider) → Step s (elapse n s)

pub data Reach (now : ℕ) : Provider → Type 0 where
  mount : Reach now (mounted now)
  step : {s u : Provider} → Reach now s → Step s u → Reach now u

-- the timers that are due run, one after the other
unfoldable pub fire_each : List Timer → Provider → Provider
unfolding fire
fire_each [] s = s
fire_each (t ∷ ts) s = fire_each ts (fire t s)

unfoldable pub fire_due : Provider → Provider
unfolding fire_each
fire_due s = fire_each (select (λ t. leb (Timer.due t) s.now) (Provider.timers s)) s
