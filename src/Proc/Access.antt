-- ===== src/Proc/Access.antt =====
-- Reads and writes of a thread through a pointer, as `t->state` and `t->state = s` do.
use mathlib.Core.Option
use os.Base.{
  ◌≡◌, Option, none, some, get_elem?, modify, if◌then◌else◌, arith, get_elem?-modify, Option-cases,
  inl, inr,
}
use os.Proc.Defs.{State, Ptr, same_ptr, Thread, Ptable}

abbrev pub thread_at? : Ptable → Ptr → Option Thread
thread_at? pt t = elim (get_elem? pt.procs t.proc) [
  | none ↦ none
  | some p ↦ get_elem? p.threads t.slot
]

unfoldable pub modify_thread : Ptr → (Thread → Thread) → Ptable → Ptable
modify_thread t f pt = record pt {
  procs = modify pt.procs t.proc (λ p. record p { threads = modify p.threads t.slot f });
}

abbrev pub with_state : State → Thread → Thread
with_state s th = record th { state = s }

-- t->state = s
unfoldable pub set_state : Ptr → State → Ptable → Ptable
unfolding modify_thread
set_state t s = modify_thread t (with_state s)

unfoldable pub state_at? : Ptable → Ptr → Option State
state_at? pt t = elim (thread_at? pt t) [ none ↦ none | some th ↦ some th.state ]

-- A write through `t` changes the thread at `t` and no other.
pub thread_at?-modify :
    (pt : Ptable) (t u : Ptr) (f : Thread → Thread)
    → thread_at? (modify_thread t f pt) u
      ≡ (if same_ptr t u then Option.map f (thread_at? pt u) else thread_at? pt u)
unfolding modify_thread
thread_at?-modify pt t u f = elim (Option-cases (get_elem? pt.procs u.proc)) [
  | inl e ↦ ground (
    arith,
    e,
    get_elem?-modify pt.procs t.proc u.proc (λ p. record p { threads = modify p.threads t.slot f }),
  )
  | inr (p, e) ↦ ground (
    arith,
    e,
    get_elem?-modify pt.procs t.proc u.proc (λ p. record p { threads = modify p.threads t.slot f }),
    get_elem?-modify p.threads t.slot u.slot f,
  )
]

pub state_at?-set_state :
    (pt : Ptable) (t u : Ptr) (s : State)
    → state_at? (set_state t s pt) u
      ≡ (if same_ptr t u then Option.map (λ _. s) (state_at? pt u) else state_at? pt u)
unfolding state_at? set_state
state_at?-set_state pt t u s = ground (arith, thread_at?-modify pt t u (with_state s))

pub state_at?-set_state_twice :
    (pt : Ptable) (t : Ptr) (a b : State) {s : State}
    → state_at? pt t ≡ some s
    → state_at? (set_state t a (set_state t b pt)) t ≡ some a
state_at?-set_state_twice pt t a b h =
    ground (arith, state_at?-set_state (set_state t b pt) t t a, state_at?-set_state pt t t b)
