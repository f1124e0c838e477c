-- ===== src/Mutex/Wakeup.antt =====
-- kthread.c: order of service, and the window between the two locks of kthread_mutex_lock.
use mathlib.Core.Option
use os.Base.{
  ℕ, zero, suc, ◌<◌, ◌≡◌, refl, ap, ◌∙◌, true, some, List, [], ◌∷◌, ◌++◌, length, get_elem?, set,
  arith, Result, ok, ◌>>=◌, ℤ, pos, length-set, get_elem?-set_self, get_elem?-some_lt, Bool, false,
  ◌||◌, if◌then◌else◌, Option-cases,
}
use os.Proc.Defs.{State, Ptr, same_ptr, Ptable}
use os.Proc.Access.{set_state, state_at?, state_at?-set_state, state_at?-set_state_twice}
use os.Mutex.Defs.{
  used_mutex, Mutex, Kernel, put_entry, blocks, lock_enter, lock_block, mutex_unlock,
}
use os.Mutex.Inv.{waiters, KValid}
use os.Mutex.Ops.{lock_enter-held, unlock-hands_over}

-- `n` calls of kthread_mutex_unlock one after the other.
pub unlocks : ℕ → ℤ → Kernel → Result Kernel
unlocks zero mutex_id k = ok k
unlocks (suc n) mutex_id k = do (r, k') ← mutex_unlock mutex_id k; unlocks n mutex_id k'

-- The threads are made runnable one after the other.
pub wake_each : List Ptr → Ptable → Ptable
wake_each [] pt = pt
wake_each (t ∷ ts) pt = wake_each ts (set_state t State.runnable pt)

-- Whether the thread is one of those.
abbrev pub among : Ptr → List Ptr → Bool
among u [] = false
among u (t ∷ ts) = same_ptr t u || among u ts

-- A thread of the table is runnable if it is one of those, and otherwise is in the state it was in.
state_at?-wake_each :
    (ts : List Ptr) (pt : Ptable) (u : Ptr)
    → state_at? (wake_each ts pt) u
      ≡ (if among u ts then Option.map (λ _. State.runnable) (state_at? pt u) else state_at? pt u)
unfolding wake_each
state_at?-wake_each [] pt u = refl
state_at?-wake_each (t ∷ ts) pt u = ground (
  arith,
  state_at?-wake_each ts (set_state t State.runnable pt) u,
  state_at?-set_state pt t u State.runnable,
  Option-cases (state_at? pt u),
)

-- What `length ws` unlocks leave when `ws` stand first in the queue and `vs` behind them.
abbrev Served : ℕ → Kernel → List Ptr → List Ptr → Kernel → Type 0
Served i k ws vs k' =
    (m' : Mutex) × (get_elem? k'.mutexes i ≡ some m')
    × (waiters m' ≡ vs)
    × (m'.locked ≡ true)
    × (k'.ptable ≡ wake_each ws k.ptable)

unlocks-Served :
    (ws vs : List Ptr) (i : ℕ) (k : Kernel) {m : Mutex}
    → KValid k
    → get_elem? k.mutexes i ≡ some m
    → m.state ≡ used_mutex
    → m.locked ≡ true
    → waiters m ≡ ws ++ vs
    → (k' : Kernel) × (unlocks (length ws) (pos i) k ≡ ok k') × Served i k ws vs k'
unfolding unlocks wake_each
unlocks-Served [] vs i k {m} valid here used held w = (k, refl, (m, here, w, held, refl))
unlocks-Served (t ∷ ws) vs i k {m} valid here used held w =
    let (m1, e1, w1, held1, used1, valid1) = unlock-hands_over t i k valid here used held w in
    let k1 : Kernel = record k {
      mutexes = set k.mutexes i m1;
      ptable = set_state t State.runnable k.ptable;
    } in
    let here1 : get_elem? k1.mutexes i ≡ some m1 =
      get_elem?-set_self k.mutexes i m1 (get_elem?-some_lt k.mutexes i here) in
    let (k', e, (m', at, w', held', woken)) =
      unlocks-Served ws vs i k1 valid1 here1 used1 held1 w1 in
    (k', rw e1 e, (m', at, w', held', woken))

-- In a valid table a used and locked mutex is served in order of arrival: as many unlocks as `ws`
-- has threads all succeed, make the first of the queue, `ws`, runnable and leave every other thread
-- in the state it was in; the later arrivals `vs` stay in the queue, in their order, and the mutex
-- stays locked.
pub unlocks_fifo :
    (ws vs : List Ptr) (i : ℕ) (k : Kernel) {m : Mutex}
    → KValid k
    → get_elem? k.mutexes i ≡ some m
    → m.state ≡ used_mutex
    → m.locked ≡ true
    → waiters m ≡ ws ++ vs
    → (k' : Kernel) × (m' : Mutex) × (unlocks (length ws) (pos i) k ≡ ok k')
      × (get_elem? k'.mutexes i ≡ some m')
      × (waiters m' ≡ vs)
      × (m'.locked ≡ true)
      × ((u : Ptr)
          → state_at? k'.ptable u ≡ (
              if among u ws
              then Option.map (λ _. State.runnable) (state_at? k.ptable u)
              else state_at? k.ptable u))
unlocks_fifo ws vs i k valid here used held w =
    let (k', e, (m', at, w', held', woken)) = unlocks-Served ws vs i k valid here used held w in
    (k', m', e, at, w', held', λ u. rw woken (state_at?-wake_each ws k.ptable u))

-- A lost wakeup, from any valid table. A thread finds a used mutex locked with an empty queue,
-- enters the queue and gives `queueLock` back; the owner unlocks before the thread has stored
-- BLOCKED. The thread then ends up blocked outside the queue, with the mutex still locked.
pub lost_wakeup :
    (t : Ptr) (i : ℕ) (k : Kernel) {m : Mutex} {s : State}
    → KValid k
    → get_elem? k.mutexes i ≡ some m
    → m.state ≡ used_mutex
    → m.locked ≡ true
    → waiters m ≡ []
    → state_at? k.ptable t ≡ some s
    → (k1 : Kernel) × (k2 : Kernel) × (m2 : Mutex) × (lock_enter t (pos i) k ≡ ok (blocks, k1))
      × (mutex_unlock (pos i) k1 ≡ ok (pos 0, k2))
      × (state_at? (lock_block t k2).ptable t ≡ some State.blocked)
      × (get_elem? (lock_block t k2).mutexes i ≡ some m2)
      × (waiters m2 ≡ [])
      × (m2.locked ≡ true)
unfolding lock_block
lost_wakeup t i k {m} valid here used held nobody alive =
    let (m1, e1, w1, held1, used1, valid1) =
      lock_enter-held t i k valid here used held (rw nobody (omega arith)) in
    let k1 : Kernel = put_entry i m1 k in
    let lt : i < length k.mutexes = get_elem?-some_lt k.mutexes i here in
    let (m2, e2, w2, held2, used2, valid2) =
      unlock-hands_over t i k1 {m = m1} valid1 (get_elem?-set_self k.mutexes i m1 lt) used1 held1
        (w1 ∙ ap (λ l. l ++ t ∷ []) nobody) in
    (
      k1,
      _,
      m2,
      e1,
      e2,
      state_at?-set_state_twice k.ptable t State.blocked State.runnable alive,
      get_elem?-set_self (set k.mutexes i m1) i m2 (rw (length-set k.mutexes i m1) lt),
      w2,
      held2,
    )
