-- ===== src/Mutex/Tests.antt =====
-- kthread.c: the mutexes on small tables.
use mathlib.Core.Option
use os.Base.{
  if◌then◌else◌, ℕ, ◌≡◌, inl, inr, refl, Bool, true, false, [], ◌∷◌, none, some, get_elem?,
  replicate, ok, pos,
}
use os.Proc.Defs.{nthread, State, Ptr, Thread, Trapframe, Ptable}
use os.Proc.Access.{set_state, state_at?}
use os.Mutex.Defs.{
  used_mutex, Mutex, Kernel, zeroed, blocks, lock_enter, lock_block, mutex_unlock, deallocd, entry,
  empty_queue, pop_thread,
}
use os.Mutex.Queue.{shift}
use os.Mutex.Inv.{waiters, IsValid, KValid}
use os.Mutex.Total.{Entered, lock_enter-Entered}
use os.Mutex.Wakeup.{unlocks, among, unlocks_fifo, lost_wakeup}

abbrev frame : Trapframe
frame = record { eax = 0; eip = 0; esp = 0; eflags = 0 }

abbrev thread_in : State → Thread
thread_in s = record {
  kstack = some 4096;
  state = s;
  pid = 7;
  proc = some 0;
  tf = frame;
  context = none;
  chan = none;
}

-- One process with four threads.
abbrev table : Ptable
table = record {
  procs =
      record {
        sz = 0;
        pgdir = 0;
        state = State.runnable;
        pid = 1;
        parent = none;
        killed = false;
        name = [];
        threads =
            thread_in State.running
            ∷ thread_in State.running
            ∷ thread_in State.blocked
            ∷ thread_in State.blocked
            ∷ [];
        num_of_threads = 4;
      }
      ∷ [];
  nextpid = 9;
  initproc = 0;
}

abbrev t0 : Ptr
t0 = record { proc = 0; slot = 0 }

abbrev t1 : Ptr
t1 = record { proc = 0; slot = 1 }

abbrev t2 : Ptr
t2 = record { proc = 0; slot = 2 }

abbrev t3 : Ptr
t3 = record { proc = 0; slot = 3 }

abbrev used_at : ℕ → Bool → Mutex
used_at i l = record {
  state = used_mutex;
  id = pos i;
  locked = l;
  threads_queue = replicate nthread none;
  first = 0;
  last = 0;
  queue_lock = some i;
}

-- Locked, with two threads in the queue.
abbrev busy : ℕ → Mutex
busy i = record {
  state = used_mutex;
  id = pos i;
  locked = true;
  threads_queue = some t2 ∷ some t3 ∷ replicate 14 none;
  first = 0;
  last = 2;
  queue_lock = some i;
}

abbrev freed_at : ℕ → Mutex
freed_at i = deallocd (used_at i false)

used_at-IsValid : (i : ℕ) (l : Bool) → IsValid i (used_at i l)
used_at-IsValid i true = record {
  size = refl;
  packed = tt;
  front = refl;
  back = refl;
  id_known = inr (inr refl);
  owned = (refl, refl);
  quiet = tt;
}
used_at-IsValid i false = record {
  size = refl;
  packed = tt;
  front = refl;
  back = refl;
  id_known = inr (inr refl);
  owned = (refl, refl);
  quiet = refl;
}

busy-IsValid : (i : ℕ) → IsValid i (busy i)
busy-IsValid i = record {
  size = refl;
  packed = tt;
  front = refl;
  back = refl;
  id_known = inr (inr refl);
  owned = (refl, refl);
  quiet = tt;
}

freed_at-IsValid : (i : ℕ) → IsValid i (freed_at i)
freed_at-IsValid i = record {
  size = refl;
  packed = tt;
  front = refl;
  back = refl;
  id_known = inr (inl refl);
  owned = refl;
  quiet = refl;
}

zeroed-IsValid : (i : ℕ) → IsValid i zeroed
zeroed-IsValid i = record {
  size = refl;
  packed = tt;
  front = refl;
  back = refl;
  id_known = inl refl;
  owned = refl;
  quiet = refl;
}

abbrev free_and_busy : Kernel
free_and_busy = record { mutexes = used_at 0 false ∷ busy 1 ∷ zeroed ∷ []; ptable = table }

free_and_busy-KValid : KValid free_and_busy
free_and_busy-KValid = (used_at-IsValid 0 false, (busy-IsValid 1, (zeroed-IsValid 2, tt)))

abbrev held : Kernel
held = record { mutexes = used_at 0 true ∷ busy 1 ∷ []; ptable = table }

held-KValid : KValid held
held-KValid = (used_at-IsValid 0 true, (busy-IsValid 1, tt))

-- Sixteen threads in the queue.
abbrev crowded : Mutex
crowded = record {
  state = used_mutex;
  id = pos 0;
  locked = true;
  threads_queue = replicate nthread (some t2);
  first = 0;
  last = 16;
  queue_lock = some 0;
}

abbrev full_house : Kernel
full_house = record { mutexes = crowded ∷ []; ptable = table }

full_house-KValid : KValid full_house
full_house-KValid = (
  record {
    size = refl;
    packed = tt;
    front = refl;
    back = refl;
    id_known = inr (inr refl);
    owned = (refl, refl);
    quiet = tt;
  },
  tt,
)

lock_enter-Entered_example : Entered t1 0 full_house crowded (lock_enter t1 (pos 0) full_house)
lock_enter-Entered_example = lock_enter-Entered t1 0 full_house {m = crowded} full_house-KValid refl

-- Two lock calls queue up behind the owner, and the unlock serves the first.
first_come :
    (mutex_unlock (pos 1) free_and_busy
      ≡ ok (
        pos 0,
        record {
          mutexes =
              used_at 0 false
              ∷ record (busy 1) { threads_queue = some t3 ∷ replicate 15 none; last = 1 }
              ∷ zeroed
              ∷ [];
          ptable = set_state t2 State.runnable table;
        },
      ))
unfolding mutex_unlock entry empty_queue pop_thread shift
first_come = refl

t1_runs : state_at? table t1 ≡ some State.running
unfolding state_at?
t1_runs = refl

unlocks_fifo_example :
    (k' : Kernel) × (m' : Mutex) × (unlocks 1 (pos 1) held ≡ ok k')
    × (get_elem? k'.mutexes 1 ≡ some m')
    × (waiters m' ≡ t3 ∷ [])
    × (m'.locked ≡ true)
    × ((u : Ptr)
        → state_at? k'.ptable u ≡ (
            if among u (t2 ∷ [])
            then Option.map (λ _. State.runnable) (state_at? held.ptable u)
            else state_at? held.ptable u))
unlocks_fifo_example =
    unlocks_fifo (t2 ∷ []) (t3 ∷ []) 1 held {m = busy 1} held-KValid refl refl refl refl

lost_wakeup_example :
    (k1 : Kernel) × (k2 : Kernel) × (m2 : Mutex) × (lock_enter t1 (pos 0) held ≡ ok (blocks, k1))
    × (mutex_unlock (pos 0) k1 ≡ ok (pos 0, k2))
    × (state_at? (lock_block t1 k2).ptable t1 ≡ some State.blocked)
    × (get_elem? (lock_block t1 k2).mutexes 0 ≡ some m2)
    × (waiters m2 ≡ [])
    × (m2.locked ≡ true)
lost_wakeup_example =
    lost_wakeup t1 0 held {m = used_at 0 true} {s = State.running} held-KValid refl refl refl refl
      t1_runs

abbrev both_held : Kernel
both_held = record { mutexes = used_at 0 true ∷ used_at 1 true ∷ []; ptable = table }
