-- ===== src/Mutex/Defs.antt =====
-- kthread.c, from EmptyQueue on: the table of mutexes and its operations. Each function is the
-- code between two points where the thread may give up the processor, which the code runs under
-- the mutex's `queueLock`; `kthread_mutex_lock` has three such sections.
use os.Base.{
  ℕ, ◌+◌, ◌-◌, ◌==◌, Bool, true, false, not, ◌&&◌, Option, none, some, List, [], ◌∷◌, get_elem?,
  set, replicate, if◌then◌else◌, Result, ok, panic, fault, ◌>>=◌, ◌>>◌, deref, ℤ, pos, minus_one,
  eqz, index,
}
use os.Proc.Defs.{nthread, State, Ptr, Ptable}
use os.Proc.Access.{set_state}
use os.Mutex.Queue.{shift}

abbrev pub max_mutexes : ℕ
max_mutexes = 64

-- `enum mutex_state`
pub data MutexState : Type 0 where
  unused_mutex used_mutex : MutexState

-- `struct kthread_mutex_t`. `queue_lock` is the index in `mutexspinLock`, or `none` when null.
pub record Mutex : Type 0 where
  pub state : MutexState
  pub id : ℤ
  pub locked : Bool
  pub threads_queue : List (Option Ptr)
  pub first : ℕ
  pub last : ℕ
  pub queue_lock : Option ℕ

-- `mutextable` and `ptable`
pub record Kernel : Type 0 where
  pub mutexes : List Mutex
  pub ptable : Ptable

-- The table before any call: static storage is zero.
abbrev pub zeroed : Mutex
zeroed = record {
  state = unused_mutex;
  id = pos 0;
  locked = false;
  threads_queue = replicate nthread none;
  first = 0;
  last = 0;
  queue_lock = none;
}

abbrev pub is_used : MutexState → Bool
is_used used_mutex = true
is_used unused_mutex = false

unfoldable pub empty_queue : Mutex → Bool
empty_queue m = elim (get_elem? m.threads_queue 0) [
  | none ↦ true
  | some none ↦ true
  | some (some t) ↦ false
]

unfoldable pub push_thread : Ptr → Mutex → Result Mutex
push_thread t m =
    if m.last == nthread
    then panic "Mutex oveflow\n"
    else ok (record m { threads_queue = set m.threads_queue m.last (some t); last = m.last + 1 })

-- `m` without the thread that it hands out
abbrev pub popped : Mutex → Mutex
popped m = record m {
  threads_queue = set (shift m.threads_queue) (nthread - 1) none;
  last = m.last - 1;
}

unfoldable pub pop_thread : Mutex → Result (Ptr × Mutex)
pop_thread m = elim (get_elem? m.threads_queue m.first) [
  | none ↦ fault
  | some none ↦ panic "Mutex over pop. Can't pop this... \n"
  | some (some t) ↦ ok (t, popped m)
]

-- What a free entry becomes.
abbrev pub alloced : ℕ → Mutex → Mutex
alloced i m = record m { state = used_mutex; id = pos i; queue_lock = some i; last = 0; first = 0 }

-- The search of kthread_mutex_alloc, from entry `i` on.
unfoldable pub alloc_from : ℕ → List Mutex → ℤ × List Mutex
alloc_from i [] = (minus_one, [])
alloc_from i (m ∷ ms) =
    let (r, ms') = alloc_from (i + 1) ms in
    if is_used m.state then (r, m ∷ ms') else (pos i, alloced i m ∷ ms)

unfoldable pub mutex_alloc : Kernel → ℤ × Kernel
mutex_alloc k = let (r, ms) = alloc_from 0 k.mutexes in (r, record k { mutexes = ms })

abbrev pub deallocd : Mutex → Mutex
deallocd m = record m { state = unused_mutex; id = minus_one }

-- The search of kthread_mutex_dealloc: it stops at the first entry with the id.
unfoldable pub dealloc_from : ℤ → List Mutex → ℤ × List Mutex
dealloc_from mutex_id [] = (minus_one, [])
dealloc_from mutex_id (m ∷ ms) =
    let (r, ms') = dealloc_from mutex_id ms in
    if eqz m.id mutex_id
    then (if is_used m.state && not m.locked then (pos 0, deallocd m ∷ ms) else (minus_one, m ∷ ms))
    else (r, m ∷ ms')

unfoldable pub mutex_dealloc : ℤ → Kernel → ℤ × Kernel
mutex_dealloc mutex_id k =
    let (r, ms) = dealloc_from mutex_id k.mutexes in (r, record k { mutexes = ms })

-- &mutextable.mutexes[mutex_id], which no code checks, and what stands there
unfoldable pub entry : ℤ → Kernel → Result (ℕ × Mutex)
entry mutex_id k = do i ← deref (index mutex_id); m ← deref (get_elem? k.mutexes i); ok (i, m)

abbrev pub put_entry : ℕ → Mutex → Kernel → Kernel
put_entry i m k = record k { mutexes = set k.mutexes i m }

-- How a section ends: the call returns, or the thread goes on to block.
pub data Outcome : Type 0 where
  returns : ℤ → Outcome
  blocks : Outcome

-- `acquire(m->queueLock)`: the pointer of an entry that was never allocated is null.
abbrev pub take_lock : Mutex → Result (Unit {0})
take_lock m = deref m.queue_lock >>= λ _. ok tt

-- The locked mutex takes the thread into its queue.
unfoldable pub enqueue : Ptr → ℕ → Mutex → Kernel → Result (Outcome × Kernel)
enqueue thread i m k = push_thread thread m >>= λ m'. ok (blocks, put_entry i m' k)

-- kthread_mutex_lock up to the release of `queueLock`.
unfoldable pub lock_enter : Ptr → ℤ → Kernel → Result (Outcome × Kernel)
unfolding enqueue
lock_enter thread mutex_id k = do
  (i, m) ← entry mutex_id k
  if not (is_used m.state)
      then ok (returns minus_one, k)
      else take_lock m
        >> (if m.locked
            then enqueue thread i m k
            else ok (returns (pos 0), put_entry i (record m { locked = true }) k))

-- thread->state = BLOCKED; sched();
unfoldable pub lock_block : Ptr → Kernel → Kernel
lock_block thread k = record k { ptable = set_state thread State.blocked k.ptable }

-- kthread_mutex_lock after `sched` has returned.
unfoldable pub lock_resume : ℤ → Kernel → Result (ℤ × Kernel)
lock_resume mutex_id k = do
  (i, m) ← entry mutex_id k
  take_lock m
  ok (pos 0, put_entry i (record m { locked = true }) k)

-- The first thread that waits becomes runnable; the mutex stays locked, for that thread.
unfoldable pub hand_over : ℕ → Mutex → Kernel → Result (ℤ × Kernel)
hand_over i m k = do
  (t, m') ← pop_thread m
  ok (
    pos 0,
    record k { mutexes = set k.mutexes i m'; ptable = set_state t State.runnable k.ptable },
  )

unfoldable pub mutex_unlock : ℤ → Kernel → Result (ℤ × Kernel)
unfolding hand_over
mutex_unlock mutex_id k = do
  (i, m) ← entry mutex_id k
  if not (is_used m.state)
      then ok (minus_one, k)
      else take_lock m
        >> (if not m.locked
            then ok (minus_one, k)
            else if not (empty_queue m)
            then hand_over i m k
            else ok (pos 0, put_entry i (record m { locked = false }) k))

-- The first thread that waits in `m2` runs, and the caller blocks in its place behind the others.
unfoldable pub exchange : Ptr → ℕ → Mutex → Kernel → Result (Outcome × Kernel)
exchange thread i2 m2 k = do
  (t, m2') ← pop_thread m2
  m2'' ← push_thread thread m2'
  ok (
    blocks,
    record k {
      mutexes = set k.mutexes i2 m2'';
      ptable = set_state t State.runnable (set_state thread State.blocked k.ptable);
    },
  )

-- kthread_mutex_unlock(m2->id); kthread_mutex_unlock(m1->id);
unfoldable pub unlock_both : ℕ → ℤ → Kernel → Result (Outcome × Kernel)
unlock_both i1 id2 k = do
  (r2, k2) ← mutex_unlock id2 k
  m1 ← deref (get_elem? k2.mutexes i1)
  (r1, k1) ← mutex_unlock m1.id k2
  ok (returns (pos 0), k1)

-- kthread_mutex_yieldlock, up to `sched` where it blocks.
unfoldable pub mutex_yieldlock : Ptr → ℤ → ℤ → Kernel → Result (Outcome × Kernel)
unfolding exchange unlock_both
mutex_yieldlock thread mutex_id1 mutex_id2 k = do
  (i1, m1) ← entry mutex_id1 k
  (i2, m2) ← entry mutex_id2 k
  if not m1.locked
      then ok (returns minus_one, k)
      else take_lock m2
        >> (if not (empty_queue m2) then exchange thread i2 m2 k else unlock_both i1 m2.id k)
