-- ===== src/Monitor/Kernel.antt =====
-- The monitors over the mutexes of kthread.c, for a thread that runs alone: a call that blocks does
-- not return.
use os.Base.{
  ℕ, ◌≡◌, ◌≢◌, refl, ap, ◌∙◌, Bool, true, false, Option, none, some, get_elem?, get_elem?-set_self,
  get_elem?-set_ne, get_elem?-some_lt, Result, ok, panic, fault, >>=-Returned, ℤ, pos, minus_one,
  arith, Bool-cases, Option-cases, inl, inr,
}
use os.Proc.Defs.{Ptr}
use os.Mutex.Defs.{
  Mutex, Kernel, is_used, empty_queue, put_entry, entry, take_lock, Outcome, returns, blocks,
  mutex_alloc, mutex_dealloc, lock_enter, mutex_unlock, hand_over, mutex_yieldlock, unlock_both,
  pop_thread,
}
use os.Monitor.Calls.{Shared, Calls, is_negative}

abbrev pub ran : Result (ℤ × Kernel) → Option (ℤ × Kernel)
ran (ok r) = some r
ran (panic m) = none
ran fault = none

abbrev pub came_back : Shared Kernel → Result (Outcome × Kernel) → Option (ℤ × Shared Kernel)
came_back s (ok (returns r, k)) = some (r, record s { world = k })
came_back s (ok (blocks, k)) = none
came_back s (panic m) = none
came_back s fault = none

abbrev pub kernel_calls : Ptr → Calls Kernel
kernel_calls thread = record {
  mutex_alloc = mutex_alloc;
  mutex_dealloc = mutex_dealloc;
  mutex_unlock = λ m k. ran (mutex_unlock m k);
  mutex_lock = λ m s. came_back s (lock_enter thread m s.world);
  mutex_yieldlock = λ m1 m2 s. came_back s (mutex_yieldlock thread m1 m2 s.world);
}

-- Handing a mutex over does not fail.
fails_never :
    (i : ℕ) (m : Mutex) (k k' : Kernel) (r : ℤ)
    → hand_over i m k ≡ ok (r, k')
    → is_negative r ≢ true
unfolding hand_over
fails_never i m k k' r h bad =
    let (x, _, out) = >>=-Returned (pop_thread m) _ h in absurd (ground (arith, out, bad))

-- A call of unlock that fails changes nothing.
unlock_failed :
    (m : ℤ) (k k' : Kernel) (r : ℤ) → mutex_unlock m k ≡ ok (r, k') → is_negative r ≡ true → k' ≡ k
unfolding mutex_unlock
unlock_failed m k k' r h bad =
    let ((i, x), _, h1) = >>=-Returned (entry m k) _ h in
    elim (Bool-cases (is_used x.state)) [
      | inr unused ↦ ground (arith, h1, unused)
      | inl used ↦ elim (Option-cases x.queue_lock) [
        | inl no_lock ↦ absurd (ground (arith, h1, used, no_lock))
        | inr (q, e) ↦ elim (Bool-cases x.locked) [
          | inr free ↦ ground (arith, h1, used, e, free)
          | inl held ↦ elim (Bool-cases (empty_queue x)) [
            | inl nobody ↦ absurd (ground (arith, h1, used, e, held, nobody, bad))
            | inr queued ↦
                let step : hand_over i x k ≡ ok (r, k') =
                  ground (arith, h1, used, e, held, queued) in
                absurd (fails_never i x k k' r step bad)
          ]
        ]
      ]
    ]

-- An entry that is used, with nobody in its queue.
pub record Idle (k : Kernel) (i : ℕ) (m : Mutex) : Type 0 where
  pub here : get_elem? k.mutexes i ≡ some m
  pub used : is_used m.state ≡ true
  pub own : m.id ≡ pos i
  pub nobody : empty_queue m ≡ true
  pub lock : (q : ℕ) × (m.queue_lock ≡ some q)

-- A monitor with its two condition variables, on the mutexes `i`, `j` and `l`.
abbrev pub monitor_of : ℕ → ℕ → ℕ → ℕ → Bool → ℕ → ℕ → Kernel → Shared Kernel
monitor_of i j l n active a b k = record {
  monitor = record { monitor_mutex = pos i; slots = n; active = active };
  empty = some (record { mutex_cv = pos j; waiting = a });
  full = some (record { mutex_cv = pos l; waiting = b });
  world = k;
}

pub Idle-self :
    (k : Kernel) (i : ℕ) (m m' : Mutex)
    → Idle k i m
    → is_used m'.state ≡ is_used m.state
    → m'.id ≡ m.id
    → empty_queue m' ≡ empty_queue m
    → m'.queue_lock ≡ m.queue_lock
    → Idle (put_entry i m' k) i m'
Idle-self k i m m' h e1 e2 e3 e4 = record {
  here = get_elem?-set_self k.mutexes i m' (get_elem?-some_lt k.mutexes i {x = m} h.here);
  used = e1 ∙ h.used;
  own = e2 ∙ h.own;
  nobody = e3 ∙ h.nobody;
  lock = (h.lock.0, e4 ∙ h.lock.1);
}

pub Idle-other :
    (k : Kernel) (i j : ℕ) (m' n : Mutex) → i ≢ j → Idle k j n → Idle (put_entry i m' k) j n
Idle-other k i j m' n ne h = record {
  here = get_elem?-set_ne k.mutexes i j m' ne ∙ h.here;
  used = h.used;
  own = h.own;
  nobody = h.nobody;
  lock = h.lock;
}

pub same_queue : (m : Mutex) (b : Bool) → empty_queue (record m { locked = b }) ≡ empty_queue m
unfolding empty_queue
same_queue m b = refl

module _ (thread : Ptr) (k : Kernel) (i : ℕ) (m : Mutex) (idle : Idle k i m) where
  entry_at : entry (pos i) k ≡ ok (i, m)
  unfolding entry
  entry_at = ground (arith, idle.here)

  lock_taken : take_lock m ≡ ok tt
  lock_taken = let (q, e) = idle.lock in ground (arith, e)

  pub lock_free :
      m.locked ≡ false
      → lock_enter thread (pos i) k
        ≡ ok (returns (pos 0), put_entry i (record m { locked = true }) k)
  unfolding lock_enter
  lock_free free = let (q, e) = idle.lock in rw (entry_at, idle.used, e, free) refl

  pub unlock_free : m.locked ≡ false → mutex_unlock (pos i) k ≡ ok (minus_one, k)
  unfolding mutex_unlock
  unlock_free free = let (q, e) = idle.lock in rw (entry_at, idle.used, e, free) refl

  pub unlock_held :
      m.locked ≡ true
      → mutex_unlock (pos i) k ≡ ok (pos 0, put_entry i (record m { locked = false }) k)
  unfolding mutex_unlock
  unlock_held held = let (q, e) = idle.lock in rw (entry_at, idle.used, idle.nobody, held, e) refl

module _ (thread : Ptr) (k : Kernel) (i j : ℕ) (m n : Mutex) (mine : Idle k i m)
    (other : Idle k j n) where
  both_unlocked :
      m.locked ≡ true
      → n.locked ≡ false
      → unlock_both i n.id k ≡ ok (returns (pos 0), put_entry i (record m { locked = false }) k)
  unfolding unlock_both
  both_unlocked held free =
      let second : mutex_unlock n.id k ≡ ok (minus_one, k) =
        ap (λ d. mutex_unlock d k) other.own ∙ unlock_free thread k j n other free in
      let first : mutex_unlock m.id k ≡ ok (pos 0, put_entry i (record m { locked = false }) k) =
        ap (λ d. mutex_unlock d k) mine.own ∙ unlock_held thread k i m mine held in
      rw (second, mine.here, first) refl

  -- Nobody waits in the second mutex: both are unlocked, and the thread goes on.
  pub yield_nobody :
      m.locked ≡ true
      → n.locked ≡ false
      → mutex_yieldlock thread (pos i) (pos j) k
        ≡ ok (returns (pos 0), put_entry i (record m { locked = false }) k)
  unfolding mutex_yieldlock
  yield_nobody held free =
      let (q, e) = other.lock in
      rw (entry_at thread k i m mine, entry_at thread k j n other, held, other.nobody, e)
        (both_unlocked held free)

  pub yield_unlocked :
      m.locked ≡ false → mutex_yieldlock thread (pos i) (pos j) k ≡ ok (returns minus_one, k)
  unfolding mutex_yieldlock
  yield_unlocked free = rw (entry_at thread k i m mine, entry_at thread k j n other, free) refl

was_ok : (x : Result (ℤ × Kernel)) (y : ℤ × Kernel) → ran x ≡ some y → x ≡ ok y
was_ok (ok x) y h = cc
was_ok (panic why) y h = absurd cc
was_ok fault y h = absurd cc

-- The same of `mutex_unlock` of `kernel_calls`.
kernel_law :
    (thread : Ptr) (m r : ℤ) (k k' : Kernel)
    → (kernel_calls thread).mutex_unlock m k ≡ some (r, k')
    → is_negative r ≡ true
    → k' ≡ k
kernel_law thread m r k k' h = unlock_failed m k k' r (was_ok (mutex_unlock m k) (r, k') h)
