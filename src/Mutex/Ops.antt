-- ===== src/Mutex/Ops.antt =====
-- kthread.c: what kthread_mutex_lock, kthread_mutex_unlock and kthread_mutex_yieldlock do to a
-- valid table, branch by branch.
use os.Base.{
  panic, ℕ, ◌<◌, ◌≡◌, ap, inl, inr, true, false, some, List, [], ◌∷◌, ◌++◌, length, get_elem?, set,
  arith, ok, pos, minus_one,
}
use os.Proc.Defs.{nthread, State, Ptr}
use os.Proc.Access.{set_state}
use os.Mutex.Defs.{
  used_mutex, Mutex, Kernel, popped, entry, put_entry, returns, blocks, lock_enter, hand_over,
  push_thread, mutex_unlock, exchange,
}
use os.Mutex.Queue.{length-waiting_le}
use os.Mutex.Inv.{
  waiters, IsValid, AllValid, KValid, KValid-get, KValid-set, pop_cases, push_lem, pushed-IsValid,
  popped-IsValid, locked-IsValid, unlocked-IsValid,
}

module _ (thread : Ptr) (i : ℕ) (k : Kernel) {m : Mutex} (valid : KValid k)
    (here : get_elem? k.mutexes i ≡ some m) (used : m.state ≡ used_mutex) where
  v : IsValid i m
  v = KValid-get k i valid here

  lock_known : m.queue_lock ≡ some i
  lock_known = (rw used at v.owned).1

  -- A free mutex is taken at once: the call returns 0 and only the lock flag changes.
  pub lock_enter-free :
      m.locked ≡ false
      → (lock_enter thread (pos i) k
          ≡ ok (returns (pos 0), put_entry i (record m { locked = true }) k))
        × KValid (put_entry i (record m { locked = true }) k)
  unfolding lock_enter entry
  lock_enter-free free =
      (ground (arith, lock_known), KValid-set k.mutexes i _ valid (locked-IsValid m v used))

  -- In a valid table, a used and locked mutex with room in its queue takes the thread at the back
  -- of that queue: the caller goes on to block, and the table stays valid.
  pub lock_enter-held :
      m.locked ≡ true
      → length (waiters m) < nthread
      → (m' : Mutex) × (lock_enter thread (pos i) k ≡ ok (blocks, put_entry i m' k))
        × (waiters m' ≡ waiters m ++ thread ∷ [])
        × (m'.locked ≡ true)
        × (m'.state ≡ used_mutex)
        × KValid (put_entry i m' k)
  unfolding lock_enter entry
  lock_enter-held held room =
      let (m', e, w, d) = push_lem thread m v room in
      (
        m',
        ground (arith, lock_known),
        w,
        ground arith,
        ground arith,
        KValid-set k.mutexes i m' valid (rw d (pushed-IsValid thread m v room held)),
      )

  -- The queue of a used and locked mutex has no room.
  pub lock_enter-full :
      m.locked ≡ true
      → length (waiters m) ≡ nthread
      → lock_enter thread (pos i) k ≡ panic "Mutex oveflow\n"
  unfolding lock_enter entry push_thread
  lock_enter-full held full = ground (arith, lock_known, v.back)

  -- An unlock with nobody in the queue frees the mutex.
  pub unlock-last :
      m.locked ≡ true
      → waiters m ≡ []
      → (mutex_unlock (pos i) k ≡ ok (pos 0, put_entry i (record m { locked = false }) k))
        × KValid (put_entry i (record m { locked = false }) k)
  unfolding mutex_unlock entry
  unlock-last held nobody = elim (pop_cases m v) [
    | inl (_, e) ↦ (
      ground (arith, lock_known),
      KValid-set k.mutexes i _ valid (unlocked-IsValid m v used nobody),
    )
    | inr (t, e, p, w, q, l) ↦ absurd (ground (arith, nobody, w))
  ]

  -- In a valid table, an unlock of a used and locked mutex with threads in its queue makes the
  -- first one runnable and takes it out. The mutex stays locked, for that thread.
  pub unlock-hands_over :
      {t : Ptr} {ws : List Ptr}
      → m.locked ≡ true
      → waiters m ≡ t ∷ ws
      → (m' : Mutex) × (mutex_unlock (pos i) k
          ≡ ok (
            pos 0,
            record k { mutexes = set k.mutexes i m'; ptable = set_state t State.runnable k.ptable },
          ))
        × (waiters m' ≡ ws)
        × (m'.locked ≡ true)
        × (m'.state ≡ used_mutex)
        × AllValid 0 (set k.mutexes i m')
  unfolding mutex_unlock entry hand_over
  unlock-hands_over {t} {ws} held someone = elim (pop_cases m v) [
    | inl (w, e) ↦ absurd (ground (arith, someone, w))
    | inr (u, e, p, w, q, l) ↦ (
      popped m,
      ground (arith, lock_known, someone, w),
      ground (arith, someone, w),
      held,
      used,
      KValid-set k.mutexes i _ valid (popped-IsValid u m v w q l held),
    )
  ]

  -- An unlock of a mutex that is not locked is an error and changes nothing.
  pub unlock-not_locked : m.locked ≡ false → mutex_unlock (pos i) k ≡ ok (minus_one, k)
  unfolding mutex_unlock entry
  unlock-not_locked free = ground (arith, lock_known)

  -- The part of yieldlock that swaps: the first thread in the queue runs, and the caller takes the
  -- last place. It never overflows the queue.
  pub exchange_lem :
      {t : Ptr} {ws : List Ptr}
      → m.locked ≡ true
      → waiters m ≡ t ∷ ws
      → (m' : Mutex) × (exchange thread i m k
          ≡ ok (
            blocks,
            record k {
              mutexes = set k.mutexes i m';
              ptable = set_state t State.runnable (set_state thread State.blocked k.ptable);
            },
          ))
        × (waiters m' ≡ ws ++ thread ∷ [])
        × (m'.locked ≡ true)
        × AllValid 0 (set k.mutexes i m')
  unfolding exchange
  exchange_lem {t} {ws} held someone = elim (pop_cases m v) [
    | inl (w, e) ↦ absurd (ground (arith, someone, w))
    | inr (u, e, p, w, q, l) ↦
        let v' = popped-IsValid u m v w q l held in
        let room : length (waiters (popped m)) < nthread =
          omega (arith, ap length w, v.size, length-waiting_le m.threads_queue) in
        let (m', e', w', d) = push_lem thread (popped m) v' room in
        (
          m',
          ground (arith, p, e', someone, w),
          ground (arith, w', someone, w),
          ground arith,
          KValid-set k.mutexes i m' valid (rw d (pushed-IsValid thread (popped m) v' room held)),
        )
  ]
