-- ===== src/Mutex/Total.antt =====
-- kthread.c: the ways in which lock and unlock end.
use os.Base.{
  panic, Result, ◌⊎◌, ltb, ◌++◌, [], ◌∷◌, true, false, ℕ, ◌<◌, ◌≡◌, inl, inr, Bool-cases, some,
  length, get_elem?, arith, ok, ℤ, pos, minus_one, get_elem?-lt_some, List-cases,
}
use os.Proc.Defs.{nthread, Ptr}
use os.Mutex.Defs.{
  put_entry, unused_mutex, used_mutex, Mutex, Kernel, entry, Outcome, returns, blocks, lock_enter,
  mutex_unlock,
}
use os.Mutex.Queue.{length-waiting_le}
use os.Mutex.Inv.{waiters, KValid, KValid-get}
use os.Mutex.Ops.{
  lock_enter-free, lock_enter-full, lock_enter-held, unlock-hands_over, unlock-last,
  unlock-not_locked,
}
use os.Mutex.Table.{state_cases}

-- A call on a free entry is refused with -1 and changes nothing.
unlock-unused :
    (i : ℕ) (k : Kernel) {m : Mutex}
    → get_elem? k.mutexes i ≡ some m
    → m.state ≡ unused_mutex
    → mutex_unlock (pos i) k ≡ ok (minus_one, k)
unfolding mutex_unlock entry
unlock-unused i k here free = ground arith

lock_enter-unused :
    (t : Ptr) (i : ℕ) (k : Kernel) {m : Mutex}
    → get_elem? k.mutexes i ≡ some m
    → m.state ≡ unused_mutex
    → lock_enter t (pos i) k ≡ ok (returns minus_one, k)
unfolding lock_enter entry
lock_enter-unused t i k here free = ground arith

-- On a valid table kthread_mutex_unlock returns for every entry, without a panic or a bad access,
-- and leaves the table valid.
unlock_total :
    (i : ℕ) (k : Kernel)
    → KValid k
    → i < length k.mutexes
    → (r : ℤ) × (k' : Kernel) × (mutex_unlock (pos i) k ≡ ok (r, k')) × KValid k'
unlock_total i k valid lt =
    let (m, here) = get_elem?-lt_some k.mutexes i lt in
    elim (state_cases m.state) [
      | inl free ↦ (minus_one, k, unlock-unused i k here free, valid)
      | inr used ↦ elim (Bool-cases m.locked) [
        | inr open_now ↦
            (minus_one, k, unlock-not_locked caller i k valid here used open_now, valid)
        | inl held ↦ elim (List-cases (waiters m)) [
          | inl nobody ↦
              let (e, v) = unlock-last caller i k valid here used held nobody in (pos 0, _, e, v)
          | inr (t, ws, w) ↦
              let (m', e, _, _, _, v) = unlock-hands_over caller i k valid here used held w in
              (pos 0, _, e, v)
        ]
      ]
    ]
  where
    caller : Ptr
    caller = record { proc = 0; slot = 0 }

-- How kthread_mutex_lock ends, up to where it blocks, on the entry `m` at `i`.
abbrev pub Entered : Ptr → ℕ → Kernel → Mutex → Result (Outcome × Kernel) → Type 0
Entered t i k m r =
    ((m.state ≡ unused_mutex) × (r ≡ ok (returns minus_one, k)))
    ⊎ ((m.state ≡ used_mutex)
        × (m.locked ≡ false)
        × (r ≡ ok (returns (pos 0), put_entry i (record m { locked = true }) k))
        × KValid (put_entry i (record m { locked = true }) k))
    ⊎ ((m.state ≡ used_mutex)
        × (m.locked ≡ true)
        × (length (waiters m) < nthread)
        × ((m' : Mutex) × (r ≡ ok (blocks, put_entry i m' k))
            × (waiters m' ≡ waiters m ++ t ∷ [])
            × (m'.locked ≡ true)
            × KValid (put_entry i m' k)))
    ⊎ ((m.state ≡ used_mutex)
        × (m.locked ≡ true)
        × (length (waiters m) ≡ nthread)
        × (r ≡ panic "Mutex oveflow\n"))

-- A call of kthread_mutex_lock on an entry of a valid table ends, up to where it blocks, in one of
-- four ways: a free entry is refused with -1; a used mutex that is not locked is taken, and the call
-- returns 0; a locked one takes the thread at the back of its queue, and the thread goes on to block;
-- and if sixteen threads wait already, the kernel panics. But for the panic the table stays valid.
pub lock_enter-Entered :
    (t : Ptr) (i : ℕ) (k : Kernel) {m : Mutex}
    → KValid k
    → get_elem? k.mutexes i ≡ some m
    → Entered t i k m (lock_enter t (pos i) k)
lock_enter-Entered t i k {m} valid here = elim (state_cases m.state) [
  | inl free ↦ inl (free, lock_enter-unused t i k here free)
  | inr used ↦ elim (Bool-cases m.locked) [
    | inr open_now ↦
        let (e, v) = lock_enter-free t i k valid here used open_now in
        inr (inl (used, open_now, e, v))
    | inl held ↦ elim (Bool-cases (ltb (length (waiters m)) nthread)) [
      | inl room ↦
          let lt : length (waiters m) < nthread = ground (arith, room) in
          let (m', e, w, l, _, v) = lock_enter-held t i k valid here used held lt in
          inr (inr (inl (used, held, lt, (m', e, w, l, v))))
      | inr none_left ↦
          let full : length (waiters m) ≡ nthread = ground (
            arith,
            none_left,
            length-waiting_le m.threads_queue,
            (KValid-get k i valid here).size,
          ) in
          inr (inr (inr (used, held, full, lock_enter-full t i k valid here used held full)))
    ]
  ]
]
