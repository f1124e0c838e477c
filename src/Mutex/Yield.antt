-- ===== src/Mutex/Yield.antt =====
-- kthread_mutex_yieldlock, the call under the Hoare condition variables.
use os.Base.{
  ℕ, ◌≡◌, ◌++◌, true, false, some, List, [], ◌∷◌, get_elem?, set, arith, ok, fault, pos, minus_one,
  get_elem?-set_ne, ◌≢◌, ◌∙◌, inl, inr,
}
use os.Proc.Defs.{State, Ptr}
use os.Proc.Access.{set_state}
use os.Mutex.Defs.{
  unused_mutex, used_mutex, Mutex, Kernel, put_entry, entry, returns, blocks, mutex_yieldlock,
  mutex_unlock, unlock_both,
}
use os.Mutex.Inv.{waiters, IsValid, AllValid, KValid, KValid-get, pop_cases}
use os.Mutex.Ops.{exchange_lem, unlock-last}

-- In a valid table, the first mutex is locked and threads wait in the second, a used and locked
-- one: the first of them
-- runs, the caller blocks at the back of that queue, no matter how full it is, and the table stays
-- valid. The first mutex is not touched: the caller's lock on it passes to the thread that runs.
yieldlock-swaps :
    (thread : Ptr) (i1 i2 : ℕ) (k : Kernel) {m1 m2 : Mutex} {t : Ptr} {ws : List Ptr}
    → KValid k
    → get_elem? k.mutexes i1 ≡ some m1
    → get_elem? k.mutexes i2 ≡ some m2
    → m1.locked ≡ true
    → m2.state ≡ used_mutex
    → m2.locked ≡ true
    → waiters m2 ≡ t ∷ ws
    → (m' : Mutex) × (mutex_yieldlock thread (pos i1) (pos i2) k
        ≡ ok (
          blocks,
          record k {
            mutexes = set k.mutexes i2 m';
            ptable = set_state t State.runnable (set_state thread State.blocked k.ptable);
          },
        ))
      × (waiters m' ≡ ws ++ thread ∷ [])
      × (m'.locked ≡ true)
      × AllValid 0 (set k.mutexes i2 m')
unfolding mutex_yieldlock entry
yieldlock-swaps thread i1 i2 k {m1} {m2} {t} {ws} valid here1 here2 held1 used2 held2 someone =
    let v : IsValid i2 m2 = KValid-get k i2 valid here2 in
    let lock : m2.queue_lock ≡ some i2 = (rw used2 at v.owned).1 in
    let (m', e, w, held, va) = exchange_lem thread i2 k valid here2 used2 held2 someone in
    elim (pop_cases m2 v) [
      | inl (w0, _) ↦ absurd (ground (arith, w0, someone))
      | inr (_, full, _, _, _, _) ↦ (m', ground (arith, lock, full, e), w, held, va)
    ]

-- In a valid table, nobody waits in either of two different mutexes, both used and locked: both
-- are unlocked and the call returns 0.
yieldlock-releases :
    (thread : Ptr) (i1 i2 : ℕ) (k : Kernel) {m1 m2 : Mutex}
    → KValid k
    → i2 ≢ i1
    → get_elem? k.mutexes i1 ≡ some m1
    → get_elem? k.mutexes i2 ≡ some m2
    → m1.state ≡ used_mutex
    → m2.state ≡ used_mutex
    → m1.locked ≡ true
    → m2.locked ≡ true
    → waiters m1 ≡ []
    → waiters m2 ≡ []
    → mutex_yieldlock thread (pos i1) (pos i2) k
      ≡ ok (
        returns (pos 0),
        put_entry i1 (record m1 { locked = false }) (put_entry i2 (record m2 { locked = false }) k),
      )
unfolding mutex_yieldlock entry unlock_both
yieldlock-releases thread i1 i2 k {m1} {m2} valid ne here1 here2 used1 used2 held1 held2 w1 w2 =
    let v : IsValid i2 m2 = KValid-get k i2 valid here2 in
    let (id2, lock2) = rw used2 at v.owned in
    let v1 : IsValid i1 m1 = KValid-get k i1 valid here1 in
    let (id1, lock1) = rw used1 at v1.owned in
    let (e2, valid2) = unlock-last thread i2 k valid here2 used2 held2 w2 in
    let k2 : Kernel = put_entry i2 (record m2 { locked = false }) k in
    let at1 : get_elem? k2.mutexes i1 ≡ some m1 =
      get_elem?-set_ne k.mutexes i2 i1 (record m2 { locked = false }) ne ∙ here1 in
    let (e1, valid1) = unlock-last thread i1 k2 valid2 at1 used1 held1 w1 in
    elim (pop_cases m2 v) [
      | inl (_, none_waits) ↦ ground (arith, lock2, none_waits, id2, e2, at1, id1, e1)
      | inr (_, _, _, w, _, _) ↦ absurd (ground (arith, w, w2))
    ]

-- In a valid table, the first mutex is locked and the second has been deallocated, so that its id
-- is -1 but its queue lock is still there: the call unlocks mutex -1, which lies in front of the
-- table.
yieldlock-freed :
    (thread : Ptr) (i1 i2 j : ℕ) (k : Kernel) {m1 m2 : Mutex}
    → KValid k
    → get_elem? k.mutexes i1 ≡ some m1
    → get_elem? k.mutexes i2 ≡ some m2
    → m1.locked ≡ true
    → m2.state ≡ unused_mutex
    → m2.id ≡ minus_one
    → m2.queue_lock ≡ some j
    → mutex_yieldlock thread (pos i1) (pos i2) k ≡ fault
unfolding mutex_yieldlock mutex_unlock entry unlock_both
yieldlock-freed thread i1 i2 j k {m1} {m2} valid here1 here2 held free id lock =
    let v : IsValid i2 m2 = KValid-get k i2 valid here2 in
    let not_locked : m2.locked ≡ false = rw free at v.owned in
    let nobody : waiters m2 ≡ [] = rw not_locked at v.quiet in
    elim (pop_cases m2 v) [
      | inl (_, none_waits) ↦ ground (arith, none_waits)
      | inr (_, _, _, w, _, _) ↦ absurd (ground (arith, w, nobody))
    ]
