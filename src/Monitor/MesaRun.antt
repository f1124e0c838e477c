-- ===== src/Monitor/MesaRun.antt =====
-- mesa_slots_monitor.c on the mutexes of kthread.c, for a thread that runs alone.
use os.Base.{ℕ, ◌+◌, ◌-◌, ◌%◌, ◌^◌, ◌==◌, ◌≡◌, ◌≢◌, refl, ap, ◌∙◌, true, false, some, pos, arith}
use os.Proc.Defs.{Ptr}
use os.Mutex.Defs.{Mutex, Kernel, put_entry}
use os.Monitor.Calls.{Shared, is_positive, decr}
use os.Monitor.Mesa.{
  mesa_cond_signal, signal_last, finish, wait_while, mesa_slots_monitor_takeslot,
  mesa_slots_monitor_addslots,
}
use os.Monitor.Kernel.{
  kernel_calls, monitor_of, Idle-self, Idle-other, same_queue, Idle, lock_free, unlock_free,
  unlock_held,
}

-- The kernel after the mutex of the monitor was locked, and after it was given back.
abbrev pub locked_at : ℕ → Mutex → Kernel → Kernel
locked_at i m k = put_entry i (record m { locked = true }) k

abbrev pub given_back : ℕ → Mutex → Kernel → Kernel
given_back i m k = put_entry i (record m { locked = false }) (locked_at i m k)

module _ (thread : Ptr) (k : Kernel) (i j l a b : ℕ) (m n : Mutex) (hm : Idle k i m)
    (free : m.locked ≡ false) (free_cv : n.locked ≡ false) where
  held : Idle (locked_at i m k) i (record m { locked = true })
  held = Idle-self k i m (record m { locked = true }) hm refl refl (same_queue m true) refl

  pub back_idle : Idle (given_back i m k) i (record m { locked = false })
  back_idle =
      Idle-self (locked_at i m k) i (record m { locked = true }) (record m { locked = false }) held
        refl refl (same_queue (record m { locked = true }) false) refl

  pub add_alone :
      (c : ℕ)
      → Idle k j n
      → i ≢ j
      → is_positive a ≡ false
      → mesa_slots_monitor_addslots (kernel_calls thread) 1 c (monitor_of i j l 0 true a b k)
        ≡ some (pos 1, monitor_of i j l ((0 + c) % 2 ^ 32) true a b (given_back i m k))
  unfolding mesa_slots_monitor_addslots wait_while finish mesa_cond_signal signal_last
  add_alone c hn ij nobody =
      rw
        (
          lock_free thread k i m hm free,
          nobody,
          unlock_free thread (locked_at i m k) j n
              (Idle-other k i j (record m { locked = true }) n ij hn) free_cv,
          unlock_held thread (locked_at i m k) i (record m { locked = true }) held refl,
        )
        refl

  pub take_alone :
      (x : ℕ)
      → (x == 0) ≡ false
      → Idle k l n
      → i ≢ l
      → is_positive b ≡ false
      → mesa_slots_monitor_takeslot (kernel_calls thread) 1 (monitor_of i j l x true a b k)
        ≡ some (pos 1, monitor_of i j l (decr x) true a b (given_back i m k))
  unfolding mesa_slots_monitor_takeslot wait_while finish mesa_cond_signal signal_last
  take_alone x slots hn il nobody =
      rw
        (
          lock_free thread k i m hm free,
          slots,
          nobody,
          unlock_free thread (locked_at i m k) l n
              (Idle-other k i l (record m { locked = true }) n il hn) free_cv,
          unlock_held thread (locked_at i m k) i (record m { locked = true }) held refl,
        )
        refl

-- A thread that runs alone adds `c` slots to an active monitor that has none, and takes one. `c` is
-- positive and below 2^31; the mutex of the monitor and those of its condition variables are used,
-- free and have nobody in their queues, the first is none of the others, and nobody is counted as
-- waiting. Both calls return 1, `c - 1` slots are left, nothing else in the monitor changes, and its
-- mutex is free again.
pub add_then_take :
    (thread : Ptr) (k : Kernel) (i j l a b c : ℕ) (m n p : Mutex)
    → Idle k i m
    → Idle k j n
    → Idle k l p
    → i ≢ j
    → i ≢ l
    → m.locked ≡ false
    → n.locked ≡ false
    → p.locked ≡ false
    → is_positive a ≡ false
    → is_positive b ≡ false
    → is_positive c ≡ true
    → (k2 : Kernel) × (s : Shared Kernel) × (mesa_slots_monitor_addslots
          (kernel_calls thread)
          1
          c
          (monitor_of i j l 0 true a b k)
        ≡ some (pos 1, s))
      × (mesa_slots_monitor_takeslot (kernel_calls thread) 1 s
          ≡ some (pos 1, monitor_of i j l (c - 1) true a b k2))
      × Idle k2 i (record m { locked = false })
add_then_take thread k i j l a b c m n p hm hn hp ij il free free_n free_p none_a none_b some_c =
    let m1 : Mutex = record m { locked = true } in
    let m2 : Mutex = record m1 { locked = false } in
    let k1 : Kernel = given_back i m k in
    let hm1 : Idle k1 i m2 = back_idle thread k i j l a b m n hm free free_n in
    let hp1 : Idle k1 l p =
      Idle-other (locked_at i m k) i l m2 p il (Idle-other k i l m1 p il hp) in
    let left : decr ((0 + c) % 2 ^ 32) ≡ c - 1 = grind (arith, some_c) in
    let there : ((0 + c) % 2 ^ 32 == 0) ≡ false = ground (arith, some_c) in
    let k2 : Kernel = given_back i m2 k1 in
    (
      k2,
      monitor_of i j l ((0 + c) % 2 ^ 32) true a b k1,
      add_alone thread k i j l a b m n hm free free_n c hn ij none_a,
      take_alone thread k1 i j l a b m2 p hm1 refl free_p ((0 + c) % 2 ^ 32) there hp1 il none_b
          ∙ ap (λ x. some (pos 1, monitor_of i j l x true a b k2)) left,
      back_idle thread k1 i j l a b m2 p hm1 refl free_p,
    )
