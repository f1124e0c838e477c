-- ===== src/Monitor/Mesa.antt =====
-- mesa_cond.c and mesa_slots_monitor.c. Calls of malloc succeed.
use os.Base.{
  ℕ, zero, suc, ◌+◌, ◌%◌, ◌^◌, ◌==◌, not, Bool, true, false, ◌&&◌, Option, none, some, ℤ, pos,
  minus_one, if◌then◌else◌,
}
use os.Monitor.Calls.{
  Cond, SlotsMonitor, Shared, Calls, is_negative, is_below_minus_one, is_positive, incr, decr, Side,
  on_empty, on_full, cond_at, recount, ◌>>=◌,
}

module _ {W : Type 0} (calls : Calls W) where
  -- The condition variable, unless there is no mutex for it.
  unfoldable pub mesa_cond_alloc : W → Option Cond × W
  mesa_cond_alloc w =
      let (cv_mutex, w') = calls.mutex_alloc w in
      if is_negative cv_mutex
      then (none, w')
      else (some (record { mutex_cv = cv_mutex; waiting = 0 }), w')

  unfoldable pub mesa_cond_dealloc : Option Cond → W → Option (ℤ × W)
  mesa_cond_dealloc none w = some (minus_one, w)
  mesa_cond_dealloc (some c) w = calls.mutex_unlock c.mutex_cv w >>= λ (_, w1).
      let (r, w2) = calls.mutex_dealloc c.mutex_cv w1 in
      if is_negative r then some (minus_one, w2) else some (pos 0, w2)

  -- kthread_mutex_lock(mutex_id); return 0;
  unfoldable pub relock : ℤ → Shared W → Option (ℤ × Shared W)
  relock mutex_id s = calls.mutex_lock mutex_id s >>= λ (_, s'). some (pos 0, s')

  unfoldable pub mesa_cond_wait : Side → ℤ → Shared W → Option (ℤ × Shared W)
  mesa_cond_wait side mutex_id s = elim (cond_at side s) [
    | none ↦ some (minus_one, s)
    | some c ↦
        let s1 : Shared W = recount side incr s in
        calls.mutex_unlock mutex_id s1.world >>= λ (r, w).
        let s2 : Shared W = record s1 { world = w } in
        if is_negative r
        then (calls.mutex_lock c.mutex_cv s2 >>= λ (r', s3).
            if is_negative r' then some (minus_one, recount side decr s3) else relock mutex_id s3)
        else relock mutex_id s2
  ]

  -- The second unlock of mesa_cond_signal.
  unfoldable pub signal_last : Cond → Shared W → Option (ℤ × Shared W)
  signal_last c s = calls.mutex_unlock c.mutex_cv s.world >>= λ (r, w).
      some ((if is_negative r then minus_one else pos 0), record s { world = w })

  unfoldable pub mesa_cond_signal : Side → Shared W → Option (ℤ × Shared W)
  mesa_cond_signal side s = elim (cond_at side s) [
    | none ↦ some (minus_one, s)
    | some c ↦
        if is_positive c.waiting
        then (let s1 : Shared W = recount side decr s in
            calls.mutex_unlock c.mutex_cv s1.world >>= λ (r, w).
            let s2 : Shared W = record s1 { world = w } in
            if not (is_negative r)
            then some (minus_one, recount side incr s2)
            else signal_last c s2)
        else signal_last c s
  ]

  unfoldable pub mesa_slots_monitor_alloc : W → Option (SlotsMonitor × Cond × Cond) × Option W
  mesa_slots_monitor_alloc w =
      let (mutex, w1) = calls.mutex_alloc w in
      let (empty, w2) = mesa_cond_alloc w1 in
      let (full, w3) = mesa_cond_alloc w2 in
      if is_negative mutex then (none, some w1) else (elim empty [
        | none ↦ (none, some (calls.mutex_dealloc mutex w2).1)
        | some e ↦ elim full [
          | none ↦ (
            none,
            mesa_cond_dealloc (some e) (calls.mutex_dealloc mutex w3).1 >>= λ (_, w4). some w4,
          )
          | some f ↦
              (some (record { monitor_mutex = mutex; slots = 0; active = true }, e, f), some w3)
        ]
      ])

  -- It calls mesa_cond_alloc on both sides, whose result, a pointer, is never negative.
  unfoldable pub mesa_slots_monitor_dealloc : SlotsMonitor → W → ℤ × W
  mesa_slots_monitor_dealloc m w =
      let (r, w1) = calls.mutex_dealloc m.monitor_mutex w in
      let (_, w2) = mesa_cond_alloc w1 in
      let (_, w3) = mesa_cond_alloc w2 in if is_negative r then (minus_one, w1) else (pos 0, w3)

  abbrev pub with_slots : (ℕ → ℕ) → Shared W → Shared W
  with_slots f s =
      if s.monitor.active
      then (record s { monitor = record s.monitor { slots = f s.monitor.slots } })
      else s

  -- The change of the slots, the signal and the unlock that end addslots and takeslot.
  unfoldable pub finish : Side → (ℕ → ℕ) → Shared W → Option (ℤ × Shared W)
  finish side f s = mesa_cond_signal side (with_slots f s) >>= λ (_, s1).
      calls.mutex_unlock s1.monitor.monitor_mutex s1.world >>= λ (_, w).
      some (pos 1, record s1 { world = w })

  -- The loops of addslots and takeslot: at most `k` waits, and then the end.
  unfoldable pub wait_while :
      ℕ
      → (SlotsMonitor → Bool)
      → Side
      → (Shared W → Option (ℤ × Shared W))
      → Shared W
      → Option (ℤ × Shared W)
  wait_while zero test side last s = none
  wait_while (suc k) test side last s =
      let next = mesa_cond_wait side s.monitor.monitor_mutex s >>= λ (_, s1).
      wait_while k test side last s1 in
      if test s.monitor then next else last s

  unfoldable pub mesa_slots_monitor_addslots : ℕ → ℕ → Shared W → Option (ℤ × Shared W)
  mesa_slots_monitor_addslots k n s =
      if not s.monitor.active
      then some (minus_one, s)
      else (calls.mutex_lock s.monitor.monitor_mutex s >>= λ (r, s1).
          if is_below_minus_one r
          then some (minus_one, s1)
          else wait_while k (λ m. m.active && is_positive m.slots) on_full
              (λ t. finish on_empty (λ x. (x + n) % 2 ^ 32) t) s1)

  unfoldable pub mesa_slots_monitor_takeslot : ℕ → Shared W → Option (ℤ × Shared W)
  mesa_slots_monitor_takeslot k s =
      if not s.monitor.active
      then some (minus_one, s)
      else (calls.mutex_lock s.monitor.monitor_mutex s >>= λ (r, s1).
          if is_below_minus_one r
          then some (minus_one, s1)
          else wait_while k (λ m. m.active && m.slots == 0) on_empty (λ t. finish on_full decr t)
              s1)

  unfoldable pub mesa_slots_monitor_stopadding : Shared W → Option (ℤ × Shared W)
  mesa_slots_monitor_stopadding s =
      if not s.monitor.active
      then some (minus_one, s)
      else (calls.mutex_lock s.monitor.monitor_mutex s >>= λ (r, s1).
          if is_below_minus_one r
          then some (minus_one, s1)
          else (let s2 : Shared W = record s1 { monitor = record s1.monitor { active = false } } in
              calls.mutex_unlock s2.monitor.monitor_mutex s2.world >>= λ (_, w).
              some (pos 0, record s2 { world = w })))
