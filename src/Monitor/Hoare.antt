-- ===== src/Monitor/Hoare.antt =====
-- hoare_cond.c and hoare_slots_monitor.c. Calls of malloc succeed.
use os.Base.{
  ℕ, ◌+◌, ◌%◌, ◌^◌, ◌==◌, not, true, false, ◌&&◌, Option, none, some, ℤ, pos, minus_one,
  if◌then◌else◌,
}
use os.Monitor.Calls.{
  Cond, SlotsMonitor, Shared, Calls, is_negative, is_below_minus_one, is_positive, incr, decr, Side,
  on_empty, on_full, cond_at, recount, ◌>>=◌,
}

module _ {W : Type 0} (calls : Calls W) where
  -- The condition variable, unless there is no mutex for it.
  unfoldable pub hoare_cond_alloc : W → Option Cond × W
  hoare_cond_alloc w =
      let (cv_mutex, w') = calls.mutex_alloc w in
      if is_negative cv_mutex
      then (none, w')
      else (some (record { mutex_cv = cv_mutex; waiting = 0 }), w')

  unfoldable pub hoare_cond_dealloc : Option Cond → W → Option (ℤ × W)
  hoare_cond_dealloc none w = some (minus_one, w)
  hoare_cond_dealloc (some c) w = calls.mutex_unlock c.mutex_cv w >>= λ (_, w1).
      let (r, w2) = calls.mutex_dealloc c.mutex_cv w1 in
      if is_negative r then some (minus_one, w2) else some (pos 0, w2)

  unfoldable pub hoare_cond_wait : Side → ℤ → Shared W → Option (ℤ × Shared W)
  hoare_cond_wait side mutex_id s = elim (cond_at side s) [
    | none ↦ some (minus_one, s)
    | some c ↦ calls.mutex_yieldlock mutex_id c.mutex_cv (recount side incr s) >>= λ (r, s1).
        if is_negative r then some (minus_one, recount side decr s1) else some (pos 0, s1)
  ]

  -- The last yieldlock of hoare_cond_signal.
  unfoldable pub signal_last : Cond → ℤ → Shared W → Option (ℤ × Shared W)
  signal_last c mutex_id s = calls.mutex_yieldlock mutex_id c.mutex_cv s >>= λ (r, s').
      some ((if is_negative r then minus_one else pos 0), s')

  unfoldable pub hoare_cond_signal : Side → ℤ → Shared W → Option (ℤ × Shared W)
  hoare_cond_signal side mutex_id s = elim (cond_at side s) [
    | none ↦ some (minus_one, s)
    | some c ↦
        if is_positive c.waiting
        then (calls.mutex_yieldlock mutex_id c.mutex_cv (recount side decr s) >>= λ (r, s1).
            if is_negative r
            then some (minus_one, recount side incr s1)
            else signal_last c mutex_id s1)
        else signal_last c mutex_id s
  ]

  unfoldable pub hoare_slots_monitor_alloc : W → Option (SlotsMonitor × Cond × Cond) × Option W
  hoare_slots_monitor_alloc w =
      let (mutex, w1) = calls.mutex_alloc w in
      let (empty, w2) = hoare_cond_alloc w1 in
      let (full, w3) = hoare_cond_alloc w2 in
      if is_negative mutex then (none, some w1) else (elim empty [
        | none ↦ (none, some (calls.mutex_dealloc mutex w2).1)
        | some e ↦ elim full [
          | none ↦ (
            none,
            hoare_cond_dealloc (some e) (calls.mutex_dealloc mutex w3).1 >>= λ (_, w4). some w4,
          )
          | some f ↦
              (some (record { monitor_mutex = mutex; slots = 0; active = true }, e, f), some w3)
        ]
      ])

  -- It calls hoare_cond_alloc on both sides, whose result, a pointer, is never negative.
  unfoldable pub hoare_slots_monitor_dealloc : SlotsMonitor → W → ℤ × W
  hoare_slots_monitor_dealloc m w =
      let (r, w1) = calls.mutex_dealloc m.monitor_mutex w in
      let (_, w2) = hoare_cond_alloc w1 in
      let (_, w3) = hoare_cond_alloc w2 in if is_negative r then (minus_one, w1) else (pos 0, w3)

  abbrev pub with_slots : (ℕ → ℕ) → Shared W → Shared W
  with_slots f s =
      if s.monitor.active
      then (record s { monitor = record s.monitor { slots = f s.monitor.slots } })
      else s

  -- The change of the slots, the signal and the unlock that end addslots and takeslot.
  unfoldable pub finish : Side → (ℕ → ℕ) → Shared W → Option (ℤ × Shared W)
  finish side f s = hoare_cond_signal side s.monitor.monitor_mutex (with_slots f s) >>= λ (_, s1).
      calls.mutex_unlock s1.monitor.monitor_mutex s1.world >>= λ (_, w).
      some (pos 1, record s1 { world = w })

  unfoldable pub hoare_slots_monitor_addslots : ℕ → Shared W → Option (ℤ × Shared W)
  hoare_slots_monitor_addslots n s =
      if not s.monitor.active
      then some (minus_one, s)
      else (calls.mutex_lock s.monitor.monitor_mutex s >>= λ (r, s1).
          if is_below_minus_one r
          then some (minus_one, s1)
          else (if s1.monitor.active && is_positive s1.monitor.slots
              then (hoare_cond_wait on_full s1.monitor.monitor_mutex s1 >>= λ (_, s2).
                  finish on_empty (λ x. (x + n) % 2 ^ 32) s2)
              else finish on_empty (λ x. (x + n) % 2 ^ 32) s1))

  unfoldable pub hoare_slots_monitor_takeslot : Shared W → Option (ℤ × Shared W)
  hoare_slots_monitor_takeslot s =
      if not s.monitor.active
      then some (minus_one, s)
      else (calls.mutex_lock s.monitor.monitor_mutex s >>= λ (r, s1).
          if is_below_minus_one r
          then some (minus_one, s1)
          else (if s1.monitor.active && s1.monitor.slots == 0
              then (hoare_cond_wait on_empty s1.monitor.monitor_mutex s1 >>= λ (_, s2).
                  finish on_full decr s2)
              else finish on_full decr s1))

  unfoldable pub hoare_slots_monitor_stopadding : Shared W → Option (ℤ × Shared W)
  hoare_slots_monitor_stopadding s =
      if not s.monitor.active
      then some (minus_one, s)
      else (calls.mutex_lock s.monitor.monitor_mutex s >>= λ (r, s1).
          if is_below_minus_one r
          then some (minus_one, s1)
          else (let s2 : Shared W = record s1 { monitor = record s1.monitor { active = false } } in
              calls.mutex_unlock s2.monitor.monitor_mutex s2.world >>= λ (_, w).
              some (pos 0, record s2 { world = w })))
