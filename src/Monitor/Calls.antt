-- ===== src/Monitor/Calls.antt =====
-- What the monitors use of the kernel, and the memory that the threads of a program share. Words are
-- `int`s in two's complement on 32 bits.
use os.Base.{
  ℕ, zero, suc, ◌+◌, ◌-◌, ◌%◌, ◌^◌, ltb, Bool, true, false, ◌&&◌, Option, none, some, ℤ, pos,
  negsuc,
}

-- `struct mesa_cond` and `struct hoare_cond`, which are alike.
pub record Cond : Type 0 where
  pub mutex_cv : ℤ
  pub waiting : ℕ

-- `struct mesa_slots_monitor` and `struct hoare_slots_monitor`; its two condition variables stand in
-- `Shared`.
pub record SlotsMonitor : Type 0 where
  pub monitor_mutex : ℤ
  pub slots : ℕ
  pub active : Bool

-- The memory that the threads share, and the rest of the world, with the kernel.
pub record Shared (W : Type 0) : Type 0 where
  pub monitor : SlotsMonitor
  pub empty : Option Cond
  pub full : Option Cond
  pub world : W

-- The system calls. A call that does not return, because the thread stays blocked or the kernel
-- panics, is `none`; while a thread waits in lock or yieldlock the other threads run, and change
-- what is shared.
pub record Calls (W : Type 0) : Type 0 where
  pub mutex_alloc : W → ℤ × W
  pub mutex_dealloc : ℤ → W → ℤ × W
  pub mutex_unlock : ℤ → W → Option (ℤ × W)
  pub mutex_lock : ℤ → Shared W → Option (ℤ × Shared W)
  pub mutex_yieldlock : ℤ → ℤ → Shared W → Option (ℤ × Shared W)

-- x < 0
abbrev pub is_negative : ℤ → Bool
is_negative (pos n) = false
is_negative (negsuc n) = true

-- x < -1
abbrev pub is_below_minus_one : ℤ → Bool
is_below_minus_one (pos n) = false
is_below_minus_one (negsuc zero) = false
is_below_minus_one (negsuc (suc n)) = true

-- x > 0, x++ and x-- on an `int`
abbrev pub is_positive : ℕ → Bool
is_positive x = ltb 0 x && ltb x (2 ^ 31)

abbrev pub incr : ℕ → ℕ
incr x = (x + 1) % 2 ^ 32

abbrev pub decr : ℕ → ℕ
decr x = (x + 2 ^ 32 - 1) % 2 ^ 32

-- One of the two condition variables.
pub data Side : Type 0 where
  on_empty : Side
  on_full : Side

module _ {W : Type 0} where
  abbrev pub cond_at : Side → Shared W → Option Cond
  cond_at on_empty s = s.empty
  cond_at on_full s = s.full

  abbrev pub put_cond : Side → Cond → Shared W → Shared W
  put_cond on_empty c s = record s { empty = some c }
  put_cond on_full c s = record s { full = some c }

  -- A change of the count of those that wait.
  abbrev pub recount : Side → (ℕ → ℕ) → Shared W → Shared W
  recount side f s = elim (cond_at side s) [
    | none ↦ s
    | some c ↦ put_cond side (record c { waiting = f c.waiting }) s
  ]

infixl 5 ◌>>=◌
abbrev pub ◌>>=◌ {ℓ κ} : {A : Type ℓ} {B : Type κ} → Option A → (A → Option B) → Option B
none >>= k = none
some a >>= k = k a
