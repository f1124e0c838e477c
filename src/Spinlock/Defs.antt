-- ===== src/Spinlock/Defs.antt =====
-- spinlock.c, on one processor at a time. The recorded call stack is not represented.
use os.Base.{
  ℕ, ◌+◌, ◌-◌, ◌==◌, Bool, true, false, not, ◌&&◌, if◌then◌else◌, Option, none, some, Result, ok,
  panic, ◌>>=◌,
}

-- The interrupt flag of a processor, and the fields of `struct cpu` that pushcli uses. A count
-- below 0 is a panic, so the count is a natural number.
pub record Cpu : Type 0 where
  pub interrupts : Bool
  pub ncli : ℕ
  pub intena : Bool

-- `struct spinlock`: whether it is held, and by which processor.
pub record Spinlock : Type 0 where
  pub locked : Bool
  pub cpu : Option ℕ

unfoldable pub holding : ℕ → Spinlock → Bool
holding c lk = lk.locked && elim lk.cpu [ none ↦ false | some d ↦ d == c ]

unfoldable pub pushcli : Cpu → Cpu
pushcli p = record {
  interrupts = false;
  ncli = p.ncli + 1;
  intena = if p.ncli == 0 then p.interrupts else p.intena;
}

unfoldable pub popcli : Cpu → Result Cpu
popcli p =
    if p.interrupts
    then panic "popcli - interruptible"
    else if p.ncli == 0
    then panic "popcli"
    else ok (record p { ncli = p.ncli - 1; interrupts = p.ncli - 1 == 0 && p.intena })

-- acquire up to one xchg: the lock is taken, or the processor spins with interrupts off.
pub data Attempt : Type 0 where
  taken : Spinlock → Attempt
  spins : Attempt

unfoldable pub acquire : ℕ → Cpu → Spinlock → Result (Attempt × Cpu)
unfolding holding pushcli
acquire c p lk =
    if holding c lk
    then panic "acquire"
    else if lk.locked
    then ok (spins, pushcli p)
    else ok (taken (record { locked = true; cpu = some c }), pushcli p)

unfoldable pub release : ℕ → Cpu → Spinlock → Result (Spinlock × Cpu)
unfolding holding popcli
release c p lk =
    if not (holding c lk)
    then panic "release"
    else (popcli p >>= λ p'. ok (record { locked = false; cpu = none }, p'))
