-- ===== src/Spinlock/Tests.antt =====
-- spinlock.c on two processors.
use os.Base.{◌≡◌, refl, true, false, none, ok, panic, arith}
use os.Spinlock.Defs.{Cpu, Spinlock, pushcli, popcli, taken, spins, acquire, release}
use os.Spinlock.Nesting.{acquire_excludes}

-- A processor outside every critical section.
abbrev idle : Cpu
idle = record { interrupts = true; ncli = 0; intena = false }

abbrev open_lock : Spinlock
open_lock = record { locked = false; cpu = none }

-- One popcli too many.
unmatched : popcli (record idle { interrupts = false }) ≡ panic "popcli"
unfolding popcli
unmatched = refl

acquire_excludes_example :
    (lk' : Spinlock) × (p' : Cpu) × (acquire 0 idle open_lock ≡ ok (taken lk', p'))
    × (p'.interrupts ≡ false)
    × (acquire 1 idle lk' ≡ ok (spins, pushcli idle))
    × (release 1 idle lk' ≡ panic "release")
    × (acquire 0 p' lk' ≡ panic "acquire")
    × (release 0 p' lk' ≡ ok (open_lock, record idle { intena = true }))
acquire_excludes_example =
    acquire_excludes 0 1 idle idle open_lock (λ e. omega (arith, e)) refl refl
