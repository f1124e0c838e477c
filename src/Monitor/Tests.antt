-- ===== src/Monitor/Tests.antt =====
-- The monitors on a table of three mutexes: one of the monitor, two of its condition variables.
use os.Base.{ℕ, ◌-◌, ◌≡◌, refl, Bool, true, false, [], ◌∷◌, none, some, replicate, arith, pos}
use os.Proc.Defs.{nthread, Ptr}
use os.Mutex.Defs.{used_mutex, Mutex, Kernel, zeroed, empty_queue}
use os.Monitor.Calls.{Shared}
use os.Monitor.Mesa.{mesa_slots_monitor_addslots, mesa_slots_monitor_takeslot}
use os.Monitor.Kernel.{kernel_calls, monitor_of, Idle}
use os.Monitor.MesaRun.{add_then_take}

abbrev me : Ptr
me = record { proc = 0; slot = 0 }

abbrev cell : ℕ → Bool → Mutex
cell i l = record {
  state = used_mutex;
  id = pos i;
  locked = l;
  threads_queue = replicate nthread none;
  first = 0;
  last = 0;
  queue_lock = some i;
}

abbrev three : Bool → Kernel
three l = record {
  mutexes = cell 0 l ∷ cell 1 false ∷ cell 2 false ∷ replicate 61 zeroed;
  ptable = record { procs = []; nextpid = 2; initproc = 0 };
}

idle0 : Idle (three false) 0 (cell 0 false)
unfolding empty_queue
idle0 = record { here = refl; used = refl; own = refl; nobody = refl; lock = (0, refl) }

idle1 : Idle (three false) 1 (cell 1 false)
unfolding empty_queue
idle1 = record { here = refl; used = refl; own = refl; nobody = refl; lock = (1, refl) }

idle2 : Idle (three false) 2 (cell 2 false)
unfolding empty_queue
idle2 = record { here = refl; used = refl; own = refl; nobody = refl; lock = (2, refl) }

add_then_take_example :
    (k2 : Kernel) × (s : Shared Kernel) × (mesa_slots_monitor_addslots
        (kernel_calls me)
        1
        5
        (monitor_of 0 1 2 0 true 0 0 (three false))
      ≡ some (pos 1, s))
    × (mesa_slots_monitor_takeslot (kernel_calls me) 1 s
        ≡ some (pos 1, monitor_of 0 1 2 (5 - 1) true 0 0 k2))
    × Idle k2 0 (record (cell 0 false) { locked = false })
add_then_take_example =
    add_then_take me (three false) 0 1 2 0 0 5 (cell 0 false) (cell 1 false) (cell 2 false) idle0
      idle1 idle2 (omega arith) (omega arith) refl refl refl refl refl refl
