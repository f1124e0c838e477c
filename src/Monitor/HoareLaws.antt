-- ===== src/Monitor/HoareLaws.antt =====
-- hoare_slots_monitor.c on the mutexes of kthread.c: taking a slot that is not there.
use os.Mutex.Defs.{Mutex, Kernel}
