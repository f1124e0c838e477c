-- ===== src/Pipe/Wakeups.antt =====
-- pipe.c: a thread that sleeps on a pipe is woken by the other side.
use os.Base.{ℕ, ◌≡◌, Bool, List, some, arith}
use os.Proc.Defs.{State, Ptr, Thread, Ptable, at_nwrite}
use os.Proc.Access.{thread_at?, state_at?}
use os.Proc.SleepLaws.{thread_at?-wakeup1}
use os.Pipe.Defs.{got, PipeSystem, piperead}

-- The thread `t` sleeps on the channel `c`.
abbrev pub SleepsOn : Ptable → Ptr → Thread → Type 0
SleepsOn pt t th = (thread_at? pt t ≡ some th) × (th.state ≡ State.sleeping)

-- A section of piperead that hands over bytes, or the end of the stream, makes every writer that
-- sleeps on the pipe runnable.
piperead-wakes :
    (thread t : Ptr) (killed : Bool) (addr n : ℕ) (s : PipeSystem) {th : Thread} {xs : List ℕ}
    → SleepsOn s.ptable t th
    → th.chan ≡ some (at_nwrite addr)
    → (piperead thread killed addr n s).0 ≡ got xs
    → state_at? (piperead thread killed addr n s).1.ptable t ≡ some State.runnable
unfolding piperead state_at?
piperead-wakes thread t killed addr n s {th} (here, asleep) on done =
    ground (arith, thread_at?-wakeup1 (at_nwrite addr) s.ptable t)
