-- ===== src/Proc/Tests.antt =====
-- proc.c and kthread.c on a table of two processes.
use os.Base.{
  ◌>>=◌, ℕ, ◌+◌, ◌≡◌, inl, inr, refl, true, false, Option, none, some, [], ◌∷◌, get_elem?, arith,
  pos, ok,
}
use os.Kalloc.Defs.{Kmem, kernbase, kalloc}
use os.Kalloc.Chain.{IsPage}
use os.Proc.Defs.{State, Ptr, Chan, at_thread, Trapframe, Thread, Proc, Ptable}
use os.Proc.Access.{state_at?}
use os.Proc.Sleep.{sleep_begin, killed_proc}
use os.Proc.Life.{System, first_proc, kthread_exit, enters_sched, kthread_join, sleeps}
use os.Proc.Rendezvous.{join_sleeps, exit_wakes_joiner}
use os.Vm.Space.{freevm}
use os.Proc.Exit.{wait, waited, buried}
use os.Proc.Reap.{wait_leaks}

abbrev frame : Trapframe
frame = record { eax = 0; eip = 0; esp = 0; eflags = 0 }

abbrev page : ℕ
page = kernbase + 0x300000

abbrev spare : ℕ
spare = kernbase + 0x301000

abbrev stack_at : ℕ → State → ℕ → Option Chan → Thread
stack_at k s pid c = record {
  kstack = some k;
  state = s;
  pid = pid;
  proc = some 0;
  tf = frame;
  context = none;
  chan = c;
}

abbrev exited : Ptr
exited = record { proc = 0; slot = 1 }

abbrev caller : Ptr
caller = record { proc = 0; slot = 0 }

abbrev free_thread : Thread
free_thread = record {
  kstack = none;
  state = State.unused;
  pid = 0;
  proc = none;
  tf = frame;
  context = none;
  chan = none;
}

-- Thread 11 sleeps to join thread 12; a third entry is free.
abbrev joining : State → Option Chan → State → Proc
joining s c s' = record {
  sz = 4096;
  pgdir = 0;
  state = State.runnable;
  pid = 10;
  parent = none;
  killed = false;
  name = [];
  threads = stack_at spare s 11 c ∷ stack_at page s' 12 none ∷ free_thread ∷ [];
  num_of_threads = 1;
}

abbrev free_proc : Proc
free_proc = record {
  sz = 0;
  pgdir = 0;
  state = State.unused;
  pid = 0;
  parent = none;
  killed = false;
  name = [];
  threads = free_thread ∷ free_thread ∷ [];
  num_of_threads = 0;
}

abbrev table : State → Option Chan → State → Ptable
table s c s' = record { procs = joining s c s' ∷ free_proc ∷ []; nextpid = 13; initproc = 0 }

abbrev memory : Kmem
memory = record { words = λ _. 0; freelist = spare; use_lock = true; end = kernbase + 0x200000 }

abbrev empty_memory : Kmem
empty_memory = record { words = λ _. 0; freelist = 0; use_lock = true; end = kernbase + 0x200000 }

page-IsPage : IsPage (kernbase + 0x200000) page
page-IsPage = record {
  aligned = refl;
  above = omega arith;
  kernel = omega arith;
  below = omega arith;
}

abbrev asleep : Ptable
asleep = table State.sleeping (some (at_thread exited)) State.running

abbrev ended : Ptable
ended = table State.running none State.zombie

abbrev running : Ptable
running = table State.running none State.running

abbrev asleep_killed : Ptable
asleep_killed = record asleep {
  procs =
      killed_proc (joining State.sleeping (some (at_thread exited)) State.running) ∷ free_proc ∷ [];
}

-- kthread_join(0) waits for the free entry.
join_sleeps_example :
    (k : ℕ) × (u : Thread) × (get_elem? (joining State.running none State.running).threads k
      ≡ some u)
    × (u.pid ≡ 0)
    × (kthread_join caller 0 (record { ptable = running; kmem = memory })
        ≡ ok (
          sleeps,
          record {
            ptable = sleep_begin caller (at_thread (record { proc = 0; slot = k })) running;
            kmem = memory;
          },
        ))
join_sleeps_example =
    join_sleeps caller 0 (record { ptable = running; kmem = memory }) 2
      {p = joining State.running none State.running} {t = free_thread} refl refl refl refl
      (inl (omega arith), (inl (omega arith), (inr (λ h. cc), tt)))

exit_wakes_joiner_example :
    ((kthread_exit exited asleep).0 ≡ enters_sched)
    × (state_at? (kthread_exit exited asleep).1 caller ≡ some State.runnable)
    × (state_at? (kthread_exit exited asleep).1 exited ≡ some State.zombie)
exit_wakes_joiner_example =
    exit_wakes_joiner exited caller asleep
      {t = stack_at spare State.sleeping 11 (some (at_thread exited))}
      {th = stack_at page State.running 12 none} refl (omega arith) refl refl refl refl

abbrev here : System
here = record { ptable = running; kmem = memory }

taken : kalloc memory ≡ (spare, empty_memory)
unfolding kalloc
taken = refl

free_found : first_proc running.procs ≡ some 1
unfolding first_proc
free_found = refl

-- A process in wait, and its child, which has ended with one thread on the stack `page`.
abbrev waiting : Proc
waiting = record {
  sz = 4096;
  pgdir = 0;
  state = State.runnable;
  pid = 10;
  parent = none;
  killed = false;
  name = [];
  threads = stack_at spare State.running 11 none ∷ free_thread ∷ [];
  num_of_threads = 1;
}

abbrev gone : Proc
gone = record {
  sz = 4096;
  pgdir = kernbase + 0x302000;
  state = State.zombie;
  pid = 20;
  parent = some 0;
  killed = true;
  name = b's' ∷ b'h' ∷ 0 ∷ [];
  threads = stack_at page State.zombie 21 none ∷ free_thread ∷ [];
  num_of_threads = 1;
}

abbrev family : System
family = record {
  ptable = record { procs = waiting ∷ gone ∷ []; nextpid = 22; initproc = 5 };
  kmem = memory;
}

wait_leaks_example : wait caller family ≡ (
    freevm (kernbase + 0x302000) memory >>= λ km. ok (
      waited (pos 20),
      record { ptable = record (family.ptable) { procs = waiting ∷ buried gone ∷ [] }; kmem = km },
    ))
wait_leaks_example =
    wait_leaks caller 1 family {me = waiting} {child = gone} refl (refl, (refl, tt)) refl refl refl
      ((λ c. absurd (ground (arith, c))), tt)
