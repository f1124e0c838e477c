-- ===== src/Proc/Life.antt =====
-- The life of processes and threads on the process table: allocproc, exit and fork's part of it
-- from proc.c, kthread_create, kthread_exit and kthread_join from kthread.c.
use os.Base.{
  ℕ, ◌+◌, ◌==◌, Bool, Option, none, some, List, [], ◌∷◌, get_elem?, modify, if◌then◌else◌, ℤ, pos,
  minus_one, Result, ok, ◌>>=◌, deref,
}
use os.Kalloc.Defs.{Kmem, kalloc, kfree}
use os.Proc.Defs.{State, is_state, Ptr, at_thread, at_forkret, Trapframe, Thread, Proc, Ptable}
use os.Proc.Access.{thread_at?, modify_thread, set_state}
use os.Proc.Sleep.{wakeup1, proc_is_alive, sleep_begin}

-- The process table and the page allocator.
pub record System : Type 0 where
  pub ptable : Ptable
  pub kmem : Kmem

-- The index of the first entry that is UNUSED.
unfoldable pub first_proc : List Proc → Option ℕ
first_proc [] = none
first_proc (p ∷ ps) =
    let rest = first_proc ps in
    if is_state p.state State.unused
    then some 0
    else (elim rest [ none ↦ none | some i ↦ some (i + 1) ])

unfoldable pub first_thread : List Thread → Option ℕ
first_thread [] = none
first_thread (t ∷ ts) =
    let rest = first_thread ts in
    if is_state t.state State.unused
    then some 0
    else (elim rest [ none ↦ none | some i ↦ some (i + 1) ])

-- allocproc under the lock: entry `i` and its first thread become EMBRYO, with two new pids.
abbrev pub claimed : ℕ → ℕ → Proc → Proc
claimed i pid p = record p {
  state = State.embryo;
  num_of_threads = 0;
  pid = pid;
  threads =
      modify p.threads 0 (λ t. record t { state = State.embryo; proc = some i; pid = pid + 1 });
}

-- No page for the kernel stack: both are given back.
abbrev pub unclaimed : Proc → Proc
unclaimed p = record p {
  state = State.unused;
  threads = modify p.threads 0 (λ t. record t { kstack = none; state = State.unused });
}

-- The stack holds a trap frame and a context that resumes in forkret.
abbrev pub stacked : ℕ → Proc → Proc
stacked page p = record p {
  threads = modify p.threads 0 (λ t. record t { kstack = some page; context = some at_forkret });
}

unfoldable pub allocproc : System → Option ℕ × System
unfolding first_proc
allocproc s = elim (first_proc s.ptable.procs) [
  | none ↦ (none, s)
  | some i ↦
      let pt : Ptable = record (s.ptable) {
        procs = modify s.ptable.procs i (claimed i s.ptable.nextpid);
        nextpid = s.ptable.nextpid + 2;
      } in
      let (page, km) = kalloc s.kmem in
      if page == 0
      then (none, record { ptable = record pt { procs = modify pt.procs i unclaimed }; kmem = km })
      else (
        some i,
        record { ptable = record pt { procs = modify pt.procs i (stacked page) }; kmem = km },
      )
]

-- kthread_create: a free thread of the caller's process, on a new stack, starting in `start` with
-- the stack pointer at the end of the user stack; `fl_if` is FL_IF.
abbrev pub fl_if : ℕ
fl_if = 0x200

abbrev pub created : ℕ → ℕ → ℕ → ℕ → Trapframe → Ptr → Thread → Thread
created pid page start top tf caller t = record t {
  pid = pid;
  kstack = some page;
  context = some at_forkret;
  tf = record tf { eip = start; esp = top; eflags = fl_if };
  proc = some caller.proc;
  state = State.runnable;
}

abbrev pub not_created : ℕ → Thread → Thread
not_created pid t = record t { pid = pid; kstack = none; state = State.unused }

-- What becomes of thread `i` once a page has been asked for.
abbrev pub create_at : Ptr → Trapframe → ℕ → ℕ → ℕ → Ptable → ℕ × Kmem → ℤ × System
create_at caller tf start top i pt (page, km) =
    let at : Ptr = record { proc = caller.proc; slot = i } in
    let next : Ptable = record pt { nextpid = pt.nextpid + 1 } in
    if page == 0
    then (minus_one, record { ptable = modify_thread at (not_created pt.nextpid) next; kmem = km })
    else (
      pos pt.nextpid,
      record {
        ptable = modify_thread at (created pt.nextpid page start top tf caller) next;
        kmem = km;
      },
    )

-- `stack + stack_size` is a sum of 32-bit words that the caller has taken.
unfoldable pub kthread_create : Ptr → ℕ → ℕ → System → Result (ℤ × System)
unfolding modify_thread first_thread
kthread_create caller start top s = do
  me ← deref (thread_at? s.ptable caller)
  p ← deref (get_elem? s.ptable.procs caller.proc)
  ok (elim (first_thread p.threads) [
    | none ↦ (minus_one, s)
    | some i ↦ create_at caller me.tf start top i s.ptable (kalloc s.kmem)
  ])

-- kthread_exit: either the caller was the last thread alive, and goes on in `exit`, or those that
-- join it are woken and it enters the scheduler for good.
pub data Leave : Type 0 where
  calls_exit enters_sched : Leave

unfoldable pub kthread_exit : Ptr → Ptable → Leave × Ptable
unfolding set_state proc_is_alive wakeup1
kthread_exit thread pt =
    let pt1 = set_state thread State.zombie pt in
    if proc_is_alive thread pt1
    then (enters_sched, wakeup1 (at_thread thread) pt1)
    else (calls_exit, pt1)

-- One scan of kthread_join: a zombie with the id, the last thread with the id, or none.
pub data Scan : Type 0 where
  reap : ℕ → Scan
  wait_for : ℕ → Scan
  missing : Scan

unfoldable pub join_scan : ℕ → ℕ → List Thread → Scan → Scan
join_scan thread_id i [] last = last
join_scan thread_id i (t ∷ ts) last =
    let other = join_scan thread_id (i + 1) ts last in
    let later = join_scan thread_id (i + 1) ts (wait_for i) in
    if t.pid == thread_id then (if is_state t.state State.zombie then reap i else later) else other

abbrev pub reaped : Thread → Thread
reaped t = record t { chan = none; context = none; pid = 0; proc = none; state = State.unused }

abbrev pub free_stack : Option ℕ → Kmem → Result Kmem
free_stack none km = ok km
free_stack (some page) km = kfree page km

-- How a round of the loop of kthread_join ends: with a result, or asleep.
pub data Join : Type 0 where
  joined : ℤ → Join
  sleeps : Join

abbrev pub join_round : Ptr → Bool → System → Scan → Result (Join × System)
join_round caller killed s (reap i) =
    let at : Ptr = record { proc = caller.proc; slot = i } in
    deref (thread_at? s.ptable at) >>= λ t. free_stack t.kstack s.kmem >>= λ km.
    ok (joined (pos 0), record { ptable = modify_thread at reaped s.ptable; kmem = km })
join_round caller killed s missing = ok (joined minus_one, s)
join_round caller killed s (wait_for i) =
    let at : Ptr = record { proc = caller.proc; slot = i } in
    if killed
    then ok (joined minus_one, s)
    else ok (sleeps, record s { ptable = sleep_begin caller (at_thread at) s.ptable })

unfoldable pub kthread_join : Ptr → ℕ → System → Result (Join × System)
unfolding modify_thread join_scan sleep_begin
kthread_join caller thread_id s = do
  p ← deref (get_elem? s.ptable.procs caller.proc)
  join_round caller p.killed s (join_scan thread_id 0 p.threads missing)
