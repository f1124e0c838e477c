-- ===== src/Proc/Defs.antt =====
-- proc.h and the globals of proc.c: `struct thread`, `struct proc`, `ptable`, `nextpid`.
use os.Base.{ℕ, ◌==◌, Bool, true, false, ◌&&◌, Option, List}

abbrev pub nproc : ℕ
nproc = 64

abbrev pub nthread : ℕ
nthread = 16

-- `enum state`
pub data State : Type 0 where
  unused embryo sleeping runnable running zombie blocked unblocked : State

abbrev pub is_state : State → State → Bool
is_state unused unused = true
is_state embryo embryo = true
is_state sleeping sleeping = true
is_state runnable runnable = true
is_state running running = true
is_state zombie zombie = true
is_state blocked blocked = true
is_state unblocked unblocked = true
is_state _ _ = false

-- A `struct thread *`: the process that holds the thread, and its index in `threads`.
pub record Ptr : Type 0 where
  pub proc : ℕ
  pub slot : ℕ

abbrev pub same_ptr : Ptr → Ptr → Bool
same_ptr a b = a.proc == b.proc && a.slot == b.slot

-- A `void *chan`: the object at whose address a thread sleeps.
pub data Chan : Type 0 where
  at_proc : ℕ → Chan
  at_thread : Ptr → Chan
  at_log : Chan
  at_buf : ℕ → Chan
  at_inode : ℕ → Chan
  at_nread : ℕ → Chan
  at_nwrite : ℕ → Chan

abbrev pub same_chan : Chan → Chan → Bool
same_chan (at_proc a) (at_proc b) = a == b
same_chan (at_thread a) (at_thread b) = same_ptr a b
same_chan at_log at_log = true
same_chan (at_buf a) (at_buf b) = a == b
same_chan (at_inode a) (at_inode b) = a == b
same_chan (at_nread a) (at_nread b) = a == b
same_chan (at_nwrite a) (at_nwrite b) = a == b
same_chan _ _ = false

-- The fields of `struct trapframe` that the kernel sets.
pub record Trapframe : Type 0 where
  pub eax : ℕ
  pub eip : ℕ
  pub esp : ℕ
  pub eflags : ℕ

-- Where a saved context resumes: in `forkret`, for a thread that has not run, or behind `swtch`.
pub data Resume : Type 0 where
  at_forkret at_swtch : Resume

-- `kstack`, `proc`, `context` and `chan` are `none` for a null pointer.
pub record Thread : Type 0 where
  pub kstack : Option ℕ
  pub state : State
  pub pid : ℕ
  pub proc : Option ℕ
  pub tf : Trapframe
  pub context : Option Resume
  pub chan : Option Chan

-- `chan`, `ofile` and `cwd` of a process are not represented.
pub record Proc : Type 0 where
  pub sz : ℕ
  pub pgdir : ℕ
  pub state : State
  pub pid : ℕ
  pub parent : Option ℕ
  pub killed : Bool
  pub name : List ℕ
  pub threads : List Thread
  pub num_of_threads : ℕ

-- `ptable`, `nextpid` and `initproc`
pub record Ptable : Type 0 where
  pub procs : List Proc
  pub nextpid : ℕ
  pub initproc : ℕ
