-- ===== src/Pipe/Tests.antt =====
-- pipe.c on a few bytes.
use os.Base.{ℕ, ◌≤◌, ◌≡◌, refl, true, false, List, [], ◌∷◌, ◌++◌, some, none, replicate, arith}
use os.Proc.Defs.{State, Ptr, Thread, Trapframe, Ptable, at_nwrite}
use os.Pipe.Defs.{Pipe, pipesize, PipeSystem}
use os.Pipe.Ring.{count, IsValid, contents}
use os.Pipe.Stream.{Event, writes, reads, closes, run, opened, pipe_fifo}

abbrev frame : Trapframe
frame = record { eax = 0; eip = 0; esp = 0; eflags = 0 }

-- A writer that sleeps on the pipe at address 4096.
abbrev sleeper : Thread
sleeper = record {
  kstack = some 8192;
  state = State.sleeping;
  pid = 4;
  proc = some 0;
  tf = frame;
  context = none;
  chan = some (at_nwrite 4096);
}

abbrev table : Ptable
table = record {
  procs =
      record {
        sz = 0;
        pgdir = 0;
        state = State.runnable;
        pid = 3;
        parent = none;
        killed = false;
        name = [];
        threads = sleeper ∷ [];
        num_of_threads = 1;
      }
      ∷ [];
  nextpid = 5;
  initproc = 0;
}

abbrev reader : Ptr
reader = record { proc = 1; slot = 0 }

abbrev writer : Ptr
writer = record { proc = 0; slot = 0 }

abbrev buffer : List ℕ
buffer = replicate pipesize 0

-- A pipe whose counters are about to wrap around, with two bytes in it.
abbrev late : Pipe
late = record {
  buf = 9 ∷ replicate 510 0 ++ 8 ∷ [];
  nread = 0xffff_ffff;
  nwrite = 1;
  readopen = true;
  writeopen = true;
}

late-IsValid : IsValid late
late-IsValid = record {
  size = refl;
  nread_fits = omega arith;
  nwrite_fits = omega arith;
  room = omega arith;
}

late-contents : contents late ≡ 8 ∷ 9 ∷ []
late-contents = refl

abbrev story : List Event
story =
    writes writer false (1 ∷ 2 ∷ 3 ∷ [])
    ∷ reads reader false 2
    ∷ writes writer false (4 ∷ [])
    ∷ closes true
    ∷ reads reader false 9
    ∷ []

pipe_fifo_example :
    let s = run 4096 story (opened table buffer) in
    (s.received ++ contents s.system.pipe ≡ s.sent) × (count s.system.pipe ≤ pipesize)
pipe_fifo_example = pipe_fifo 4096 story table buffer refl

story_received : (run 4096 story (opened table buffer)).received ≡ 1 ∷ 2 ∷ 3 ∷ 4 ∷ []
unfolding run
story_received = refl

abbrev waiting_pipe : PipeSystem
waiting_pipe = record { pipe = late; ptable = table }
