-- ===== src/File/Tests.antt =====
-- file.c and sysfile.c on a table of three files.
use os.Base.{
  ℕ, zero, suc, ◌≡◌, refl, true, false, Option, none, some, List, [], ◌∷◌, total, ok, panic, pos,
  arith,
}
use os.Proc.Defs.{Ptable, at_nwrite}
use os.Kalloc.Defs.{Kmem, kalloc}
use os.Pipe.Defs.{fresh_pipe, pipeclose}
use os.Fs.Inode.{Fs}
use os.Proc.Sleep.{wakeup1}
use os.File.Defs.{closed, put_pipe, File, Io, fd_none, fd_pipe}
use os.File.Calls.{Files, dup_begin, dup_end, sys_dup, sys_close, sys_pipe}
use os.File.Table.{ref_at}
use os.File.Count.{held, Counted, sys_dup-Counted}
use os.File.Close.{Closes, sys_close-Closes}
use os.File.PipeCount.{sys_pipe-Counted}
use os.File.Race.{dup_closed}

-- The reading end of the pipe at 4096, with a number of references.
abbrev reader : ℕ → File
reader n = record {
  type = fd_pipe;
  ref = n;
  readable = true;
  writable = false;
  pipe = 4096;
  ip = 0;
  off = 0;
}

abbrev free_file : File
free_file = record (reader 0) { type = fd_none }

abbrev no_procs : Ptable
no_procs = record { procs = []; nextpid = 1; initproc = 0 }

abbrev no_memory : Kmem
no_memory = record { words = λ a. 0; freelist = 0; use_lock = true; end = 0 }

abbrev no_files : Fs
no_files = record {
  sb = record { size = 0; nblocks = 0; ninodes = 0; nlog = 0 };
  disk = λ b k. 0;
  icache = [];
}

abbrev io_of : List File → Io
io_of ft = record {
  ftable = ft;
  pipes = λ a. fresh_pipe [];
  fs = no_files;
  ptable = no_procs;
  kmem = no_memory;
}

-- One process that has the reading end twice, and one that has it once.
abbrev shared : Files
shared = record {
  ofiles = (none ∷ some 1 ∷ some 1 ∷ []) ∷ (some 1 ∷ none ∷ []) ∷ [];
  io = io_of (free_file ∷ reader 3 ∷ free_file ∷ []);
}

shared-Counted : Counted shared
unfolding total
shared-Counted zero = refl
shared-Counted (suc zero) = refl
shared-Counted (suc (suc zero)) = refl
shared-Counted (suc (suc (suc k))) = ground arith

sys_dup-Counted_example :
    (r : Option ℕ) × (s' : Files) × (sys_dup 0 (pos 2) shared ≡ ok (r, s')) × Counted s'
sys_dup-Counted_example = sys_dup-Counted 0 (pos 2) shared shared-Counted

sys_close-Closes_example : Closes 0 (pos 1) shared
sys_close-Closes_example = sys_close-Closes 0 (pos 1) shared shared-Counted

abbrev after_close : Files
after_close = record {
  ofiles = (none ∷ none ∷ some 1 ∷ []) ∷ (some 1 ∷ none ∷ []) ∷ [];
  io = io_of (free_file ∷ reader 2 ∷ free_file ∷ []);
}

close_run : sys_close 0 (pos 1) shared ≡ ok (true, after_close)
unfolding sys_close
close_run = refl

-- There is no page for a pipe.
pipe_run : sys_pipe 0 [] shared ≡ ok (none, shared)
unfolding sys_pipe kalloc
pipe_run = refl

sys_pipe-Counted_example : Counted shared
sys_pipe-Counted_example = sys_pipe-Counted 0 [] shared none shared shared-Counted pipe_run

abbrev single : Files
single = record { ofiles = (some 0 ∷ none ∷ []) ∷ []; io = io_of (reader 1 ∷ []) }

single-Counted : Counted single
unfolding total
single-Counted zero = refl
single-Counted (suc k) = ground arith

abbrev half_way : Files
half_way = record single { ofiles = (some 0 ∷ some 0 ∷ []) ∷ [] }

dup_run : dup_begin 0 (pos 0) single ≡ some (0, 1, half_way)
unfolding dup_begin
dup_run = refl

abbrev closed_pipe : Files
closed_pipe = record {
  ofiles = (some 0 ∷ none ∷ []) ∷ [];
  io = record (io_of (closed (reader 1) ∷ [])) {
    pipes = put_pipe 4096 (record (fresh_pipe []) { readopen = false }) (λ a. fresh_pipe []);
    ptable = wakeup1 (at_nwrite 4096) no_procs;
  };
}

single_once : held 0 single ≡ 1
unfolding total
single_once = refl

race_run : sys_close 0 (pos 1) half_way ≡ ok (true, closed_pipe)
unfolding sys_close pipeclose
race_run = refl

dup_closed_example :
    (held 0 closed_pipe ≡ 1)
    × (ref_at closed_pipe.io.ftable 0 ≡ 0)
    × (dup_end 0 1 closed_pipe ≡ panic "filedup")
dup_closed_example =
    dup_closed 0 0 1 (pos 0) single half_way closed_pipe true single-Counted single_once dup_run
      race_run
