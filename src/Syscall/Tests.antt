-- ===== src/Syscall/Tests.antt =====
-- syscall.c on the memory of a small process.
use os.Base.{ℕ, ◌+◌, ◌^◌, ◌<◌, ◌≤◌, ◌==◌, ◌≡◌, ◌↔◌, ◌⊎◌, refl, if◌then◌else◌, some, arith}
use os.Syscall.Defs.{User, fetchint, fetchstr, scan_nul, argint, argptr}
use os.Syscall.Args.{argptr_iff}

-- The second argument, at 28, is the pointer 4000; a string of three characters stands at 100.
abbrev process : User
process = record {
  bytes = λ a.
      if a == 28
      then 160
      else if a == 29
      then 15
      else if a == 30
      then 0
      else if a == 31
      then 0
      else if a == 103
      then 0
      else 1;
  sz = 4096;
  esp = 20;
}

abbrev pointer : ℕ
pointer = 4000

arg_run : argint 1 process ≡ some pointer
unfolding argint fetchint
arg_run = refl

string_run : fetchstr 100 process ≡ some 3
unfolding fetchstr scan_nul
string_run = refl

argptr_iff_example :
    (argptr 1 96 process ≡ some pointer)
    ↔ ((pointer < process.sz) × ((pointer + 96 ≤ process.sz) ⊎ (2 ^ 32 ≤ pointer + 96)))
argptr_iff_example =
    argptr_iff 1 96 pointer process (omega arith) (omega arith) (omega arith) arg_run
