-- ===== src/Log/Tests.antt =====
-- log.c on small disks.
use os.Base.{ℕ, zero, suc, ◌==◌, ◌<◌, ◌≡◌, ◌⊎◌, refl, false, [], ◌∷◌, if◌then◌else◌, arith}
use os.Log.Disk.{Block, Store, restart}
use os.Log.Defs.{Log, commit_all, recover_from_log}
use os.Log.Install.{elem}
use os.Log.Space.{Ops}
use os.Log.Crash.{Ready, recoveries, home, crash_atomic}

-- Two home sectors, 0 and 1, and a log whose header is sector 2; sector 1 is to become 77.
abbrev old_disk : ℕ → Block
old_disk s = if s == 0 then 5 ∷ [] else if s == 1 then 6 ∷ [] else 0 ∷ 0 ∷ 0 ∷ []

abbrev new_cache : ℕ → Block
new_cache s = if s == 1 then 77 ∷ [] else old_disk s

abbrev before : ℕ → Store
before budget = record { cached = new_cache; disk = old_disk; budget = budget }

clean_before : (t : ℕ) → t < 2 → elem t (1 ∷ []) ≡ false → old_disk t ≡ new_cache t
clean_before zero h e = refl
clean_before (suc zero) h e = absurd (ground arith)
clean_before (suc (suc t)) h e = absurd (omega arith)

Ready-before : (budget : ℕ) → Ready 2 (1 ∷ []) (before budget)
Ready-before budget = record {
  front = (omega arith, tt);
  empty = refl;
  wide = omega arith;
  clean = clean_before;
}

-- The power fails in the middle of the installation: the recovery finishes it.
recovered_new : (recover_from_log 2 (restart 9 (commit_all 2 (1 ∷ []) (before 2)))).disk 1 ≡ 77 ∷ []
unfolding recover_from_log commit_all
recovered_new = refl

-- The power fails before the header is written: nothing has happened.
recovered_old : (recover_from_log 2 (restart 9 (commit_all 2 (1 ∷ []) (before 1)))).disk 1 ≡ 6 ∷ []
unfolding recover_from_log commit_all
recovered_old = refl

crash_atomic_example :
    let final =
      recover_from_log 2 (restart 9 (recoveries 2 (1 ∷ []) (commit_all 2 (1 ∷ []) (before 2)))) in
    (home 2 final.disk ≡ home 2 old_disk) ⊎ (home 2 final.disk ≡ home 2 new_cache)
crash_atomic_example = crash_atomic 2 (1 ∷ []) (before 2) (Ready-before 2) (1 ∷ []) 9 (omega arith)

-- A log of thirty sectors, as mkfs makes it, with one operation open.
abbrev one_open : Ops
one_open = record {
  log = record { start = 900; size = 30; outstanding = 1; committing = false; sectors = [] };
  used = 0 ∷ [];
}

abbrev logged : Log
logged = record {
  start = 900;
  size = 31;
  outstanding = 1;
  committing = false;
  sectors = 4 ∷ 7 ∷ [];
}
