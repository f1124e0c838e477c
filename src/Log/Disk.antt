-- ===== src/Log/Disk.antt =====
-- What log.c sees of bio.c: `bread` gives the newest contents of a sector and `bwrite` stores them
-- on the disk. The power may fail: the disk takes `budget` more writes and no write after them.
use os.Base.{ℕ, ◌-◌, ◌==◌, List, if◌then◌else◌}

-- The 128 words of a sector.
abbrev pub Block : Type 0
Block = List ℕ

-- `cached s` is the newest contents of sector `s`, `disk s` what the disk holds.
pub record Store : Type 0 where
  pub cached : ℕ → Block
  pub disk : ℕ → Block
  pub budget : ℕ

abbrev pub update : (ℕ → Block) → ℕ → Block → ℕ → Block
update f s b t = if s == t then b else f t

abbrev pub bread : ℕ → Store → Block
bread s st = st.cached s

-- A sector modified in the cache and pinned there.
abbrev pub modified : ℕ → Block → Store → Store
modified s b st = record st { cached = update st.cached s b }

unfoldable pub bwrite : ℕ → Block → Store → Store
bwrite s b st = if st.budget == 0 then record st { cached = update st.cached s b } else (record st {
  cached = update st.cached s b;
  disk = update st.disk s b;
  budget = st.budget - 1;
})

-- The machine after a restart: only the disk is left, and the power holds for `budget` writes.
abbrev pub restart : ℕ → Store → Store
restart budget st = record { cached = st.disk; disk = st.disk; budget = budget }
