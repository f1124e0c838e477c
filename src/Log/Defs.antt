-- ===== src/Log/Defs.antt =====
-- log.c: the state of the log and its functions.
use os.Base.{
  ℕ, ◌+◌, ◌-◌, ◌*◌, ◌==◌, ltb, leb, Bool, true, false, ◌||◌, List, [], ◌∷◌, length, take,
  if◌then◌else◌, Result, ok, panic,
}
use os.Log.Disk.{Block, Store, bread, bwrite}

abbrev pub max_op_blocks : ℕ
max_op_blocks = 10

abbrev pub log_size : ℕ
log_size = max_op_blocks * 3

-- `struct log`; `sectors` is the part of `lh.sector` below `lh.n`, so `lh.n` is its length.
pub record Log : Type 0 where
  pub start : ℕ
  pub size : ℕ
  pub outstanding : ℕ
  pub committing : Bool
  pub sectors : List ℕ

abbrev pub lh_n : Log → ℕ
lh_n l = length l.sectors

-- One test of the loop of begin_op: the thread sleeps, or the operation is admitted.
pub data Admission : Type 0 where
  waits admitted : Admission

unfoldable pub begin_op : Log → Admission × Log
begin_op l =
    if l.committing
    then (waits, l)
    else if ltb log_size (lh_n l + (l.outstanding + 1) * max_op_blocks)
    then (waits, l)
    else (admitted, record l { outstanding = l.outstanding + 1 })

-- What is left to do when end_op has given its lock back.
pub data Ending : Type 0 where
  must_commit wakes_waiters : Ending

-- `outstanding` is an `int` that is at least 1 when end_op is called; the count -1 of a call
-- without its begin_op is not represented.
unfoldable pub end_op : Log → Result (Ending × Log)
end_op l =
    let l' : Log = record l { outstanding = l.outstanding - 1 } in
    if l.committing
    then panic "log.committing"
    else if l.outstanding == 1
    then ok (must_commit, record l' { committing = true })
    else ok (wakes_waiters, l')

-- The search of log_write: the sector keeps its place if it is in the log already.
unfoldable pub absorb : ℕ → List ℕ → List ℕ
absorb s [] = s ∷ []
absorb s (t ∷ ts) = let rest = absorb s ts in if t == s then s ∷ ts else t ∷ rest

unfoldable pub log_write : ℕ → Log → Result Log
unfolding absorb
log_write s l =
    if leb log_size (lh_n l) || leb (l.size - 1) (lh_n l)
    then panic "too big a transaction"
    else if ltb l.outstanding 1
    then panic "log_write outside of trans"
    else ok (record l { sectors = absorb s l.sectors })

-- The header block: word 0 is `n`, word `i + 1` is `sector[i]`. write_head keeps the other words.
abbrev pub put_words : List ℕ → Block → Block
put_words [] b = b
put_words (w ∷ ws) [] = []
put_words (w ∷ ws) (x ∷ b) = w ∷ put_words ws b

abbrev pub header_of : List ℕ → Block → Block
header_of sectors b = put_words (length sectors ∷ sectors) b

abbrev pub sectors_of : Block → List ℕ
sectors_of [] = []
sectors_of (n ∷ b) = take n b

-- install_trans from the log block behind `at` on.
unfoldable pub install : ℕ → List ℕ → Store → Store
unfolding bwrite
install at [] st = st
install at (s ∷ ss) st = install (at + 1) ss (bwrite s (bread (at + 1) st) st)

-- write_log from the log block behind `at` on.
unfoldable pub write_log : ℕ → List ℕ → Store → Store
unfolding bwrite
write_log at [] st = st
write_log at (s ∷ ss) st = write_log (at + 1) ss (bwrite (at + 1) (bread s st) st)

unfoldable pub write_head : ℕ → List ℕ → Store → Store
unfolding bwrite
write_head start sectors st = bwrite start (header_of sectors (bread start st)) st

unfoldable pub read_head : ℕ → Store → List ℕ
read_head start st = sectors_of (bread start st)

-- commit, when `lh.n` is not 0
unfoldable pub commit_all : ℕ → List ℕ → Store → Store
unfolding write_log write_head install
commit_all start sectors st =
    write_head start []
      (install start sectors (write_head start sectors (write_log start sectors st)))

unfoldable pub commit : Log → Store → Log × Store
unfolding commit_all
commit l st =
    if lh_n l == 0 then (l, st) else (record l { sectors = [] }, commit_all l.start l.sectors st)

-- end_op behind the first critical section, when it has to commit.
unfoldable pub finish_op : Log → Store → Log × Store
unfolding commit
finish_op l st = let (l', st') = commit l st in (record l' { committing = false }, st')

unfoldable pub recover_from_log : ℕ → Store → Store
unfolding read_head install write_head
recover_from_log start st = write_head start [] (install start (read_head start st) st)

-- initlog on a superblock of `size` sectors with `nlog` log sectors; `sizeof(struct logheader)`
-- is 124, below BSIZE.
unfoldable pub initlog : ℕ → ℕ → Store → Log × Store
unfolding recover_from_log
initlog size nlog st = (
  record { start = size - nlog; size = nlog; outstanding = 0; committing = false; sectors = [] },
  recover_from_log (size - nlog) st,
)
