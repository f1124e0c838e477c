-- ===== src/Log/Space.antt =====
-- log.c: begin_op admits only as many operations as the log has room for.
use os.Base.{
  ℕ, zero, suc, ◌+◌, ◌-◌, ◌*◌, ◌==◌, ◌||◌, ◌<◌, ◌≤◌, ◌≡◌, refl, ap, ◌∙◌, Bool, true, false,
  Bool-cases, List-cases, inl, inr, List, [], ◌∷◌, some, length, get_elem?, set, get_elem?-some_lt,
  if◌then◌else◌, arith, ok,
}
use os.Log.Disk.{Store}
use os.Log.Defs.{
  Log, lh_n, log_size, max_op_blocks, admitted, begin_op, Ending, end_op, absorb, log_write, commit,
  finish_op,
}
use os.Log.Install.{elem}

abbrev pub Distinct : List ℕ → Type 0
Distinct [] = Unit
Distinct (s ∷ ss) = (elem s ss ≡ false) × Distinct ss

pub elem-absorb : (s t : ℕ) (ss : List ℕ) → elem t (absorb s ss) ≡ (s == t || elem t ss)
unfolding absorb
elem-absorb s t [] = ground arith
elem-absorb s t (x ∷ ss) = ground (arith, elem-absorb s t ss)

pub length-absorb_le : (s : ℕ) (ss : List ℕ) → length (absorb s ss) ≤ length ss + 1
unfolding absorb
length-absorb_le s [] = omega arith
length-absorb_le s (x ∷ ss) = ground (arith, length-absorb_le s ss)

pub absorb-Distinct : (s : ℕ) (ss : List ℕ) → Distinct ss → Distinct (absorb s ss)
unfolding absorb
absorb-Distinct s [] d = (refl, tt)
absorb-Distinct s (x ∷ ss) d = elim (Bool-cases (x == s)) [
  | inl this ↦ let e : x ≡ s = ground arith in rw this (rw e at d.0, d.1)
  | inr other ↦ rw other (ground (arith, elem-absorb s x ss, d.0), absorb-Distinct s ss d.1)
]

length-absorb :
    (s : ℕ) (ss : List ℕ) → length (absorb s ss) ≡ (if elem s ss then length ss else length ss + 1)
unfolding absorb
length-absorb s [] = ground arith
length-absorb s (x ∷ ss) = ground (arith, length-absorb s ss)

-- log_write records the sector in the log once: whatever was recorded stays recorded, the sector
-- is recorded, no sector is there twice, and one that was there already costs no space.
log_write-absorbs :
    (s : ℕ) (l l' : Log)
    → Distinct l.sectors
    → log_write s l ≡ ok l'
    → Distinct l'.sectors
      × ((t : ℕ) → elem t l'.sectors ≡ (s == t || elem t l.sectors))
      × (lh_n l' ≡ (if elem s l.sectors then lh_n l else lh_n l + 1))
unfolding log_write
log_write-absorbs s l l' d h = (
  rw out (absorb-Distinct s l.sectors d),
  λ t. rw out (elem-absorb s t l.sectors),
  rw out (length-absorb s l.sectors),
)
  where
    out : l'.sectors ≡ absorb s l.sectors
    out = ground arith

-- The log with the number of blocks that each admitted operation has written so far.
pub record Ops : Type 0 where
  pub log : Log
  pub used : List ℕ

-- The blocks that the operations may still write.
abbrev pub reserve : List ℕ → ℕ
reserve [] = 0
reserve (u ∷ us) = max_op_blocks - u + reserve us

abbrev pub remove : List ℕ → ℕ → List ℕ
remove [] i = []
remove (u ∷ us) zero = us
remove (u ∷ us) (suc i) = u ∷ remove us i

-- The steps that the file system's calls take, in any order. An operation writes at most
-- `max_op_blocks` blocks between its begin_op and its end_op.
pub data Step (o : Ops) : Ops → Type 0 where
  begins :
      {l : Log} → begin_op o.log ≡ (admitted, l) → Step o (record { log = l; used = 0 ∷ o.used })
  writes :
      (i s : ℕ) {u : ℕ} {l : Log}
      → get_elem? o.used i ≡ some u
      → u < max_op_blocks
      → log_write s o.log ≡ ok l
      → Step o (record { log = l; used = set o.used i (u + 1) })
  ends :
      (i : ℕ) {u : ℕ} {e : Ending} {l : Log}
      → get_elem? o.used i ≡ some u
      → end_op o.log ≡ ok (e, l)
      → Step o (record { log = l; used = remove o.used i })
  commits :
      (st : Store) → o.log.committing ≡ true → Step o (record o { log = (finish_op o.log st).0 })

-- While a commit runs, no operation is open.
abbrev pub Alone : Bool → List ℕ → Type 0
Alone true us = us ≡ []
Alone false us = Unit

pub record HasRoom (nlog : ℕ) (o : Ops) : Type 0 where
  pub sized : o.log.size ≡ nlog
  pub counted : o.log.outstanding ≡ length o.used
  pub room : lh_n o.log + reserve o.used ≤ log_size
  pub alone : Alone o.log.committing o.used

reserve-set :
    (us : List ℕ) (i : ℕ) {u : ℕ}
    → get_elem? us i ≡ some u
    → u < max_op_blocks
    → (reserve (set us i (u + 1)) + 1 ≡ reserve us) × (length (set us i (u + 1)) ≡ length us)
reserve-set [] i h lt = cc
reserve-set (x ∷ us) zero {u} h lt = let e : x ≡ u = ground arith in omega arith
reserve-set (x ∷ us) (suc i) h lt = omega (arith, reserve-set us i h lt)

remove_lem :
    (us : List ℕ) (i : ℕ) {u : ℕ}
    → get_elem? us i ≡ some u
    → (reserve (remove us i) ≤ reserve us) × (length (remove us i) + 1 ≡ length us)
remove_lem [] i h = cc
remove_lem (x ∷ us) zero h = omega arith
remove_lem (x ∷ us) (suc i) h = omega (arith, remove_lem us i h)

remove_one : (us : List ℕ) (i : ℕ) → length us ≡ 1 → i < length us → remove us i ≡ []
remove_one [] i h lt = absurd (omega arith)
remove_one (x ∷ []) zero h lt = refl
remove_one (x ∷ y ∷ us) zero h lt = absurd (omega arith)
remove_one (x ∷ us) (suc i) h lt = absurd (omega arith)

begin_op_lem :
    (l : Log) {l' : Log}
    → begin_op l ≡ (admitted, l')
    → (l.committing ≡ false)
      × (lh_n l + (l.outstanding + 1) * max_op_blocks ≤ log_size)
      × (l' ≡ record l { outstanding = l.outstanding + 1 })
unfolding begin_op
begin_op_lem l e = ground arith

log_write_lem :
    (s : ℕ) (l : Log) {l' : Log}
    → log_write s l ≡ ok l'
    → l' ≡ record l { sectors = absorb s l.sectors }
unfolding log_write
log_write_lem s l e = ground arith

end_op_lem :
    (l : Log) {e : Ending} {l' : Log}
    → end_op l ≡ ok (e, l')
    → (l'.outstanding ≡ l.outstanding - 1)
      × (l'.sectors ≡ l.sectors)
      × (l'.committing ≡ (l.outstanding == 1))
      × (l'.size ≡ l.size)
unfolding end_op
end_op_lem l e = ground arith

Alone-set : (b : Bool) (us : List ℕ) (i v : ℕ) → Alone b us → Alone b (set us i v)
Alone-set true us i v h = rw h refl
Alone-set false us i v h = tt

Alone-remove : (us : List ℕ) (i : ℕ) → i < length us → Alone (length us == 1) (remove us i)
Alone-remove us i lt = elim (Bool-cases (length us == 1)) [
  | inl e ↦ rw e (remove_one us i (ground arith) lt)
  | inr e ↦ rw e tt
]

commit_lem :
    (l : Log) (st : Store)
    → ((commit l st).0.outstanding ≡ l.outstanding)
      × ((commit l st).0.sectors ≡ [])
      × ((commit l st).0.size ≡ l.size)
unfolding commit
commit_lem l st = elim (List-cases l.sectors) [
  | inl e ↦ ground (arith, e)
  | inr (x, r, e) ↦ ground (arith, e)
]

finish_op_lem :
    (l : Log) (st : Store)
    → ((finish_op l st).0.outstanding ≡ l.outstanding)
      × (((finish_op l st).0.sectors ≡ []) × ((finish_op l st).0.committing ≡ false))
      × ((finish_op l st).0.size ≡ l.size)
unfolding finish_op
finish_op_lem l st = let (n, s, same) = commit_lem l st in (n, (s, refl), same)

reserve_le : (us : List ℕ) → reserve us ≤ max_op_blocks * length us
reserve_le [] = omega arith
reserve_le (u ∷ us) = omega (arith, reserve_le us)

pub Step-HasRoom : {nlog : ℕ} {o o' : Ops} → Step o o' → HasRoom nlog o → HasRoom nlog o'
Step-HasRoom {o} (begins e) h =
    let (c, fits, out) = begin_op_lem o.log e in
    rw out (record {
      sized = h.sized;
      counted = omega (arith, h.counted);
      room = omega (arith, h.counted, reserve_le o.used);
      alone = rw c tt;
    })
Step-HasRoom {o} (writes i s {u} at lt e) h =
    let out = log_write_lem s o.log e in
    rw out (record {
      sized = h.sized;
      counted = omega (arith, h.counted, reserve-set o.used i at lt);
      room = omega (arith, h.room, reserve-set o.used i at lt, length-absorb_le s o.log.sectors);
      alone = Alone-set o.log.committing o.used i (u + 1) h.alone;
    })
Step-HasRoom {o} (ends i at e) h =
    let (n, ss, c, same) = end_op_lem o.log e in
    record {
      sized = same ∙ h.sized;
      counted = omega (arith, n, h.counted, remove_lem o.used i at);
      room = omega (arith, ap length ss, h.room, remove_lem o.used i at);
      alone = rw (c, h.counted) (Alone-remove o.used i (get_elem?-some_lt o.used i at));
    }
Step-HasRoom {o} (commits st c) h =
    let (n, ss, same) = finish_op_lem o.log st in
    let (out, none_open) = ss in
    record {
      sized = same ∙ h.sized;
      counted = n ∙ h.counted;
      room = omega (arith, h.room, ap length out);
      alone = rw none_open tt;
    }

-- The log when it has just been read, with `nlog` sectors on the disk.
abbrev pub booted : ℕ → ℕ → Ops
booted start nlog = record {
  log = record { start = start; size = nlog; outstanding = 0; committing = false; sectors = [] };
  used = [];
}

pub data Reach (start nlog : ℕ) : Ops → Type 0 where
  boots : Reach start nlog (booted start nlog)
  later : {o o' : Ops} → Reach start nlog o → Step o o' → Reach start nlog o'
