-- ===== src/Log/Install.antt =====
-- log.c: what the loops of write_log and install_trans do to the disk, also when the power fails
-- in the middle. `f` gives the contents that the transaction is to leave.
use os.Base.{
  ℕ, ◌+◌, ◌-◌, ◌==◌, ◌<◌, ◌≤◌, ◌≡◌, refl, ◌∙◌, Bool, true, false, ◌||◌, Bool-cases, inl, inr, List,
  [], ◌∷◌, length, All, if◌then◌else◌, arith,
}
use os.Log.Disk.{Block, Store, bread, bwrite}
use os.Log.Defs.{install, write_log}

-- Whether a sector is in the list.
abbrev pub elem : ℕ → List ℕ → Bool
elem t [] = false
elem t (s ∷ ss) = s == t || elem t ss

-- The log blocks behind `at` hold what `f` says of the sectors, one after the other.
abbrev pub Logged : ℕ → List ℕ → (ℕ → Block) → (ℕ → Block) → Type 0
Logged at [] log f = Unit
Logged at (s ∷ ss) log f = (log (at + 1) ≡ f s) × Logged (at + 1) ss log f

-- The home sectors lie in front of the log.
abbrev pub InFront : ℕ → List ℕ → Type 0
InFront start ss = All (λ s. s < start) ss

pub bwrite-disk :
    (s t : ℕ) (b : Block) (st : Store)
    → (bwrite s b st).disk t
      ≡ (if st.budget == 0 then st.disk t else if s == t then b else st.disk t)
unfolding bwrite
bwrite-disk s t b st = ground arith

pub bwrite-cached :
    (s t : ℕ) (b : Block) (st : Store)
    → (bwrite s b st).cached t ≡ (if s == t then b else st.cached t)
unfolding bwrite
bwrite-cached s t b st = ground arith

pub bwrite-budget : (s : ℕ) (b : Block) (st : Store) → (bwrite s b st).budget ≡ st.budget - 1
unfolding bwrite
bwrite-budget s b st = ground arith

pub Logged-same :
    (at : ℕ) (ss : List ℕ) (log log' f : ℕ → Block)
    → ((t : ℕ) → at < t → log' t ≡ log t)
    → Logged at ss log f
    → Logged at ss log' f
Logged-same at [] log log' f same l = tt
Logged-same at (s ∷ ss) log log' f same l = (
  same (at + 1) (omega arith) ∙ l.0,
  Logged-same (at + 1) ss log log' f (λ t h. same t (omega arith)) l.1,
)

-- Neither loop leaves more budget than it should.
pub install-budget :
    (at : ℕ) (ss : List ℕ) (st : Store) → (install at ss st).budget ≡ st.budget - length ss
unfolding install
install-budget at [] st = omega arith
install-budget at (s ∷ ss) st = omega (
  arith,
  install-budget (at + 1) ss (bwrite s (bread (at + 1) st) st),
  bwrite-budget s (bread (at + 1) st) st,
)

pub write_log-budget :
    (at : ℕ) (ss : List ℕ) (st : Store) → (write_log at ss st).budget ≡ st.budget - length ss
unfolding write_log
write_log-budget at [] st = omega arith
write_log-budget at (s ∷ ss) st = omega (
  arith,
  write_log-budget (at + 1) ss (bwrite (at + 1) (bread s st) st),
  bwrite-budget (at + 1) (bread s st) st,
)

-- install_trans writes to no sector outside its list.
pub install-other :
    (at : ℕ) (ss : List ℕ) (st : Store) (t : ℕ)
    → elem t ss ≡ false
    → ((install at ss st).disk t ≡ st.disk t) × ((install at ss st).cached t ≡ st.cached t)
unfolding install
install-other at [] st t out = (refl, refl)
install-other at (s ∷ ss) st t out =
    let b : Block = bread (at + 1) st in
    let (d, c) = install-other (at + 1) ss (bwrite s b st) t (ground arith) in
    (ground (arith, d, bwrite-disk s t b st), ground (arith, c, bwrite-cached s t b st))

pub InFront-elem :
    (start : ℕ) (ss : List ℕ) (t : ℕ) → InFront start ss → start ≤ t → elem t ss ≡ false
InFront-elem start [] t front h = refl
InFront-elem start (s ∷ ss) t front h = ground (arith, front.0, InFront-elem start ss t front.1 h)

-- A home sector that has its final contents keeps them, however often the power fails.
pub install-keeps :
    (start at : ℕ) (ss : List ℕ) (f : ℕ → Block) (st : Store) (t : ℕ)
    → start ≤ at
    → InFront start ss
    → Logged at ss st.cached f
    → st.disk t ≡ f t
    → (install at ss st).disk t ≡ f t
unfolding install
install-keeps start at [] f st t h front l e = e
install-keeps start at (s ∷ ss) f st t h front l e =
    let st1 : Store = bwrite s (bread (at + 1) st) st in
    install-keeps start (at + 1) ss f st1 t (omega arith) front.1
      (Logged-same (at + 1) ss st.cached st1.cached f
        (λ u g. ground (arith, bwrite-cached s u (bread (at + 1) st) st, front.0)) l.1)
      (ground (arith, bwrite-disk s t (bread (at + 1) st) st, l.0))

-- With power enough every listed home sector gets its final contents.
pub install-done :
    (start at : ℕ) (ss : List ℕ) (f : ℕ → Block) (st : Store) (t : ℕ)
    → start ≤ at
    → InFront start ss
    → Logged at ss st.cached f
    → length ss ≤ st.budget
    → elem t ss ≡ true
    → (install at ss st).disk t ≡ f t
unfolding install
install-done start at [] f st t h front l b e = cc
install-done start at (s ∷ ss) f st t h front l b e =
    let st1 : Store = bwrite s (bread (at + 1) st) st in
    let l1 : Logged (at + 1) ss st1.cached f =
      Logged-same (at + 1) ss st.cached st1.cached f
        (λ u g. ground (arith, bwrite-cached s u (bread (at + 1) st) st, front.0)) l.1 in
    elim (Bool-cases (s == t)) [
      | inl this ↦
          install-keeps start (at + 1) ss f st1 t (omega arith) front.1 l1
            (ground (arith, bwrite-disk s t (bread (at + 1) st) st, l.0, this))
      | inr other ↦
          install-done start (at + 1) ss f st1 t (omega arith) front.1 l1
            (omega (arith, bwrite-budget s (bread (at + 1) st) st)) (ground arith)
    ]

-- write_log leaves the header and the home sectors alone.
pub write_log-front :
    (at : ℕ) (ss : List ℕ) (st : Store) (t : ℕ)
    → t ≤ at
    → ((write_log at ss st).disk t ≡ st.disk t) × ((write_log at ss st).cached t ≡ st.cached t)
unfolding write_log
write_log-front at [] st t h = (refl, refl)
write_log-front at (s ∷ ss) st t h =
    let b : Block = bread s st in
    let (d, c) = write_log-front (at + 1) ss (bwrite (at + 1) b st) t (omega arith) in
    (
      ground (arith, d, bwrite-disk (at + 1) t b st),
      ground (arith, c, bwrite-cached (at + 1) t b st),
    )

-- With power enough the log holds the new contents of every listed sector.
pub write_log-Logged :
    (start at : ℕ) (ss : List ℕ) (f : ℕ → Block) (st : Store)
    → start ≤ at
    → InFront start ss
    → ((s : ℕ) → s < start → st.cached s ≡ f s)
    → length ss ≤ st.budget
    → Logged at ss (write_log at ss st).cached f × Logged at ss (write_log at ss st).disk f
unfolding write_log
write_log-Logged start at [] f st h front e b = (tt, tt)
write_log-Logged start at (s ∷ ss) f st h front e b =
    let blk : Block = bread s st in
    let st1 : Store = bwrite (at + 1) blk st in
    let (d, c) = write_log-front (at + 1) ss st1 (at + 1) (omega arith) in
    let (lc, ld) =
      write_log-Logged start (at + 1) ss f st1 (omega arith) front.1
        (λ u g. ground (arith, bwrite-cached (at + 1) u blk st, e u g))
        (omega (arith, bwrite-budget (at + 1) blk st)) in
    (
      (ground (arith, c, bwrite-cached (at + 1) (at + 1) blk st, e s front.0), lc),
      (ground (arith, d, bwrite-disk (at + 1) (at + 1) blk st, e s front.0), ld),
    )

-- Without power the disk does not change.
pub install-dead :
    (at : ℕ) (ss : List ℕ) (st : Store) (t : ℕ)
    → st.budget ≡ 0
    → (install at ss st).disk t ≡ st.disk t
unfolding install
install-dead at [] st t e = refl
install-dead at (s ∷ ss) st t e =
    let b : Block = bread (at + 1) st in
    install-dead (at + 1) ss (bwrite s b st) t (omega (arith, bwrite-budget s b st))
    ∙ ground (arith, bwrite-disk s t b st)
