-- ===== src/Log/Crash.antt =====
-- log.c: a commit is all or nothing, wherever the power fails.
use os.Base.{
  ℕ, zero, suc, ◌+◌, ◌-◌, ◌*◌, ltb, ltb→lt, ◌<◌, ◌≤◌, ◌≡◌, ◌≢◌, ◌⊎◌, refl, ap, ap₂, ◌∙◌, false,
  Bool-cases, inl, inr, List, [], ◌∷◌, length, arith,
}
use os.Log.Disk.{Block, Store, bread, restart}
use os.Log.Defs.{
  header_of, sectors_of, install, write_log, write_head, read_head, commit_all, recover_from_log,
}
use os.Log.Header.{sectors_of-header_of}
use os.Log.Install.{
  elem, Logged, InFront, Logged-same, install-budget, write_log-budget, install-other, InFront-elem,
  install-done, write_log-front, write_log-Logged, install-dead, bwrite-disk, bwrite-cached,
  bwrite-budget,
}

-- Restarts that run the recovery with these budgets, one after the other.
unfoldable pub recoveries : ℕ → List ℕ → Store → Store
recoveries start [] st = st
recoveries start (b ∷ bs) st = recoveries start bs (recover_from_log start (restart b st))

-- The sectors in front of the log, as a list.
abbrev pub home : ℕ → (ℕ → Block) → List Block
home zero d = []
home (suc n) d = d n ∷ home n d

home-eq : (n : ℕ) (d e : ℕ → Block) → ((t : ℕ) → t < n → d t ≡ e t) → home n d ≡ home n e
home-eq zero d e h = refl
home-eq (suc n) d e h = ap₂ ◌∷◌ (h n (omega arith)) (home-eq n d e (λ t g. h t (omega arith)))

sectors_of-header_of_nil : (b : Block) → sectors_of (header_of [] b) ≡ []
sectors_of-header_of_nil [] = refl
sectors_of-header_of_nil (x ∷ b) = refl

module _ (start : ℕ) where
  -- The disk has an empty log, and its home sectors are `g`.
  abbrev pub Settled : (ℕ → Block) → Store → Type 0
  Settled g st = (sectors_of (st.disk start) ≡ []) × ((t : ℕ) → t < start → st.disk t ≡ g t)

  write_head-other :
      (ss : List ℕ) (st : Store) (t : ℕ)
      → t ≢ start
      → ((write_head start ss st).disk t ≡ st.disk t)
        × ((write_head start ss st).cached t ≡ st.cached t)
  unfolding write_head
  write_head-other ss st t ne =
      let b : Block = header_of ss (bread start st) in
      (ground (arith, bwrite-disk start t b st), ground (arith, bwrite-cached start t b st))

  write_head-dead :
      (ss : List ℕ) (st : Store) (t : ℕ)
      → st.budget ≡ 0
      → (write_head start ss st).disk t ≡ st.disk t
  unfolding write_head
  write_head-dead ss st t e = ground (arith, bwrite-disk start t (header_of ss (bread start st)) st)

  write_head-live :
      (ss : List ℕ) (st : Store)
      → 0 < st.budget
      → (write_head start ss st).disk start ≡ header_of ss (st.cached start)
  unfolding write_head
  write_head-live ss st e =
      ground (arith, bwrite-disk start start (header_of ss (bread start st)) st)

  write_head-budget : (ss : List ℕ) (st : Store) → (write_head start ss st).budget ≡ st.budget - 1
  unfolding write_head
  write_head-budget ss st = bwrite-budget start (header_of ss (bread start st)) st

  -- Erasing the header empties the log, if the power holds; otherwise the header stays.
  write_head-erases :
      (st : Store)
      → (sectors_of ((write_head start [] st).disk start) ≡ [])
        ⊎ ((st.budget ≡ 0) × ((write_head start [] st).disk start ≡ st.disk start))
  write_head-erases st = elim (Bool-cases (ltb 0 st.budget)) [
    | inl live ↦ inl (
        ap sectors_of (write_head-live [] st (ground arith))
        ∙ sectors_of-header_of_nil (st.cached start))
    | inr dead ↦ inr (ground arith, write_head-dead [] st start (ground arith))
  ]

  -- Recovery of a settled disk changes no home sector.
  pub recover-Settled :
      (g : ℕ → Block) (b : ℕ) (st : Store)
      → Settled g st
      → Settled g (recover_from_log start (restart b st))
  unfolding recover_from_log read_head install
  recover-Settled g b st (empty, home) = (
    rw empty (header b),
    λ t h. rw empty ((write_head-other [] (restart b st) t (omega arith)).0 ∙ home t h),
  )
    where
      header : (b : ℕ) → sectors_of ((write_head start [] (restart b st)).disk start) ≡ []
      header b = elim (write_head-erases (restart b st)) [
        | inl e ↦ e
        | inr (_, e) ↦ ap sectors_of e ∙ empty
      ]

  module _ (ss : List ℕ) (f : ℕ → Block) (front : InFront start ss) where
    -- The log on the disk is committed: its header lists the sectors, its blocks hold `f` of them,
    -- and every other home sector is `f` already.
    pub record Pending (st : Store) : Type 0 where
      pub listed : sectors_of (st.disk start) ≡ ss
      pub logged : Logged start ss st.disk f
      pub others : (t : ℕ) → t < start → elem t ss ≡ false → st.disk t ≡ f t

    install-Settled :
        (st : Store) (t : ℕ)
        → Logged start ss st.cached f
        → ((t : ℕ) → t < start → elem t ss ≡ false → st.disk t ≡ f t)
        → length ss ≤ st.budget
        → t < start
        → (install start ss st).disk t ≡ f t
    install-Settled st t l others enough h = elim (Bool-cases (elem t ss)) [
      | inl e ↦ install-done start start ss f st t (omega arith) front l enough e
      | inr e ↦ (install-other start ss st t e).0 ∙ others t h e
    ]

    -- install_trans followed by the erasure of the header, from a committed log.
    finish :
        (st : Store)
        → Pending st
        → Logged start ss st.cached f
        → Settled f (write_head start [] (install start ss st))
          ⊎ (Pending (write_head start [] (install start ss st)) × (st.budget ≤ length ss))
    finish st p l = elim (Bool-cases (ltb (length ss) st.budget)) [
      | inl enough ↦ inl (
        ap sectors_of (
              write_head-live [] (install start ss st)
                (omega (arith, ltb→lt, install-budget start ss st)))
            ∙ sectors_of-header_of_nil ((install start ss st).cached start),
        λ t h.
            (write_head-other [] (install start ss st) t (omega arith)).0
            ∙ install-Settled st t l p.others (omega (arith, ltb→lt)) h,
      )
      | inr short ↦ inr (
        record {
          listed =
              ap sectors_of (
                write_head-dead [] (install start ss st) start (dead short)
                ∙ (install-other start ss st start
                    (InFront-elem start ss start front (omega arith))).0)
              ∙ p.listed;
          logged =
              Logged-same start ss st.disk _ f
                (λ t h.
                  (write_head-other [] (install start ss st) t (omega arith)).0
                  ∙ (install-other start ss st t (InFront-elem start ss t front (omega arith))).0)
                p.logged;
          others = λ t h out.
              (write_head-other [] (install start ss st) t (omega arith)).0
              ∙ (install-other start ss st t out).0
              ∙ p.others t h out;
        },
        ground arith,
      )
    ]
      where
        dead : ltb (length ss) st.budget ≡ false → (install start ss st).budget ≡ 0
        dead short =
            let le : st.budget ≤ length ss = ground arith in
            omega (arith, install-budget start ss st)

    -- Recovery of a committed disk completes the installation, or leaves the disk committed when
    -- the power does not last.
    pub recover-Pending :
        (b : ℕ) (st : Store)
        → Pending st
        → Settled f (recover_from_log start (restart b st))
          ⊎ (Pending (recover_from_log start (restart b st)) × (b ≤ length ss))
    unfolding recover_from_log read_head
    recover-Pending b st p = rw p.listed (
        finish (restart b st) (record { listed = p.listed; logged = p.logged; others = p.others })
          p.logged)

    -- However often the recovery is interrupted, what it leaves is settled or still committed.
    recoveries-Settled :
        (g : ℕ → Block) (bs : List ℕ) (st : Store)
        → Settled g st
        → Settled g (recoveries start bs st)
    unfolding recoveries
    recoveries-Settled g [] st s = s
    recoveries-Settled g (b ∷ bs) st s = recoveries-Settled g bs _ (recover-Settled g b st s)

    recoveries-Pending :
        (bs : List ℕ) (st : Store)
        → Pending st
        → Settled f (recoveries start bs st) ⊎ Pending (recoveries start bs st)
    unfolding recoveries
    recoveries-Pending [] st p = inr p
    recoveries-Pending (b ∷ bs) st p = elim (recover-Pending b st p) [
      | inl s ↦ inl (recoveries-Settled f bs _ s)
      | inr (p', _) ↦ recoveries-Pending bs _ p'
    ]

    -- A recovery with power enough settles a committed disk.
    recover-done :
        (b : ℕ) (st : Store)
        → length ss < b
        → Pending st
        → Settled f (recover_from_log start (restart b st))
    recover-done b st h p = elim (recover-Pending b st p) [
      | inl s ↦ s
      | inr (_, le) ↦ absurd (omega arith)
    ]

-- What the cache holds before a commit: every home sector that is not in the log is as on the
-- disk, the log on the disk is empty, and the header block has room for the list of sectors.
pub record Ready (start : ℕ) (ss : List ℕ) (st : Store) : Type 0 where
  pub front : InFront start ss
  pub empty : sectors_of (st.disk start) ≡ []
  pub wide : length ss < length (st.cached start)
  pub clean : (t : ℕ) → t < start → elem t ss ≡ false → st.disk t ≡ st.cached t

module _ (start : ℕ) (ss : List ℕ) (st : Store) (r : Ready start ss st) where
  logged_at : Store
  logged_at = write_log start ss st

  headed : Store
  headed = write_head start ss (write_log start ss st)

  -- Too little power for the header: the disk keeps the old contents.
  commit-dead : st.budget ≤ length ss → Settled start st.disk (commit_all start ss st)
  unfolding commit_all
  commit-dead short =
      (ap sectors_of (same start (omega arith)) ∙ r.empty, λ t h. same t (omega arith))
    where
      s1 : Store
      s1 = write_log start ss st

      d1 : s1.budget ≡ 0
      d1 = omega (arith, write_log-budget start ss st)

      s2 : Store
      s2 = write_head start ss s1

      d2 : s2.budget ≡ 0
      d2 = omega (arith, d1, write_head-budget start ss s1)

      d3 : (install start ss s2).budget ≡ 0
      d3 = omega (arith, d2, install-budget start ss s2)

      same : (t : ℕ) → t ≤ start → (write_head start [] (install start ss s2)).disk t ≡ st.disk t
      same t h =
          write_head-dead start [] (install start ss s2) t d3
          ∙ install-dead start ss s2 t d2
          ∙ write_head-dead start ss s1 t d1
          ∙ (write_log-front start ss st t h).0

  -- The header is on the disk: the transaction is committed.
  headed-Pending : length ss < st.budget → Pending start ss st.cached r.front headed
  unfolding headed
  headed-Pending live = record {
    listed =
        ap sectors_of (
          write_head-live start ss (write_log start ss st)
            (omega (arith, write_log-budget start ss st)))
        ∙ ap (λ b. sectors_of (header_of ss b)) (write_log-front start ss st start (omega arith)).1
        ∙ sectors_of-header_of ss (st.cached start) r.wide;
    logged =
        Logged-same start ss (write_log start ss st).disk _ st.cached
          (λ t h. (write_head-other start ss (write_log start ss st) t (omega arith)).0)
          (write_log-Logged start start ss st.cached st (omega arith) r.front (λ s h. refl)
            (omega arith)).1;
    others = λ t h out.
        (write_head-other start ss (write_log start ss st) t (omega arith)).0
        ∙ (write_log-front start ss st t (omega arith)).0
        ∙ r.clean t h out;
  }

  headed-Logged : length ss < st.budget → Logged start ss headed.cached st.cached
  unfolding headed
  headed-Logged live =
      Logged-same start ss (write_log start ss st).cached _ st.cached
        (λ t h. (write_head-other start ss (write_log start ss st) t (omega arith)).1)
        (write_log-Logged start start ss st.cached st (omega arith) r.front (λ s h. refl)
          (omega arith)).0

  -- Once the header is on the disk, commit leaves it settled on the new contents or committed.
  commit-live :
      length ss < st.budget
      → Settled start st.cached (commit_all start ss st)
        ⊎ (Pending start ss st.cached r.front (commit_all start ss st)
            × (st.budget ≤ 2 * length ss + 1))
  unfolding commit_all headed
  commit-live more =
      elim (finish start ss st.cached r.front headed (headed-Pending more) (headed-Logged more)) [
        | inl s ↦ inl s
        | inr (p, le) ↦ inr (
          p,
          omega (
            arith,
            write_head-budget start ss (write_log start ss st),
            write_log-budget start ss st,
          ),
        )
      ]

  -- From a log that is ready to commit, a commit with power for more than all its writes leaves
  -- the new contents of every home sector on the disk and an empty log.
  commit_installs :
      2 * length ss + 1 < st.budget
      → (sectors_of ((commit_all start ss st).disk start) ≡ [])
        × (home start (commit_all start ss st).disk ≡ home start st.cached)
  commit_installs enough = elim (commit-live (omega arith)) [
    | inl new ↦ (new.0, home-eq start _ _ new.1)
    | inr (p, le) ↦ absurd (omega arith)
  ]

  crash_cases :
      (bs : List ℕ) (b : ℕ)
      → length ss < b
      → let final =
          recover_from_log start (restart b (recoveries start bs (commit_all start ss st))) in
        ((t : ℕ) → t < start → final.disk t ≡ st.disk t)
        ⊎ ((t : ℕ) → t < start → final.disk t ≡ st.cached t)
  crash_cases bs b enough =
      let done : Store = commit_all start ss st in
      let last : Store = recoveries start bs done in
      elim (Bool-cases (ltb (length ss) st.budget)) [
        | inr short ↦
            inl
              (recover-Settled start st.disk b last (
                recoveries-Settled start ss st.cached r.front st.disk bs done
                  (commit-dead (ground arith)))).1
        | inl live ↦ elim (commit-live (ground arith)) [
          | inl new ↦
              inr
                (recover-Settled start st.cached b last
                  (recoveries-Settled start ss st.cached r.front st.cached bs done new)).1
          | inr (p, _) ↦ elim (recoveries-Pending start ss st.cached r.front bs done p) [
            | inl s ↦ inr (recover-Settled start st.cached b last s).1
            | inr p' ↦ inr (recover-done start ss st.cached r.front b last enough p').1
          ]
        ]
      ]

  -- A transaction is atomic, from a log that is ready to commit: its sectors lie in front of the
  -- log, the header on the disk is empty and wide enough, and the other sectors are clean. Let the
  -- power fail after any number of disk writes of commit, let the recovery at the restart be
  -- interrupted any number of times, each after any number of writes, and let a last recovery have
  -- power for one write more than the log has sectors. Then the home sectors on the disk are all
  -- as they were before the commit, or all as the cache had them.
  pub crash_atomic :
      (bs : List ℕ) (b : ℕ)
      → length ss < b
      → let final =
          recover_from_log start (restart b (recoveries start bs (commit_all start ss st))) in
        (home start final.disk ≡ home start st.disk)
        ⊎ (home start final.disk ≡ home start st.cached)
  crash_atomic bs b enough = elim (crash_cases bs b enough) [
    | inl old ↦ inl (home-eq start _ _ old)
    | inr new ↦ inr (home-eq start _ _ new)
  ]
