-- ===== src/Proc/Birth.antt =====
-- proc.c: allocproc, and what kill of pid 0 does to a process that is not born yet.
use os.Base.{
  ℕ, zero, suc, ◌+◌, ◌≡◌, ◌≢◌, ◌⊎◌, inl, inr, refl, ◌∙◌, true, false, Bool-cases, Option, none,
  some, List, [], ◌∷◌, All, take, set, modify, get_elem?, get_elem?-modify, get_elem?-set_self,
  get_elem?-some_lt, arith, pos,
}
use os.Kalloc.Defs.{Kmem, kalloc}
use os.Proc.Defs.{State, is_state, Proc}
use os.Proc.Sleep.{kill, kill_in, killed_proc}
use os.Proc.SleepLaws.{Unmatched}
use os.Proc.Life.{System, first_proc, allocproc, claimed, stacked}

-- Every process is in use.
abbrev pub InUse : Proc → Type 0
InUse p = is_state p.state State.unused ≡ false

-- The search of allocproc: the first free entry, or none when every entry is in use.
abbrev pub FirstFree : List Proc → Option ℕ → Type 0
FirstFree ps none = All InUse ps
FirstFree ps (some i) =
    (p : Proc) × (get_elem? ps i ≡ some p)
    × (is_state p.state State.unused ≡ true)
    × All InUse (take i ps)

push_front :
    (p : Proc) (ps : List Proc) (r : Option ℕ)
    → InUse p
    → FirstFree ps r
    → FirstFree (p ∷ ps) (elim r [ none ↦ none | some i ↦ some (i + 1) ])
push_front p ps none u f = (u, f)
push_front p ps (some i) u (q, at, free, before) =
    let s : i + 1 ≡ suc i = omega arith in rw s (q, at, free, (u, before))

first_proc-FirstFree : (ps : List Proc) → FirstFree ps (first_proc ps)
unfolding first_proc
first_proc-FirstFree [] = tt
first_proc-FirstFree (p ∷ ps) = elim (Bool-cases (is_state p.state State.unused)) [
  | inl free ↦ rw free (p, refl, free, tt)
  | inr used ↦ rw used (push_front p ps (first_proc ps) used (first_proc-FirstFree ps))
]

-- What allocproc makes of entry `i`.
abbrev pub Born : System → ℕ → ℕ → Proc → Kmem → Type 0
Born s page i p km =
    ((allocproc s).0 ≡ some i)
    × (get_elem? (allocproc s).1.ptable.procs i
        ≡ some (stacked page (claimed i s.ptable.nextpid p)))
    × ((allocproc s).1.ptable.nextpid ≡ s.ptable.nextpid + 2)
    × ((allocproc s).1.kmem ≡ km)

allocproc-Born :
    (s : System) (page i : ℕ) (p : Proc) (km : Kmem)
    → kalloc s.kmem ≡ (page, km)
    → page ≢ 0
    → first_proc s.ptable.procs ≡ some i
    → get_elem? s.ptable.procs i ≡ some p
    → Born s page i p km
unfolding allocproc
allocproc-Born s page i p km k some_page e at = (
  ground (arith, e, k),
  ground (
    arith,
    e,
    k,
    at,
    get_elem?-modify (modify s.ptable.procs i (claimed i s.ptable.nextpid)) i i (stacked page),
    get_elem?-modify s.ptable.procs i i (claimed i s.ptable.nextpid),
  ),
  ground (arith, e, k),
  ground (arith, e, k),
)

allocproc-none : (s : System) → first_proc s.ptable.procs ≡ none → allocproc s ≡ (none, s)
unfolding allocproc
allocproc-none s e = ground (arith, e)

-- allocproc gives the first free entry, with a page of the allocator for the stack of its first
-- thread and two pids that were never used; with no free entry it fails and changes nothing.
allocproc_lem :
    (s : System) (page : ℕ) (km : Kmem)
    → kalloc s.kmem ≡ (page, km)
    → page ≢ 0
    → ((allocproc s ≡ (none, s)) × All InUse s.ptable.procs)
      ⊎ ((i : ℕ) × (p : Proc) × (get_elem? s.ptable.procs i ≡ some p)
          × (is_state p.state State.unused ≡ true)
          × All InUse (take i s.ptable.procs)
          × Born s page i p km)
allocproc_lem s page km k some_page =
    go (first_proc s.ptable.procs) refl (first_proc-FirstFree s.ptable.procs)
  where
    go :
        (r : Option ℕ)
        → first_proc s.ptable.procs ≡ r
        → FirstFree s.ptable.procs r
        → ((allocproc s ≡ (none, s)) × All InUse s.ptable.procs)
          ⊎ ((i : ℕ) × (p : Proc) × (get_elem? s.ptable.procs i ≡ some p)
              × (is_state p.state State.unused ≡ true)
              × All InUse (take i s.ptable.procs)
              × Born s page i p km)
    go none e f = inl (allocproc-none s e, f)
    go (some i) e (p, at, free, before) =
        inr (i, p, at, free, before, allocproc-Born s page i p km k some_page e at)

kill_in_at :
    (pid : ℕ) (ps : List Proc) (i : ℕ) {p : Proc}
    → get_elem? ps i ≡ some p
    → p.pid ≡ pid
    → Unmatched pid (take i ps)
    → kill_in pid ps ≡ (pos 0, set ps i (killed_proc p))
unfolding kill_in
kill_in_at pid [] i at e u = cc
kill_in_at pid (x ∷ ps) zero at e u = ground arith
kill_in_at pid (x ∷ ps) (suc i) at e u = ground (arith, u.0, kill_in_at pid ps i at e u.1)

first_proc-set :
    (ps : List Proc) (i : ℕ) {p : Proc} (q : Proc)
    → get_elem? ps i ≡ some p
    → q.state ≡ p.state
    → first_proc (set ps i q) ≡ first_proc ps
unfolding first_proc
first_proc-set [] i q at e = refl
first_proc-set (x ∷ ps) zero q at e = ground arith
first_proc-set (x ∷ ps) (suc i) q at e = ground (arith, first_proc-set ps i q at e)

-- A free entry has pid 0, so that kill of pid 0 marks the first of them as killed, and allocproc
-- does not take the mark away: the next process is born killed.
born_killed :
    (s : System) (page i : ℕ) (p : Proc) (km : Kmem)
    → kalloc s.kmem ≡ (page, km)
    → page ≢ 0
    → first_proc s.ptable.procs ≡ some i
    → get_elem? s.ptable.procs i ≡ some p
    → p.pid ≡ 0
    → Unmatched 0 (take i s.ptable.procs)
    → let after = record s { ptable = (kill 0 s.ptable).1 } in
      (q : Proc) × ((allocproc after).0 ≡ some i)
      × (get_elem? (allocproc after).1.ptable.procs i ≡ some q)
      × (q.killed ≡ true)
born_killed s page i p km k some_page first at zero_pid others =
    let (found, born, _, _) =
      allocproc-Born after page i (killed_proc p) km k some_page still there in
    (stacked page (claimed i after.ptable.nextpid (killed_proc p)), found, born, refl)
  where
    after : System
    after = record s { ptable = (kill 0 s.ptable).1 }

    killed_list : after.ptable.procs ≡ set s.ptable.procs i (killed_proc p)
    killed_list = unfold kill in ground (arith, kill_in_at 0 s.ptable.procs i at zero_pid others)

    still : first_proc after.ptable.procs ≡ some i
    still = rw killed_list (first_proc-set s.ptable.procs i (killed_proc p) at refl ∙ first)

    there : get_elem? after.ptable.procs i ≡ some (killed_proc p)
    there = rw killed_list (
        get_elem?-set_self s.ptable.procs i (killed_proc p) (get_elem?-some_lt s.ptable.procs i at))
