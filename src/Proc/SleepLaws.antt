-- ===== src/Proc/SleepLaws.antt =====
-- proc.c: who wakes up.
use mathlib.Core.Option
use os.Base.{
  ℕ, zero, suc, ◌==◌, ◌≡◌, ◌≢◌, refl, true, some, List, [], ◌∷◌, map, get_elem?, arith, ℤ, pos,
  minus_one, Option-cases, inl, inr, ◌⊎◌, take, set, All, Bool-cases, get_elem?-set_self,
  get_elem?-some_lt,
}
use os.Proc.Defs.{State, Ptr, Chan, Thread, Proc, Ptable}
use os.Proc.Access.{thread_at?}
use os.Proc.Sleep.{waken, waken_all, wakeup1, rouse, killed_proc, kill_in, kill}

pub get_elem?-map {ℓ κ} :
    {A : Type ℓ} {B : Type κ} (f : A → B) (xs : List A) (i : ℕ)
    → get_elem? (map f xs) i ≡ Option.map f (get_elem? xs i)
get_elem?-map f [] i = refl
get_elem?-map f (x ∷ xs) zero = refl
get_elem?-map f (x ∷ xs) (suc i) = get_elem?-map f xs i

-- wakeup1 treats every thread of the table alike: it makes runnable exactly those that sleep on
-- the channel, and leaves all the others as they are.
pub thread_at?-wakeup1 :
    (c : Chan) (pt : Ptable) (t : Ptr)
    → thread_at? (wakeup1 c pt) t ≡ Option.map (waken c) (thread_at? pt t)
unfolding wakeup1
thread_at?-wakeup1 c pt t = elim (Option-cases (get_elem? pt.procs t.proc)) [
  | inl e ↦ ground (arith, e, get_elem?-map (waken_all c) pt.procs t.proc)
  | inr (p, e) ↦ ground (
    arith,
    e,
    get_elem?-map (waken_all c) pt.procs t.proc,
    get_elem?-map (waken c) p.threads t.slot,
  )
]

-- No process in front of index `i` has the pid.
abbrev pub Unmatched : ℕ → List Proc → Type 0
Unmatched pid [] = Unit
Unmatched pid (p ∷ ps) = (p.pid ≢ pid) × Unmatched pid ps

-- What the search of kill does.
abbrev pub Killed : ℕ → List Proc → ℤ × List Proc → Type 0
Killed pid ps (r, ps') =
    ((r ≡ minus_one) × (ps' ≡ ps) × Unmatched pid ps)
    ⊎ ((i : ℕ) × (p : Proc) × (r ≡ pos 0)
        × (get_elem? ps i ≡ some p)
        × (p.pid ≡ pid)
        × Unmatched pid (take i ps)
        × (ps' ≡ set ps i (killed_proc p)))

kill_in-Killed : (pid : ℕ) (ps : List Proc) → Killed pid ps (kill_in pid ps)
unfolding kill_in
kill_in-Killed pid [] = inl (refl, refl, tt)
kill_in-Killed pid (p ∷ ps) = elim (Bool-cases (p.pid == pid)) [
  | inl this ↦ inr (0, p, ground (arith, this), refl, ground arith, tt, ground (arith, this))
  | inr other ↦ elim (kill_in-Killed pid ps) [
    | inl (r, same, none_has) ↦
        inl (ground (arith, other, r), ground (arith, other, same), (ground arith, none_has))
    | inr (i, q, r, at, e, before, out) ↦ inr (
      suc i,
      q,
      ground (arith, other, r),
      at,
      e,
      (ground arith, before),
      ground (arith, other, out),
    )
  ]
]

-- kill returns 0 when some process has the pid: the first such process is marked killed and its
-- sleeping threads become runnable, and no other process changes. It returns -1, with the table
-- as it was, exactly when no process has the pid.
kill-Killed : (pid : ℕ) (pt : Ptable) → Killed pid pt.procs ((kill pid pt).0, (kill pid pt).1.procs)
unfolding kill
kill-Killed pid pt = kill_in-Killed pid pt.procs

abbrev pub NoneSleeps : List Thread → Type 0
NoneSleeps ts = All (λ t. t.state ≢ State.sleeping) ts

rouse-NoneSleeps : (ts : List Thread) → NoneSleeps (map rouse ts)
rouse-NoneSleeps [] = tt
rouse-NoneSleeps (t ∷ ts) = (ground arith, rouse-NoneSleeps ts)

-- When kill succeeds, the process that it chose is marked killed and none of its threads is left
-- asleep, so each will come back to test `killed`.
kill-NoneSleeps :
    (pid : ℕ) (pt pt' : Ptable)
    → kill pid pt ≡ (pos 0, pt')
    → (i : ℕ) × (p : Proc) × (get_elem? pt'.procs i ≡ some p)
      × (p.pid ≡ pid)
      × (p.killed ≡ true)
      × NoneSleeps p.threads
kill-NoneSleeps pid pt pt' h = elim (kill-Killed pid pt) [
  | inl (r, _, _) ↦ absurd (ground (arith, h, r))
  | inr (i, p, _, at, e, _, out) ↦ (
    i,
    killed_proc p,
    ground (
      arith,
      h,
      out,
      get_elem?-set_self pt.procs i (killed_proc p) (get_elem?-some_lt pt.procs i at),
    ),
    e,
    refl,
    rouse-NoneSleeps p.threads,
  )
]
