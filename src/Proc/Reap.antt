-- ===== src/Proc/Reap.antt =====
-- proc.c: what wait frees.
use os.Base.{
  ℕ, zero, suc, ◌+◌, ◌≡◌, refl, sym, ◌>>=◌, ap, ◌∙◌, true, false, some, List, [], ◌∷◌, get_elem?,
  modify, take, pos, ok, arith, All,
}
use os.Kalloc.Defs.{Kmem}
use os.Vm.Space.{freevm}
use os.Proc.Defs.{State, is_state, Ptr, Thread, Proc}
use os.Proc.Life.{System}
use os.Proc.Exit.{is_child, Children, ended, wait_scan, reap_threads, buried, waited, wait}

-- The process is no child of `me`, or a child that has not ended.
abbrev pub NotEnded : ℕ → Proc → Type 0
NotEnded me p = is_child me p ≡ true → is_state p.state State.zombie ≡ false

abbrev pub NoZombie : Thread → Type 0
NoZombie t = is_state t.state State.zombie ≡ false

reap_threads_none :
    (ts : List Thread) (km : Kmem) → All NoZombie ts → reap_threads ts km ≡ ok (ts, km)
unfolding reap_threads
reap_threads_none [] km h = refl
reap_threads_none (t ∷ ts) km (h, hs) = rw (h, reap_threads_none ts km hs) refl

wait_scan-ended :
    (me k : ℕ) (ps : List Proc) (found : Children) (i : ℕ) {p : Proc}
    → get_elem? ps i ≡ some p
    → is_child me p ≡ true
    → is_state p.state State.zombie ≡ true
    → All (NotEnded me) (take i ps)
    → wait_scan me k ps found ≡ ended (k + i)
unfolding wait_scan
wait_scan-ended me k [] found i at child z others = absurd (ground (arith, at))
wait_scan-ended me k (q ∷ ps) found zero at child z others = ground (arith, at, child, z)
wait_scan-ended me k (q ∷ ps) found (suc i) {p} at child z (h, hs) =
    let next = wait_scan-ended me (k + 1) ps found i {p = p} at child z hs in
    let later = wait_scan-ended me (k + 1) ps Children.alive i {p = p} at child z hs in
    ground (arith, next, later, h)

threads_kept :
    (ps : List Proc) (i : ℕ) {p : Proc}
    → get_elem? ps i ≡ some p
    → modify ps i (λ q. record q { threads = p.threads }) ≡ ps
threads_kept [] i h = refl
threads_kept (q ∷ ps) zero {p} h =
    let e : q ≡ p = ground (arith, h) in
    ap (λ ts. record q { threads = ts } ∷ ps) (ap (λ r. r.threads) (sym e))
threads_kept (q ∷ ps) (suc i) h = ap (λ r. q ∷ r) (threads_kept ps i h)

-- wait frees no stack of the child it reaps. The first child that has ended is reaped, but the loop
-- over the zombie threads looks at the caller's: if the caller has none, wait frees the child's
-- address space and nothing else, whatever that comes to, returns the child's pid, and resets the
-- child's entry, which keeps its threads with their stacks; no other entry changes.
pub wait_leaks :
    (caller : Ptr) (i : ℕ) (s : System) {me child : Proc}
    → get_elem? s.ptable.procs caller.proc ≡ some me
    → All NoZombie me.threads
    → get_elem? s.ptable.procs i ≡ some child
    → is_child caller.proc child ≡ true
    → is_state child.state State.zombie ≡ true
    → All (NotEnded caller.proc) (take i s.ptable.procs)
    → wait caller s ≡ (
        freevm child.pgdir s.kmem >>= λ km. ok (
          waited (pos child.pid),
          record {
            ptable = record (s.ptable) { procs = modify s.ptable.procs i buried };
            kmem = km;
          },
        ))
unfolding wait
wait_leaks caller i s {me} {child} here calm at is_mine z others =
    let found : wait_scan caller.proc 0 s.ptable.procs Children.childless ≡ ended i =
      wait_scan-ended caller.proc 0 s.ptable.procs Children.childless i at is_mine z others
      ∙ ap ended (omega arith) in
    rw
      (
        here,
        found,
        at,
        reap_threads_none me.threads s.kmem calm,
        threads_kept s.ptable.procs caller.proc here,
      )
      refl
