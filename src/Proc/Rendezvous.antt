-- ===== src/Proc/Rendezvous.antt =====
-- kthread.c: kthread_exit and kthread_join together, and kthread_create.
use os.Base.{
  ℕ, zero, suc, ◌+◌, ◌≡◌, ◌≢◌, inl, inr, refl, true, false, some, List, [], ◌∷◌, All, take,
  get_elem?, arith, pos, minus_one, ok, Option-cases,
}
use os.Kalloc.Chain.{IsPage, Free, kfree-Free}
use os.Proc.Defs.{State, Ptr, at_thread, Thread, Proc, Ptable}
use os.Proc.Access.{thread_at?, modify_thread, state_at?, thread_at?-modify, with_state, set_state}
use os.Proc.Sleep.{proc_is_alive, any_alive, sleep_begin}
use os.Proc.SleepLaws.{thread_at?-wakeup1}
use os.Proc.Life.{
  System, Scan, reap, wait_for, missing, join_scan, kthread_join, joined, sleeps, reaped,
  kthread_exit, enters_sched,
}
use os.Proc.Join.{Live, Other, Scanned, join_scan-Scanned}

join_scan_reap :
    (id i : ℕ) (ts : List Thread) (j : ℕ) (last : Scan) {t : Thread}
    → get_elem? ts j ≡ some t
    → t.pid ≡ id
    → t.state ≡ State.zombie
    → All (Other id) (take j ts)
    → join_scan id i ts last ≡ reap (i + j)
unfolding join_scan
join_scan_reap id i [] j last at p z o = cc
join_scan_reap id i (x ∷ ts) zero last at p z o = ground arith
join_scan_reap id i (x ∷ ts) (suc j) last at p z o =
    ground (arith, o.0, join_scan_reap id (i + 1) ts j last at p z o.1)

join_scan_absent :
    (id i : ℕ) (ts : List Thread) → All (Other id) ts → join_scan id i ts missing ≡ missing
unfolding join_scan
join_scan_absent id i [] h = refl
join_scan_absent id i (t ∷ ts) h = ground (arith, h.0, join_scan_absent id (i + 1) ts h.1)

no_zombie :
    (id : ℕ) (ts : List Thread) (j : ℕ) {t : Thread}
    → All (Live id) ts
    → get_elem? ts j ≡ some t
    → t.pid ≡ id
    → t.state ≢ State.zombie
no_zombie id [] j live at p = cc
no_zombie id (x ∷ ts) zero live at p = ground (arith, live.0)
no_zombie id (x ∷ ts) (suc j) live at p = no_zombie id ts j live.1 at p

not-Other :
    (id : ℕ) (ts : List Thread) (j : ℕ) {t : Thread}
    → All (Other id) ts
    → get_elem? ts j ≡ some t
    → t.pid ≢ id
not-Other id [] j o at = cc
not-Other id (x ∷ ts) zero o at = ground (arith, o.0)
not-Other id (x ∷ ts) (suc j) o at = not-Other id ts j o.1 at

-- The scan's result when a thread has the id and none with the id has exited.
join_scan_present :
    (id : ℕ) (ts : List Thread) (j : ℕ) {t : Thread} (r : Scan)
    → Scanned id 0 ts missing r
    → get_elem? ts j ≡ some t
    → t.pid ≡ id
    → All (Live id) ts
    → (k : ℕ) × (u : Thread) × (r ≡ wait_for k) × (get_elem? ts k ≡ some u) × (u.pid ≡ id)
join_scan_present id ts j (reap k) s at p live = elim s [
  | inl (i, u, e, at', p', z) ↦ absurd (no_zombie id ts i live at' p' z)
  | inr (e, o) ↦ absurd (not-Other id ts j o at p)
]
join_scan_present id ts j (wait_for k) s at p live = elim s [
  | inl ((i, u, e, at', p'), _) ↦ let same : k ≡ i = omega arith in (k, u, refl, rw same at', p')
  | inr (e, o) ↦ absurd (not-Other id ts j o at p)
]
join_scan_present id ts j missing s at p live = absurd (not-Other id ts j s.1 at p)

-- A thread that has exited and is the first of its process with the id is reaped: kthread_join
-- returns 0, its stack goes back to the allocator, and its entry becomes free.
join_reaps :
    (caller : Ptr) (id : ℕ) (s : System) (j page : ℕ) (pages : List ℕ) {p : Proc} {t : Thread}
    → get_elem? s.ptable.procs caller.proc ≡ some p
    → get_elem? p.threads j ≡ some t
    → t.pid ≡ id
    → t.state ≡ State.zombie
    → All (Other id) (take j p.threads)
    → t.kstack ≡ some page
    → IsPage s.kmem.end page
    → All (λ u. u ≢ page) pages
    → Free s.kmem pages
    → (s' : System) × (kthread_join caller id s ≡ ok (joined (pos 0), s'))
      × Free s'.kmem (page ∷ pages)
      × (thread_at? s'.ptable (record { proc = caller.proc; slot = j }) ≡ some (reaped t))
unfolding kthread_join modify_thread
join_reaps caller id s j page pages {p} {t} here at same gone first stack good fresh free =
    let (km, e, _, f) = kfree-Free page s.kmem pages good fresh free in
    let me : Ptr = record { proc = caller.proc; slot = j } in
    let s0 : 0 + j ≡ j = omega arith in
    (
      record { ptable = modify_thread me reaped s.ptable; kmem = km },
      ground (
        arith,
        here,
        rw s0 at (join_scan_reap id 0 p.threads j missing at same gone first),
        at,
        stack,
        e,
      ),
      f,
      ground (arith, thread_at?-modify s.ptable me me reaped, here, at),
    )

-- No thread of the process has the id: kthread_join returns -1 and changes nothing.
pub join_missing :
    (caller : Ptr) (id : ℕ) (s : System) {p : Proc}
    → get_elem? s.ptable.procs caller.proc ≡ some p
    → All (Other id) p.threads
    → kthread_join caller id s ≡ ok (joined minus_one, s)
unfolding kthread_join
join_missing caller id s {p} here none_has =
    ground (arith, here, join_scan_absent id 0 p.threads none_has)

-- As long as the caller's process is not killed, some entry of the process has the id, in use or
-- not, and no entry with the id has exited, the caller goes to sleep, waiting for an entry with the
-- id.
pub join_sleeps :
    (caller : Ptr) (id : ℕ) (s : System) (j : ℕ) {p : Proc} {t : Thread}
    → get_elem? s.ptable.procs caller.proc ≡ some p
    → p.killed ≡ false
    → get_elem? p.threads j ≡ some t
    → t.pid ≡ id
    → All (Live id) p.threads
    → (k : ℕ) × (u : Thread) × (get_elem? p.threads k ≡ some u)
      × (u.pid ≡ id)
      × (kthread_join caller id s
          ≡ ok (
            sleeps,
            record s {
              ptable =
                  sleep_begin caller (at_thread (record { proc = caller.proc; slot = k })) s.ptable;
            },
          ))
unfolding kthread_join
join_sleeps caller id s j {p} here alive at same live =
    let (k, u, r, at', p') =
      join_scan_present id p.threads j _ (join_scan-Scanned id 0 p.threads missing) at same live in
    (k, u, at', p', ground (arith, here, r, alive))

any_alive_lem :
    (ts : List Thread) (j : ℕ) {t : Thread}
    → get_elem? ts j ≡ some t
    → t.state ≡ State.sleeping
    → any_alive ts ≡ true
unfolding any_alive
any_alive_lem [] j at s = cc
any_alive_lem (x ∷ ts) zero at s = ground arith
any_alive_lem (x ∷ ts) (suc j) at s = ground (arith, any_alive_lem ts j at s)

alive_of_sleeper :
    (thread joiner : Ptr) (pt : Ptable) {t : Thread}
    → joiner.proc ≡ thread.proc
    → thread_at? pt joiner ≡ some t
    → t.state ≡ State.sleeping
    → proc_is_alive thread pt ≡ true
unfolding proc_is_alive
alive_of_sleeper thread joiner pt {t} same at asleep =
    elim (Option-cases (get_elem? pt.procs joiner.proc)) [
      | inl e ↦ absurd (ground (arith, e, at))
      | inr (p, e) ↦ ground (
        arith,
        e,
        same,
        any_alive_lem p.threads joiner.slot {t = t} (ground (arith, e, at)) asleep,
      )
    ]

-- No wakeup is lost between kthread_join and kthread_exit: when a thread exits while another of its
-- process sleeps to join it, the exit does not end the process, the sleeper becomes runnable, and
-- the thread is left as a zombie for it to find.
pub exit_wakes_joiner :
    (thread joiner : Ptr) (pt : Ptable) {t th : Thread}
    → joiner.proc ≡ thread.proc
    → joiner.slot ≢ thread.slot
    → thread_at? pt joiner ≡ some t
    → thread_at? pt thread ≡ some th
    → t.state ≡ State.sleeping
    → t.chan ≡ some (at_thread thread)
    → ((kthread_exit thread pt).0 ≡ enters_sched)
      × (state_at? (kthread_exit thread pt).1 joiner ≡ some State.runnable)
      × (state_at? (kthread_exit thread pt).1 thread ≡ some State.zombie)
unfolding kthread_exit state_at?
exit_wakes_joiner thread joiner pt {t} {th} proc slot at me asleep on = (
  rw alive refl,
  rw alive (ground (arith, thread_at?-wakeup1 (at_thread thread) pt1 joiner, kept, asleep, on)),
  rw alive (ground (arith, thread_at?-wakeup1 (at_thread thread) pt1 thread, left)),
)
  where
    pt1 : Ptable
    pt1 = set_state thread State.zombie pt

    kept : thread_at? pt1 joiner ≡ some t
    kept =
        unfold set_state in
        ground (arith, thread_at?-modify pt thread joiner (with_state State.zombie))

    left : thread_at? pt1 thread ≡ some (with_state State.zombie th)
    left =
        unfold set_state in
        ground (arith, thread_at?-modify pt thread thread (with_state State.zombie))

    alive : proc_is_alive thread pt1 ≡ true
    alive = alive_of_sleeper thread joiner pt1 proc kept asleep
