-- ===== src/Proc/Exit.antt =====
-- proc.c: exit and wait on the process table and the page allocator. What exit does to the open
-- files and the current directory before it takes the table's lock is not represented.
use os.Base.{
  ℕ, zero, suc, ◌+◌, ◌==◌, Bool, true, false, not, ◌&&◌, if◌then◌else◌, Option, none, some, List,
  [], ◌∷◌, get_elem?, modify, set, ℤ, pos, minus_one, Result, ok, panic, deref, ◌>>=◌,
}
use os.Kalloc.Defs.{Kmem}
use os.Vm.Space.{freevm}
use os.Proc.Defs.{State, is_state, Ptr, at_proc, Thread, Proc, Ptable}
use os.Proc.Access.{with_state, set_state}
use os.Proc.Sleep.{wakeup1, sleep_begin, proc_is_alive}
use os.Proc.Life.{System, reaped, free_stack}

abbrev pub is_child : ℕ → Proc → Bool
is_child me p = elim p.parent [ none ↦ false | some i ↦ i == me ]

-- wakeup1(proc->parent); nobody sleeps on a null pointer.
abbrev pub wake_parent : Option ℕ → Ptable → Ptable
wake_parent none pt = pt
wake_parent (some i) pt = wakeup1 (at_proc i) pt

-- One round of the loop that passes the children to init.
abbrev pub adopt : ℕ → ℕ → Option Proc → Ptable → Ptable
adopt me i none pt = pt
adopt me i (some p) pt =
    if is_child me p
    then (let pt' : Ptable = record pt {
      procs = modify pt.procs i (λ q. record q { parent = some pt.initproc });
    } in
        if is_state p.state State.zombie then wakeup1 (at_proc pt.initproc) pt' else pt')
    else pt

-- The loop, with `n` entries left from `i` on.
unfoldable pub reparent : ℕ → ℕ → ℕ → Ptable → Ptable
reparent me i zero pt = pt
reparent me i (suc n) pt = reparent me (i + 1) n (adopt me i (get_elem? pt.procs i) pt)

-- The threads besides the one at `slot` that neither run nor are free become zombies.
unfoldable pub end_others : ℕ → ℕ → List Thread → List Thread
end_others slot i [] = []
end_others slot i (t ∷ ts) =
    (if not (is_state t.state State.running)
        && not (is_state t.state State.unused)
        && not (i == slot)
      then with_state State.zombie t
      else t)
    ∷ end_others slot (i + 1) ts

-- exit from `acquire(&ptable.lock)` to `sched`; `n` is NPROC.
unfoldable pub exit_section : ℕ → Ptr → Ptable → Result Ptable
unfolding reparent end_others
exit_section n thread pt = do
  p ← deref (get_elem? pt.procs thread.proc)
  if thread.proc == pt.initproc
      then panic "init exiting"
      else (let pt2 = reparent thread.proc 0 n (wake_parent p.parent pt) in
          let pt3 : Ptable = record pt2 {
            procs =
                modify pt2.procs thread.proc
                  (λ q. record q { killed = true; threads = end_others thread.slot 0 q.threads });
          } in
          let pt4 = set_state thread State.zombie pt3 in
          if proc_is_alive thread pt4
          then ok pt4
          else ok (record pt4 {
            procs = modify pt4.procs thread.proc (λ q. record q { state = State.zombie });
          }))

-- The scan of wait: the first zombie child, or whether there are children.
pub data Children : Type 0 where
  ended : ℕ → Children
  alive : Children
  childless : Children

unfoldable pub wait_scan : ℕ → ℕ → List Proc → Children → Children
wait_scan me i [] found = found
wait_scan me i (p ∷ ps) found =
    let next = wait_scan me (i + 1) ps found in
    let later = wait_scan me (i + 1) ps alive in
    if is_child me p then (if is_state p.state State.zombie then ended i else later) else next

-- The loop over `proc->threads`: each zombie is reaped, and its stack freed.
unfoldable pub reap_threads : List Thread → Kmem → Result (List Thread × Kmem)
reap_threads [] km = ok ([], km)
reap_threads (t ∷ ts) km =
    if is_state t.state State.zombie
    then (free_stack t.kstack km >>= λ km'.
        reap_threads ts km' >>= λ (us, km''). ok (reaped t ∷ us, km''))
    else (reap_threads ts km >>= λ (us, km'). ok (t ∷ us, km'))

-- The end of wait for the child, once its address space is freed.
abbrev pub buried : Proc → Proc
buried p = record p {
  state = State.unused;
  pid = 0;
  parent = none;
  name = set p.name 0 0;
  killed = false;
}

-- How a round of wait ends.
pub data Wait : Type 0 where
  waited : ℤ → Wait
  waits : Wait

abbrev pub wait_round : Ptr → Proc → System → Children → Result (Wait × System)
wait_round caller me s (ended i) = deref (get_elem? s.ptable.procs i) >>= λ p.
    reap_threads me.threads s.kmem >>= λ (ts, km1). freevm p.pgdir km1 >>= λ km. ok (
      waited (pos p.pid),
      record {
        ptable = record (s.ptable) {
          procs =
              modify (modify s.ptable.procs caller.proc (λ q. record q { threads = ts })) i buried;
        };
        kmem = km;
      },
    )
wait_round caller me s childless = ok (waited minus_one, s)
wait_round caller me s alive =
    if me.killed
    then ok (waited minus_one, s)
    else ok (waits, record s { ptable = sleep_begin caller (at_proc caller.proc) s.ptable })

-- One round of the loop of wait, up to its sleep.
unfoldable pub wait : Ptr → System → Result (Wait × System)
unfolding wait_scan reap_threads
wait caller s = do
  me ← deref (get_elem? s.ptable.procs caller.proc)
  wait_round caller me s (wait_scan caller.proc 0 s.ptable.procs childless)
