-- ===== src/Proc/Sleep.antt =====
-- proc.c: sleep, wakeup, yield and kill on the process table. Each runs under `ptable.lock`.
use os.Base.{
  ℕ, ◌==◌, Bool, true, false, ◌&&◌, Option, none, some, List, [], ◌∷◌, map, get_elem?,
  if◌then◌else◌, ℤ, pos, minus_one,
}
use os.Proc.Defs.{State, is_state, Ptr, Chan, same_chan, Thread, Proc, Ptable}
use os.Proc.Access.{modify_thread, with_state, set_state}

-- `t->chan == chan` for a channel that is not null
abbrev pub on_chan : Chan → Option Chan → Bool
on_chan c none = false
on_chan c (some d) = same_chan d c

abbrev pub waken : Chan → Thread → Thread
waken c t =
    if is_state t.state State.sleeping && on_chan c t.chan then with_state State.runnable t else t

abbrev pub waken_all : Chan → Proc → Proc
waken_all c p = record p { threads = map (waken c) p.threads }

unfoldable pub wakeup1 : Chan → Ptable → Ptable
wakeup1 c pt = record pt { procs = map (waken_all c) pt.procs }

-- The part of `sleep` before `sched`, and the part behind it.
unfoldable pub sleep_begin : Ptr → Chan → Ptable → Ptable
unfolding modify_thread
sleep_begin thread c =
    modify_thread thread (λ t. record t { chan = some c; state = State.sleeping })

unfoldable pub sleep_end : Ptr → Ptable → Ptable
unfolding modify_thread
sleep_end thread = modify_thread thread (λ t. record t { chan = none })

-- The part of `yield` before `sched`.
unfoldable pub yield : Ptr → Ptable → Ptable
unfolding set_state
yield thread = set_state thread State.runnable

-- The inner loop of `kill`: sleeping threads become runnable.
abbrev pub rouse : Thread → Thread
rouse t = if is_state t.state State.sleeping then with_state State.runnable t else t

abbrev pub killed_proc : Proc → Proc
killed_proc p = record p { killed = true; threads = map rouse p.threads }

-- The outer loop of `kill`: the first process with the pid.
unfoldable pub kill_in : ℕ → List Proc → ℤ × List Proc
kill_in pid [] = (minus_one, [])
kill_in pid (p ∷ ps) =
    let (r, ps') = kill_in pid ps in
    if p.pid == pid then (pos 0, killed_proc p ∷ ps) else (r, p ∷ ps')

unfoldable pub kill : ℕ → Ptable → ℤ × Ptable
unfolding kill_in
kill pid pt = let (r, ps) = kill_in pid pt.procs in (r, record pt { procs = ps })

-- procIsAlive on the threads of the caller's process
unfoldable pub any_alive : List Thread → Bool
any_alive [] = false
any_alive (t ∷ ts) = elim t.state [
  | State.unused ↦ any_alive ts
  | State.zombie ↦ any_alive ts
  | _ ↦ true
]

unfoldable pub proc_is_alive : Ptr → Ptable → Bool
unfolding any_alive
proc_is_alive thread pt = elim (get_elem? pt.procs thread.proc) [
  | none ↦ false
  | some p ↦ any_alive p.threads
]
