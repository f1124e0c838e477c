-- ===== src/Proc/Orphans.antt =====
-- proc.c: exit leaves no orphans.
use os.Base.{
  ℕ, zero, suc, ◌+◌, ◌==◌, ◌<◌, ◌≡◌, ◌≢◌, refl, ◌∙◌, true, false, Option, none, some, List,
  get_elem?, modify, ok, arith, ◌⊎◌, inl, inr, Bool-cases, Option-cases, get_elem?-modify,
}
use os.Proc.Defs.{State, is_state, Ptr, Chan, at_proc, Proc, Ptable}
use os.Proc.Sleep.{waken_all, wakeup1, proc_is_alive}
use os.Proc.SleepLaws.{get_elem?-map}
use os.Proc.Access.{set_state, modify_thread}
use os.Proc.Exit.{is_child, wake_parent, adopt, reparent, end_others, exit_section}

-- Entry `j` of the table is no child of `me`.
abbrev pub NoChildAt : ℕ → List Proc → ℕ → Type 0
NoChildAt me ps j = (p : Proc) → get_elem? ps j ≡ some p → is_child me p ≡ false

wakeup1-NoChildAt :
    (me : ℕ) (c : Chan) (pt : Ptable) (j : ℕ)
    → NoChildAt me pt.procs j
    → NoChildAt me (wakeup1 c pt).procs j
unfolding wakeup1
wakeup1-NoChildAt me c pt j h p e = elim (Option-cases (get_elem? pt.procs j)) [
  | inl gone ↦ absurd (ground (arith, e, gone, get_elem?-map (waken_all c) pt.procs j))
  | inr (q, at) ↦ ground (arith, e, at, get_elem?-map (waken_all c) pt.procs j, h q at)
]

-- Changing the threads, the mark or the state of a process gives nobody a child.
modify-NoChildAt :
    (me i : ℕ) (f : Proc → Proc) (ps : List Proc) (j : ℕ)
    → ((p : Proc) → is_child me p ≡ false → is_child me (f p) ≡ false)
    → NoChildAt me ps j
    → NoChildAt me (modify ps i f) j
modify-NoChildAt me i f ps j keeps h p e = elim (Option-cases (get_elem? ps j)) [
  | inl gone ↦ absurd (ground (arith, e, gone, get_elem?-modify ps i j f))
  | inr (q, at) ↦ ground (arith, e, at, get_elem?-modify ps i j f, h q at, keeps q (h q at))
]

abbrev pub adopted : ℕ → Proc → Proc
adopted init q = record q { parent = some init }

adopt-NoChildAt :
    (me i : ℕ) (pt : Ptable) (j : ℕ)
    → me ≢ pt.initproc
    → (NoChildAt me pt.procs j) ⊎ (i ≡ j)
    → NoChildAt me (adopt me i (get_elem? pt.procs i) pt).procs j
adopt-NoChildAt me i pt j other h = elim (Option-cases (get_elem? pt.procs i)) [
  | inl gone ↦ rw gone (λ q e. elim h [
    | inl before ↦ before q e
    | inr same ↦ absurd (ground (arith, gone, e, same))
  ])
  | inr (p, at) ↦ rw at (elim (Bool-cases (is_child me p)) [
    | inr no_child ↦ rw no_child (λ q e. elim h [
      | inl before ↦ before q e
      | inr same ↦ ground (arith, at, e, same, no_child)
    ])
    | inl child ↦
        let moved : NoChildAt me (modify pt.procs i (adopted pt.initproc)) j = λ q e. elim h [
          | inl before ↦
              modify-NoChildAt me i (adopted pt.initproc) pt.procs j (λ r x. ground (arith, other))
                before q e
          | inr same ↦
              ground
                (arith, at, e, same, other, get_elem?-modify pt.procs i j (adopted pt.initproc))
        ] in
        elim (Bool-cases (is_state p.state State.zombie)) [
          | inl z ↦ rw (child, z) (wakeup1-NoChildAt me (at_proc pt.initproc) _ j moved)
          | inr nz ↦ rw (child, nz) moved
        ]
  ])
]

adopt-initproc :
    (me i : ℕ) (o : Option Proc) (pt : Ptable) → (adopt me i o pt).initproc ≡ pt.initproc
unfolding wakeup1
adopt-initproc me i none pt = refl
adopt-initproc me i (some p) pt = ground arith

reparent-NoChildAt :
    (me i n : ℕ) (pt : Ptable)
    → me ≢ pt.initproc
    → ((j : ℕ) → j < i → NoChildAt me pt.procs j)
    → (j : ℕ) → j < i + n
    → NoChildAt me (reparent me i n pt).procs j
unfolding reparent
reparent-NoChildAt me i zero pt other h j lt = h j (omega (arith, lt))
reparent-NoChildAt me i (suc n) pt other h j lt =
    reparent-NoChildAt me (i + 1) n (adopt me i (get_elem? pt.procs i) pt)
      (λ e. other (e ∙ adopt-initproc me i (get_elem? pt.procs i) pt))
      (λ k l. adopt-NoChildAt me i pt k other (elim (Bool-cases (i == k)) [
        | inl same ↦ inr (ground (arith, same))
        | inr differ ↦ inl (h k (ground (arith, l, differ)))
      ]))
      j (omega (arith, lt))

set_state-NoChildAt :
    (me : ℕ) (t : Ptr) (st : State) (pt : Ptable) (j : ℕ)
    → NoChildAt me pt.procs j
    → NoChildAt me (set_state t st pt).procs j
unfolding set_state modify_thread
set_state-NoChildAt me t st pt j h = modify-NoChildAt me t.proc _ pt.procs j (λ r x. x) h

wake_parent-initproc : (o : Option ℕ) (pt : Ptable) → (wake_parent o pt).initproc ≡ pt.initproc
unfolding wakeup1
wake_parent-initproc none pt = refl
wake_parent-initproc (some i) pt = refl

-- exit leaves no orphans: called by a thread of a process that is not init, the part of exit that
-- runs under the lock of the table does not panic, and afterwards none of the `n` entries that its
-- loop scans is a child of the process any more.
exit_adopts :
    (n : ℕ) (thread : Ptr) (pt : Ptable) {p : Proc}
    → get_elem? pt.procs thread.proc ≡ some p
    → thread.proc ≢ pt.initproc
    → (pt' : Ptable) × (exit_section n thread pt ≡ ok pt')
      × ((j : ℕ) → j < n → NoChildAt thread.proc pt'.procs j)
unfolding exit_section
exit_adopts n thread pt {p} here other =
    let me : ℕ = thread.proc in
    let differ : (thread.proc == pt.initproc) ≡ false = ground (arith, other) in
    let pt2 : Ptable = reparent me 0 n (wake_parent p.parent pt) in
    let pt3 : Ptable = record pt2 {
      procs =
          modify pt2.procs me
            (λ q. record q { killed = true; threads = end_others thread.slot 0 q.threads });
    } in
    let pt4 : Ptable = set_state thread State.zombie pt3 in
    let all : (j : ℕ) → j < n → NoChildAt me pt4.procs j = λ j lt.
      set_state-NoChildAt me thread State.zombie pt3 j (
        modify-NoChildAt me me _ pt2.procs j (λ r x. x)
          (reparent-NoChildAt me 0 n (wake_parent p.parent pt)
            (λ e. other (e ∙ wake_parent-initproc p.parent pt)) (λ k l. absurd (omega (arith, l))) j
            (omega (arith, lt)))) in
    elim (Bool-cases (proc_is_alive thread pt4)) [
      | inl alive ↦ (pt4, rw (here, differ, alive) refl, all)
      | inr dead ↦ (
        record pt4 { procs = modify pt4.procs me (λ q. record q { state = State.zombie }) },
        rw (here, differ, dead) refl,
        λ j lt. modify-NoChildAt me me _ pt4.procs j (λ r x. x) (all j lt),
      )
    ]
