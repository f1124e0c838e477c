-- ===== src/Proc/Join.antt =====
-- kthread.c: what kthread_join finds, and how it meets kthread_exit.
use os.Base.{
  ℕ, suc, ◌+◌, ◌==◌, ◌≡◌, ◌≢◌, ◌⊎◌, inl, inr, refl, true, Bool-cases, some, List, [], ◌∷◌, All,
  get_elem?, arith,
}
use os.Proc.Defs.{State, is_state, Thread}
use os.Proc.Life.{Scan, reap, wait_for, missing, join_scan}

-- The thread has another id, or has not exited.
abbrev pub Live : ℕ → Thread → Type 0
Live id t = (t.pid ≢ id) ⊎ (t.state ≢ State.zombie)

-- The thread has another id.
abbrev pub Other : ℕ → Thread → Type 0
Other id t = t.pid ≢ id

-- What a scan from index `i` on reports of the threads.
abbrev pub Scanned : ℕ → ℕ → List Thread → Scan → Scan → Type 0
Scanned id i ts last (reap k) =
    ((j : ℕ) × (t : Thread) × (k ≡ i + j)
      × (get_elem? ts j ≡ some t)
      × (t.pid ≡ id)
      × (t.state ≡ State.zombie))
    ⊎ ((last ≡ reap k) × All (Other id) ts)
Scanned id i ts last (wait_for k) =
    (((j : ℕ) × (t : Thread) × (k ≡ i + j) × (get_elem? ts j ≡ some t) × (t.pid ≡ id))
      × All (Live id) ts)
    ⊎ ((last ≡ wait_for k) × All (Other id) ts)
Scanned id i ts last missing = (last ≡ missing) × All (Other id) ts

Other-Live : (id : ℕ) (ts : List Thread) → All (Other id) ts → All (Live id) ts
Other-Live id [] h = tt
Other-Live id (t ∷ ts) h = (inl h.0, Other-Live id ts h.1)

-- A thread with another id in front changes nothing.
skip_other :
    (id i : ℕ) (t : Thread) (ts : List Thread) (last r : Scan)
    → t.pid ≢ id
    → Scanned id (i + 1) ts last r
    → Scanned id i (t ∷ ts) last r
skip_other id i t ts last (reap k) ne s = elim s [
  | inl (j, u, e, at, p, z) ↦ inl (suc j, u, omega arith, at, p, z)
  | inr (e, a) ↦ inr (e, (ne, a))
]
skip_other id i t ts last (wait_for k) ne s = elim s [
  | inl ((j, u, e, at, p), a) ↦ inl ((suc j, u, omega arith, at, p), (inl ne, a))
  | inr (e, a) ↦ inr (e, (ne, a))
]
skip_other id i t ts last missing ne s = (s.0, (ne, s.1))

-- Nor does a live thread with the id, but that it is remembered.
pass_live :
    (id i : ℕ) (t : Thread) (ts : List Thread) (last r : Scan)
    → t.pid ≡ id
    → t.state ≢ State.zombie
    → Scanned id (i + 1) ts (wait_for i) r
    → Scanned id i (t ∷ ts) last r
pass_live id i t ts last (reap k) same live s = elim s [
  | inl (j, u, e, at, p, z) ↦ inl (suc j, u, omega arith, at, p, z)
  | inr (e, a) ↦ absurd (ground arith)
]
pass_live id i t ts last (wait_for k) same live s = elim s [
  | inl ((j, u, e, at, p), a) ↦ inl ((suc j, u, omega arith, at, p), (inr live, a))
  | inr (e, a) ↦ inl ((0, t, ground arith, refl, same), (inr live, Other-Live id ts a))
]
pass_live id i t ts last missing same live s = absurd (ground (arith, s.0))

pub join_scan-Scanned :
    (id i : ℕ) (ts : List Thread) (last : Scan) → Scanned id i ts last (join_scan id i ts last)
unfolding join_scan
join_scan-Scanned id i [] (reap k) = inr (refl, tt)
join_scan-Scanned id i [] (wait_for k) = inr (refl, tt)
join_scan-Scanned id i [] missing = (refl, tt)
join_scan-Scanned id i (t ∷ ts) last = elim (Bool-cases (t.pid == id)) [
  | inr other ↦
      rw other (skip_other id i t ts last _ (ground arith) (join_scan-Scanned id (i + 1) ts last))
  | inl same ↦ elim (Bool-cases (is_state t.state State.zombie)) [
    | inl gone ↦
        rw (same, gone) (inl (0, t, omega arith, refl, ground arith, is_zombie t.state gone))
    | inr live ↦
        rw (same, live)
          (pass_live id i t ts last _ (ground arith) (λ z. ground arith)
            (join_scan-Scanned id (i + 1) ts (wait_for i)))
  ]
]
  where
    is_zombie : (s : State) → is_state s State.zombie ≡ true → s ≡ State.zombie
    is_zombie s h = ground arith
