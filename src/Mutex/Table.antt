-- ===== src/Mutex/Table.antt =====
-- kthread_mutex_alloc and kthread_mutex_dealloc on a valid table.
use os.Base.{
  ℕ, zero, suc, ◌+◌, ◌≡◌, refl, ap, subst, ◌⊎◌, inl, inr, false, Bool-cases, some, List, [], ◌∷◌,
  length, get_elem?, set, take, All, arith, ℤ, pos, minus_one, eqz,
}
use mathlib.Core.Option.{some-injective}
use os.Mutex.Defs.{
  MutexState, unused_mutex, used_mutex, Mutex, Kernel, alloced, alloc_from, mutex_alloc, deallocd,
  dealloc_from, mutex_dealloc,
}
use os.Mutex.Inv.{waiters, IsValid, AllValid, KValid, KValid-get, KValid-set}

abbrev pub IsUsed : Mutex → Type 0
IsUsed m = m.state ≡ used_mutex

pub state_cases : (s : MutexState) → (s ≡ unused_mutex) ⊎ (s ≡ used_mutex)
state_cases unused_mutex = inl refl
state_cases used_mutex = inr refl

pub alloced-IsValid :
    {i : ℕ} (m : Mutex) → IsValid i m → m.state ≡ unused_mutex → IsValid i (alloced i m)
alloced-IsValid {i} m v free = record {
  size = v.size;
  packed = v.packed;
  front = refl;
  back = omega (arith, ap length nobody);
  id_known = inr (inr refl);
  owned = (refl, refl);
  quiet = v.quiet;
}
  where
    not_locked : m.locked ≡ false
    not_locked = rw free at v.owned

    nobody : waiters m ≡ []
    nobody = rw not_locked at v.quiet

pub deallocd-IsValid : {i : ℕ} (m : Mutex) → IsValid i m → m.locked ≡ false → IsValid i (deallocd m)
deallocd-IsValid m v free = record {
  size = v.size;
  packed = v.packed;
  front = v.front;
  back = v.back;
  id_known = inr (inl refl);
  owned = free;
  quiet = v.quiet;
}

-- What the search for a free entry finds, from index `i` on.
abbrev pub Found : ℕ → List Mutex → ℤ × List Mutex → Type 0
Found i ms (r, ms') =
    ((r ≡ minus_one) × (ms' ≡ ms) × All IsUsed ms)
    ⊎ ((j : ℕ) × (m : Mutex) × (r ≡ pos (i + j))
        × (get_elem? ms j ≡ some m)
        × (m.state ≡ unused_mutex)
        × All IsUsed (take j ms)
        × (ms' ≡ set ms j (alloced (i + j) m)))

alloc_from-Found : (i : ℕ) (ms : List Mutex) → Found i ms (alloc_from i ms)
unfolding alloc_from
alloc_from-Found i [] = inl (refl, refl, tt)
alloc_from-Found i (m ∷ ms) = elim (state_cases m.state) [
  | inl free ↦
      let s : i + 0 ≡ i = omega arith in
      inr (0, m, rw (free, s) refl, refl, free, tt, ground (arith, free, s))
  | inr used ↦ elim (alloc_from-Found (i + 1) ms) [
    | inl (r, same, all) ↦ inl (ground (arith, used), ground (arith, used), (used, all))
    | inr (j, m', r, at, free, before, out) ↦
        let s : i + suc j ≡ i + 1 + j = omega arith in
        inr (suc j, m', rw (used, s) r, at, free, (used, before), ground (arith, used, s, out))
  ]
]

-- kthread_mutex_alloc returns the lowest index whose entry is free, marks that entry used under
-- this id and leaves the others alone; it returns -1 with nothing changed exactly when every
-- entry is used.
mutex_alloc-Found : (k : Kernel) → Found 0 k.mutexes ((mutex_alloc k).0, (mutex_alloc k).1.mutexes)
unfolding mutex_alloc
mutex_alloc-Found k = alloc_from-Found 0 k.mutexes

dealloc_from_used :
    (i n : ℕ) (ms : List Mutex) (j : ℕ) {m : Mutex}
    → n ≡ i + j
    → AllValid i ms
    → get_elem? ms j ≡ some m
    → m.state ≡ used_mutex
    → m.locked ≡ false
    → dealloc_from (pos n) ms ≡ (pos 0, set ms j (deallocd m))
unfolding dealloc_from
dealloc_from_used i n [] j s v e used free = cc
dealloc_from_used i n (x ∷ ms) zero {m} s v e used free =
    let same : x ≡ m = some-injective _ _ e in
    let own : m.id ≡ pos i = (rw used at (subst (λ y. IsValid i y) same v.0).owned).0 in
    ground (arith, same, own)
dealloc_from_used i n (x ∷ ms) (suc j) s v e used free =
    ground (arith, v.0.id_known, dealloc_from_used (i + 1) n ms j (omega arith) v.1 e used free)

-- In a valid table an entry that is used and not locked is freed by its index, and only that entry
-- changes.
pub dealloc-free :
    (k : Kernel) (j : ℕ) {m : Mutex}
    → KValid k
    → get_elem? k.mutexes j ≡ some m
    → m.state ≡ used_mutex
    → m.locked ≡ false
    → mutex_dealloc (pos j) k ≡ (pos 0, record k { mutexes = set k.mutexes j (deallocd m) })
unfolding mutex_dealloc
dealloc-free k j valid here used free =
    ground (arith, dealloc_from_used 0 j k.mutexes j (omega arith) valid here used free)

-- What a dealloc may do to a list: nothing, with -1, or free one entry that is used and not locked.
abbrev pub Freed : List Mutex → ℤ × List Mutex → Type 0
Freed ms (r, ms') =
    ((r ≡ minus_one) × (ms' ≡ ms))
    ⊎ ((j : ℕ) × (m : Mutex) × (r ≡ pos 0)
        × (get_elem? ms j ≡ some m)
        × (m.state ≡ used_mutex)
        × (m.locked ≡ false)
        × (ms' ≡ set ms j (deallocd m)))

dealloc_from-Freed : (id : ℤ) (ms : List Mutex) → Freed ms (dealloc_from id ms)
unfolding dealloc_from
dealloc_from-Freed id [] = inl (refl, refl)
dealloc_from-Freed id (m ∷ ms) = elim (Bool-cases (eqz m.id id)) [
  | inl this ↦ elim (state_cases m.state) [
    | inl unused ↦ inl (ground (arith, this, unused), ground (arith, this, unused))
    | inr used ↦ elim (Bool-cases m.locked) [
      | inl held ↦ inl (ground (arith, this, used, held), ground (arith, this, used, held))
      | inr free ↦ inr (
        0,
        m,
        ground (arith, this, used, free),
        refl,
        used,
        free,
        ground (arith, this, used, free),
      )
    ]
  ]
  | inr other ↦ elim (dealloc_from-Freed id ms) [
    | inl (r, same) ↦ inl (ground (arith, other, r), ground (arith, other, same))
    | inr (j, m', r, at, used, free, out) ↦
        inr (suc j, m', ground (arith, other, r), at, used, free, ground (arith, other, out))
  ]
]

-- Whatever the id, kthread_mutex_dealloc never frees a mutex that is locked.
mutex_dealloc-Freed :
    (id : ℤ) (k : Kernel) → Freed k.mutexes ((mutex_dealloc id k).0, (mutex_dealloc id k).1.mutexes)
unfolding mutex_dealloc
mutex_dealloc-Freed id k = dealloc_from-Freed id k.mutexes

-- Both keep the table valid.
pub mutex_alloc-KValid : (k : Kernel) → KValid k → KValid (mutex_alloc k).1
mutex_alloc-KValid k v = elim (mutex_alloc-Found k) [
  | inl (_, same, _) ↦ rw same v
  | inr (j, m, _, at, free, _, out) ↦
      let s : 0 + j ≡ j = omega arith in
      rw (out, s) (KValid-set k.mutexes j _ v (alloced-IsValid m (KValid-get k j v at) free))
]

pub mutex_dealloc-KValid : (id : ℤ) (k : Kernel) → KValid k → KValid (mutex_dealloc id k).1
mutex_dealloc-KValid id k v = elim (mutex_dealloc-Freed id k) [
  | inl (_, same) ↦ rw same v
  | inr (j, m, _, at, _, free, out) ↦
      rw out (KValid-set k.mutexes j _ v (deallocd-IsValid m (KValid-get k j v at) free))
]
