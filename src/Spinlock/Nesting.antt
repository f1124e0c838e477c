-- ===== src/Spinlock/Nesting.antt =====
-- spinlock.c: critical sections and their nesting.
use os.Base.{
  ℕ, zero, suc, ◌+◌, ◌<◌, ◌==◌, ◌≡◌, ◌≢◌, refl, subst, true, false, none, some, Result, ok, panic,
  ◌>>=◌, arith,
}
use os.Spinlock.Defs.{Cpu, Spinlock, pushcli, popcli, taken, spins, holding, acquire, release}

-- Inside a critical section interrupts are off.
abbrev pub Quiet : Cpu → Type 0
Quiet p = 0 < p.ncli → p.interrupts ≡ false

-- `n` nested calls of pushcli, and of popcli.
unfoldable pub pushes : ℕ → Cpu → Cpu
pushes zero p = p
pushes (suc n) p = pushcli (pushes n p)

unfoldable pub pops : ℕ → Cpu → Result Cpu
pops zero p = ok p
pops (suc n) p = popcli p >>= λ q. pops n q

pushes-ncli : (n : ℕ) (p : Cpu) → (pushes n p).ncli ≡ n + p.ncli
unfolding pushes pushcli
pushes-ncli zero p = omega arith
pushes-ncli (suc n) p = omega (arith, pushes-ncli n p)

pushes-Quiet : (n : ℕ) (p : Cpu) → Quiet p → Quiet (pushes n p)
unfolding pushes pushcli
pushes-Quiet zero p q = q
pushes-Quiet (suc n) p q = λ h. refl

popcli-pushcli : (p : Cpu) → Quiet p → 0 < p.ncli → popcli (pushcli p) ≡ ok p
unfolding popcli pushcli
popcli-pushcli p q h = ground (arith, q h, h)

popcli-pushcli_outer :
    (p : Cpu) → p.ncli ≡ 0 → popcli (pushcli p) ≡ ok (record p { intena = p.interrupts })
unfolding popcli pushcli
popcli-pushcli_outer p h = ground (arith, h)

-- pushcli and popcli are matched: outside a critical section, as many calls of popcli as there
-- were calls of pushcli, at least one, do not panic and give the interrupt flag and the depth of
-- the nesting back.
pops-pushes :
    (n : ℕ) (p : Cpu)
    → p.ncli ≡ 0
    → pops (n + 1) (pushes (n + 1) p) ≡ ok (record p { intena = p.interrupts })
unfolding pushes pops
pops-pushes n p h =
    let next : suc n ≡ n + 1 = omega arith in
    subst (λ k. pops k (pushes k p) ≡ ok (record p { intena = p.interrupts })) next (go n)
  where
    go : (n : ℕ) → pops (suc n) (pushes (suc n) p) ≡ ok (record p { intena = p.interrupts })
    go zero = rw (popcli-pushcli_outer p h) refl
    go (suc n) =
        let deep : 0 < (pushes (suc n) p).ncli = omega (arith, pushes-ncli (suc n) p) in
        rw
          (popcli-pushcli (pushes (suc n) p)
            (pushes-Quiet (suc n) p (λ z. absurd (omega (arith, z, h)))) deep)
          (go n)

-- A lock excludes the other processors. When processor `c`, outside a critical section, has taken
-- a lock that nobody held, another processor spins on it with interrupts off, and cannot release
-- it; `c` itself panics if it takes the lock again, and its release frees the lock and gives its
-- interrupt flag back.
pub acquire_excludes :
    (c d : ℕ) (p r : Cpu) (lk : Spinlock)
    → c ≢ d
    → p.ncli ≡ 0
    → lk.locked ≡ false
    → (lk' : Spinlock) × (p' : Cpu) × (acquire c p lk ≡ ok (taken lk', p'))
      × (p'.interrupts ≡ false)
      × (acquire d r lk' ≡ ok (spins, pushcli r))
      × (release d r lk' ≡ panic "release")
      × (acquire c p' lk' ≡ panic "acquire")
      × (release c p' lk'
          ≡ ok (record { locked = false; cpu = none }, record p { intena = p.interrupts }))
unfolding acquire release holding pushcli
acquire_excludes c d p r lk differ outer free =
    let other : (c == d) ≡ false = ground (arith, differ) in
    let same : (c == c) ≡ true = ground arith in
    (
      record { locked = true; cpu = some c },
      pushcli p,
      rw free refl,
      refl,
      rw other refl,
      rw other refl,
      rw same refl,
      rw (same, popcli-pushcli_outer p outer) refl,
    )
