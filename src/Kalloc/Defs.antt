-- ===== src/Kalloc/Defs.antt =====
-- kalloc.c over a memory of 32-bit words. The lock of `kmem` is not represented: each function
-- below is the code that runs while it is held.
use os.Base.{
  ℕ, zero, suc, ◌+◌, ◌-◌, ◌*◌, ◌/◌, ◌%◌, ◌^◌, ◌==◌, ltb, leb, not, Bool, true, false, ◌&&◌, ◌||◌,
  if◌then◌else◌, Result, ok, panic, ◌>>=◌,
}

abbrev pub pgsize : ℕ
pgsize = 4096

abbrev pub kernbase : ℕ
kernbase = 0x80000000

abbrev pub phystop : ℕ
phystop = 0xE000000

-- `words a` is the word at address `a`; `end` is the first address after the kernel.
pub record Kmem : Type 0 where
  pub words : ℕ → ℕ
  pub freelist : ℕ
  pub use_lock : Bool
  pub end : ℕ

-- PGROUNDUP(a) = (a + PGSIZE - 1) & ~(PGSIZE - 1)
abbrev pub pg_round_up : ℕ → ℕ
pg_round_up a = (a + pgsize - 1) / pgsize * pgsize

-- v2p(v), a subtraction of `uint`
abbrev pub v2p : ℕ → ℕ
v2p v = (v + 2 ^ 32 - kernbase) % 2 ^ 32

-- memset(v, 1, PGSIZE)
abbrev pub junk : ℕ → (ℕ → ℕ) → ℕ → ℕ
junk v words a = if leb v a && ltb a (v + pgsize) then 0x01010101 else words a

abbrev pub store : ℕ → ℕ → (ℕ → ℕ) → ℕ → ℕ
store v x words a = if a == v then x else words a

unfoldable pub kfree : ℕ → Kmem → Result Kmem
kfree v k =
    if not (v % pgsize == 0) || ltb v k.end || leb phystop (v2p v)
    then panic "kfree"
    else ok (record k { words = store v k.freelist (junk v k.words); freelist = v })

-- The page, or 0 when there is none.
unfoldable pub kalloc : Kmem → ℕ × Kmem
kalloc k =
    if k.freelist == 0 then (0, k) else (k.freelist, record k { freelist = k.words k.freelist })

-- The loop of freerange at `p`, with fuel for the pages left.
unfoldable pub free_from : ℕ → ℕ → ℕ → Kmem → Result Kmem
free_from zero p vend k = ok k
free_from (suc fuel) p vend k =
    let rest = kfree p k >>= λ k'. free_from fuel (p + pgsize) vend k' in
    if leb (p + pgsize) vend then rest else ok k

unfoldable pub freerange : ℕ → ℕ → Kmem → Result Kmem
unfolding free_from
freerange vstart vend k = free_from (vend / pgsize + 1) (pg_round_up vstart) vend k

unfoldable pub kinit1 : ℕ → ℕ → Kmem → Result Kmem
kinit1 vstart vend k = freerange vstart vend (record k { use_lock = false })

unfoldable pub kinit2 : ℕ → ℕ → Kmem → Result Kmem
kinit2 vstart vend k = do k' ← freerange vstart vend k; ok (record k' { use_lock = true })
