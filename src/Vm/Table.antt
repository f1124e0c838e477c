-- ===== src/Vm/Table.antt =====
-- vm.c and mmu.h: page directories and page tables in the memory of kalloc.c. A pointer is its
-- virtual address in the kernel, and 0 is the null pointer.
use Prim.Native.Nat.{bit_and, bit_or}
use os.Base.{
  ℕ, zero, suc, ◌+◌, ◌-◌, ◌*◌, ◌/◌, ◌%◌, ◌^◌, ◌==◌, ltb, leb, Bool, true, false, ◌&&◌, not,
  if◌then◌else◌, List, [], ◌∷◌, length, take, drop, Result, ok, panic, fault, ◌>>=◌,
}
use os.Kalloc.Defs.{pgsize, kernbase, Kmem, v2p, store, kalloc}

-- p2v(a), an addition of `uint`
abbrev pub p2v : ℕ → ℕ
p2v a = (a + kernbase) % 2 ^ 32

-- PDX(va), PTX(va), PTE_ADDR(pte), PTE_FLAGS(pte), PGROUNDDOWN(a)
abbrev pub pdx : ℕ → ℕ
pdx va = va / 2 ^ 22 % 1024

abbrev pub ptx : ℕ → ℕ
ptx va = va / 2 ^ 12 % 1024

abbrev pub pte_addr : ℕ → ℕ
pte_addr pte = pte / pgsize * pgsize

abbrev pub pte_flags : ℕ → ℕ
pte_flags pte = pte % pgsize

abbrev pub pg_round_down : ℕ → ℕ
pg_round_down a = a / pgsize * pgsize

-- pte & PTE_P and pte & PTE_U
abbrev pub is_present : ℕ → Bool
is_present pte = pte % 2 == 1

abbrev pub is_user : ℕ → Bool
is_user pte = pte / 4 % 2 == 1

-- PTE_W, and PTE_W|PTE_U
abbrev pub pte_w : ℕ
pte_w = 2

abbrev pub pte_wu : ℕ
pte_wu = 6

-- memset(v, 0, PGSIZE)
abbrev pub blank : ℕ → (ℕ → ℕ) → ℕ → ℕ
blank v words a = if leb v a && ltb a (v + pgsize) then 0 else words a

-- walkpgdir with the page that kalloc gave for the page table; PTE_P | PTE_W | PTE_U is 7.
unfoldable pub new_table : ℕ → ℕ → ℕ × Kmem → ℕ × Kmem
new_table pde va (pgtab, k) = if pgtab == 0 then (0, k) else (
  pgtab + 4 * ptx va,
  record k { words = store pde (bit_or (v2p pgtab) 7) (blank pgtab k.words) },
)

-- The address of the entry for `va`, or 0.
unfoldable pub walkpgdir : ℕ → ℕ → Bool → Kmem → ℕ × Kmem
unfolding new_table
walkpgdir pgdir va alloc k =
    let pde : ℕ = pgdir + 4 * pdx va in
    if is_present (k.words pde)
    then (p2v (pte_addr (k.words pde)) + 4 * ptx va, k)
    else if alloc
    then new_table pde va (kalloc k)
    else (0, k)

-- A round of mappages: false when there is no memory for a page table.
unfoldable pub map_page : ℕ → ℕ → ℕ → ℕ → Kmem → Result (Bool × Kmem)
unfolding walkpgdir
map_page pgdir a pa perm k =
    let (pte, k') = walkpgdir pgdir a true k in
    if pte == 0
    then ok (false, k')
    else if is_present (k'.words pte)
    then panic "remap"
    else ok (true, record k' { words = store pte (bit_or (bit_or pa perm) 1) k'.words })

-- The loop of mappages, with fuel for the pages left.
unfoldable pub map_from : ℕ → ℕ → ℕ → ℕ → ℕ → ℕ → Kmem → Result (Bool × Kmem)
map_from zero pgdir a last pa perm k = fault
map_from (suc n) pgdir a last pa perm k = map_page pgdir a pa perm k >>= λ (good, k'). elim good [
  | false ↦ ok (false, k')
  | true ↦ elim (a == last) [
    | true ↦ ok (true, k')
    | false ↦ map_from n pgdir ((a + pgsize) % 2 ^ 32) last ((pa + pgsize) % 2 ^ 32) perm k'
  ]
]

unfoldable pub mappages : ℕ → ℕ → ℕ → ℕ → ℕ → Kmem → Result (Bool × Kmem)
unfolding map_from
mappages pgdir va size pa perm k =
    let a : ℕ = pg_round_down va in
    let last : ℕ = pg_round_down ((va + size + 2 ^ 32 - 1) % 2 ^ 32) in
    map_from ((last + 2 ^ 32 - a) % 2 ^ 32 / pgsize + 1) pgdir a last pa perm k

-- *pte &= ~PTE_U
unfoldable pub clearpteu : ℕ → ℕ → Kmem → Result Kmem
clearpteu pgdir uva k =
    let pte : ℕ = (walkpgdir pgdir uva false k).0 in
    if pte == 0
    then panic "clearpteu"
    else ok (record k { words = store pte (bit_and (k.words pte) 0xFFFFFFFB) k.words })

-- The entry is read without a test for the null pointer.
unfoldable pub uva2ka : ℕ → ℕ → Kmem → ℕ
uva2ka pgdir uva k =
    let pte : ℕ = k.words (walkpgdir pgdir uva false k).0 in
    if not (is_present pte) then 0 else if not (is_user pte) then 0 else p2v (pte_addr pte)

-- Bytes in the words of the memory, the lowest first.
abbrev pub byte_at : (ℕ → ℕ) → ℕ → ℕ
byte_at words a = words (a / 4 * 4) / 256 ^ (a % 4) % 256

abbrev pub put_byte : ℕ → ℕ → (ℕ → ℕ) → ℕ → ℕ
put_byte a x words =
    let w : ℕ = words (a / 4 * 4) in
    store (a / 4 * 4) (w - byte_at words a * 256 ^ (a % 4) + x * 256 ^ (a % 4)) words

-- memmove of the bytes of a buffer that is not in these pages.
unfoldable pub put_bytes : ℕ → List ℕ → (ℕ → ℕ) → ℕ → ℕ
put_bytes a [] words = words
put_bytes a (x ∷ xs) words = put_bytes (a + 1) xs (put_byte a x words)

-- The loop of copyout, with fuel for the bytes left. It is false on a page that the user has not.
unfoldable pub copy_from : ℕ → ℕ → ℕ → List ℕ → Kmem → Bool × Kmem
copy_from n pgdir va [] k = (true, k)
copy_from zero pgdir va (x ∷ xs) k = (false, k)
copy_from (suc n) pgdir va (x ∷ xs) k =
    let va0 : ℕ = pg_round_down va in
    let pa0 : ℕ = uva2ka pgdir va0 k in
    let m : ℕ = pgsize - (va - va0) in
    elim (pa0 == 0) [
      | true ↦ (false, k)
      | false ↦
          copy_from n pgdir ((va0 + pgsize) % 2 ^ 32) (drop m (x ∷ xs))
            (record k { words = put_bytes (pa0 + (va - va0)) (take m (x ∷ xs)) k.words })
    ]

unfoldable pub copyout : ℕ → ℕ → List ℕ → Kmem → Bool × Kmem
unfolding copy_from
copyout pgdir va buf k = copy_from (length buf) pgdir va buf k
