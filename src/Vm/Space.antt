-- ===== src/Vm/Space.antt =====
-- vm.c: the address spaces of the kernel and of processes. `data` is the address of the linker's
-- symbol. The messages of cprintf are not represented.
use os.Base.{
  ℕ, zero, suc, ◌+◌, ◌-◌, ◌*◌, ◌/◌, ◌%◌, ◌^◌, ◌==◌, ltb, leb, Bool, true, false, ◌&&◌, not,
  if◌then◌else◌, List, [], ◌∷◌, length, Result, ok, panic, ◌>>=◌,
}
use os.Kalloc.Defs.{pgsize, kernbase, phystop, Kmem, v2p, pg_round_up, store, kalloc, kfree}
use os.Vm.Table.{
  p2v, pte_addr, pte_flags, is_present, pte_w, pte_wu, blank, walkpgdir, mappages, put_bytes,
}

abbrev pub extmem : ℕ
extmem = 0x100000

abbrev pub devspace : ℕ
devspace = 0xFE000000

abbrev pub npdentries : ℕ
npdentries = 1024

abbrev pub nptentries : ℕ
nptentries = 1024

-- `struct kmap`
pub record Kmap : Type 0 where
  pub virt : ℕ
  pub phys_start : ℕ
  pub phys_end : ℕ
  pub perm : ℕ

-- `kmap`; KERNLINK is KERNBASE + EXTMEM.
abbrev pub kmap : ℕ → List Kmap
kmap data' =
    record { virt = kernbase; phys_start = 0; phys_end = extmem; perm = pte_w }
    ∷ record {
      virt = kernbase + extmem;
      phys_start = v2p (kernbase + extmem);
      phys_end = v2p data';
      perm = 0;
    }
    ∷ record { virt = data'; phys_start = v2p data'; phys_end = phystop; perm = pte_w }
    ∷ record { virt = devspace; phys_start = devspace; phys_end = 0; perm = pte_w }
    ∷ []

-- The loop of setupkvm.
unfoldable pub map_kernel : ℕ → List Kmap → Kmem → Result (Bool × Kmem)
map_kernel pgdir [] k = ok (true, k)
map_kernel pgdir (m ∷ ms) k =
    mappages pgdir m.virt ((m.phys_end + 2 ^ 32 - m.phys_start) % 2 ^ 32) m.phys_start m.perm k
    >>= λ (good, k'). elim good [ true ↦ map_kernel pgdir ms k' | false ↦ ok (false, k') ]

-- The page directory, or 0.
unfoldable pub setupkvm : ℕ → Kmem → Result (ℕ × Kmem)
unfolding map_kernel
setupkvm data' k =
    let (pgdir, k1) = kalloc k in
    if pgdir == 0
    then ok (0, k1)
    else if ltb devspace (p2v phystop)
    then panic "PHYSTOP too high"
    else (map_kernel pgdir (kmap data') (record k1 { words = blank pgdir k1.words })
        >>= λ (good, k2). ok ((if good then pgdir else 0), k2))

-- The bytes of `init` go to a fresh page at address 0; neither kalloc nor mappages is tested.
unfoldable pub inituvm : ℕ → List ℕ → Kmem → Result Kmem
unfolding mappages
inituvm pgdir init k =
    if leb pgsize (length init)
    then panic "inituvm: more than a page"
    else (let (mem, k1) = kalloc k in
        mappages pgdir 0 pgsize (v2p mem) pte_wu (record k1 { words = blank mem k1.words })
        >>= λ (_, k2). ok (record k2 { words = put_bytes mem init k2.words }))

-- A round of deallocuvm at a page that has an entry.
unfoldable pub drop_page : ℕ → Kmem → Result Kmem
drop_page pte k =
    if not (is_present (k.words pte))
    then ok k
    else if pte_addr (k.words pte) == 0
    then panic "kfree"
    else (kfree (p2v (pte_addr (k.words pte))) k >>= λ k'.
        ok (record k' { words = store pte 0 k'.words }))

-- The loop of deallocuvm, with fuel for the pages left.
unfoldable pub dealloc_from : ℕ → ℕ → ℕ → ℕ → Kmem → Result Kmem
dealloc_from zero pgdir a oldsz k = ok k
dealloc_from (suc n) pgdir a oldsz k = elim (ltb a oldsz) [
  | false ↦ ok k
  | true ↦ elim ((walkpgdir pgdir a false k).0 == 0) [
    | true ↦
        dealloc_from n pgdir (((a + (nptentries - 1) * pgsize) % 2 ^ 32 + pgsize) % 2 ^ 32) oldsz k
    | false ↦ drop_page (walkpgdir pgdir a false k).0 k >>= λ k'.
        dealloc_from n pgdir ((a + pgsize) % 2 ^ 32) oldsz k'
  ]
]

unfoldable pub deallocuvm : ℕ → ℕ → ℕ → Kmem → Result (ℕ × Kmem)
deallocuvm pgdir oldsz newsz k =
    if leb oldsz newsz
    then ok (oldsz, k)
    else (dealloc_from (oldsz / pgsize + 1) pgdir (pg_round_up newsz % 2 ^ 32) oldsz k >>= λ k'.
        ok (newsz, k'))

-- The loop of allocuvm, with fuel for the pages left. The result of mappages is not tested.
unfoldable pub alloc_from : ℕ → ℕ → ℕ → ℕ → ℕ → Kmem → Result (ℕ × Kmem)
alloc_from zero pgdir a oldsz newsz k = ok (newsz, k)
alloc_from (suc n) pgdir a oldsz newsz k = elim (ltb a newsz) [
  | false ↦ ok (newsz, k)
  | true ↦ elim ((kalloc k).0 == 0) [
    | true ↦ deallocuvm pgdir newsz oldsz (kalloc k).1 >>= λ (_, k2). ok (0, k2)
    | false ↦
        mappages pgdir a pgsize (v2p (kalloc k).0) pte_wu
          (record (kalloc k).1 { words = blank (kalloc k).0 (kalloc k).1.words })
        >>= λ (_, k2). alloc_from n pgdir (a + pgsize) oldsz newsz k2
  ]
]

unfoldable pub allocuvm : ℕ → ℕ → ℕ → Kmem → Result (ℕ × Kmem)
allocuvm pgdir oldsz newsz k =
    if leb kernbase newsz
    then ok (0, k)
    else if ltb newsz oldsz
    then ok (oldsz, k)
    else alloc_from (newsz / pgsize + 1) pgdir (pg_round_up oldsz) oldsz newsz k

-- The loop of freevm over the page tables.
unfoldable pub free_tables : ℕ → ℕ → ℕ → Kmem → Result Kmem
free_tables zero i pgdir k = ok k
free_tables (suc n) i pgdir k = elim (is_present (k.words (pgdir + 4 * i))) [
  | true ↦
      kfree (p2v (pte_addr (k.words (pgdir + 4 * i)))) k >>= λ k'. free_tables n (i + 1) pgdir k'
  | false ↦ free_tables n (i + 1) pgdir k
]

unfoldable pub freevm : ℕ → Kmem → Result Kmem
freevm pgdir k =
    if pgdir == 0
    then panic "freevm: no pgdir"
    else (deallocuvm pgdir kernbase 0 k >>= λ (_, k1).
        free_tables npdentries 0 pgdir k1 >>= λ k2. kfree pgdir k2)

-- memmove(mem, v, PGSIZE)
abbrev pub copy_page : ℕ → ℕ → (ℕ → ℕ) → ℕ → ℕ
copy_page mem v words a =
    if leb mem a && ltb a (mem + pgsize) then words (v + (a - mem)) else words a

-- The loop of copyuvm, with fuel for the pages left: false when the memory runs out.
unfoldable pub copy_pages : ℕ → ℕ → ℕ → ℕ → ℕ → Kmem → Result (Bool × Kmem)
copy_pages zero d pgdir i sz k = ok (true, k)
copy_pages (suc n) d pgdir i sz k = elim (ltb i sz) [
  | false ↦ ok (true, k)
  | true ↦
      let pte : ℕ = (walkpgdir pgdir i false k).0 in
      let e : ℕ = k.words pte in
      elim (pte == 0) [
        | true ↦ panic "copyuvm: pte should exist"
        | false ↦ elim (is_present e) [
          | false ↦ panic "copyuvm: page not present"
          | true ↦ elim ((kalloc k).0 == 0) [
            | true ↦ ok (false, (kalloc k).1)
            | false ↦
                mappages d i pgsize (v2p (kalloc k).0) (pte_flags e) (record (kalloc k).1 {
                  words = copy_page (kalloc k).0 (p2v (pte_addr e)) (kalloc k).1.words;
                })
                >>= λ (good, k2). elim good [
                  | true ↦ copy_pages n d pgdir ((i + pgsize) % 2 ^ 32) sz k2
                  | false ↦ ok (false, k2)
                ]
          ]
        ]
      ]
]

-- The page directory of the copy, or 0.
unfoldable pub copyuvm : ℕ → ℕ → ℕ → Kmem → Result (ℕ × Kmem)
copyuvm data' pgdir sz k = setupkvm data' k >>= λ (d, k1).
    if d == 0
    then ok (0, k1)
    else (copy_pages (sz / pgsize + 1) d pgdir 0 sz k1 >>= λ (good, k2).
        if good then ok (d, k2) else (freevm d k2 >>= λ k3. ok (0, k3)))
