-- ===== src/Vm/Tests.antt =====
-- vm.c on small memories: the page directory and the free pages stand behind the kernel.
use os.Base.{
  zero, suc, subst, sym, ap, ◌∙◌, ◌≢◌, some, ℕ, ◌+◌, ◌-◌, ◌*◌, ◌/◌, ◌<◌, ◌==◌, ◌≡◌, refl, true,
  false, none, [], ◌∷◌, arith, ok, if◌then◌else◌,
}
use os.Kalloc.Defs.{v2p, Kmem, kernbase, pgsize, pg_round_up}
use os.Kalloc.Chain.{IsPage}
use os.Vm.Table.{copyout, mappages, pg_round_down, is_present, pdx}
use os.Vm.Space.{allocuvm}
use os.Vm.View.{IsDir, table_at, lookup, Space, HasTable}
use os.Vm.Frame.{lookup_absent}
use os.Vm.Bytes.{Small}
use os.Vm.Part.{UserPages, Copied}
use os.Vm.Copy.{copyout-Copied}
use os.Vm.Range.{Ran, mappages-Ran}
use os.Vm.Grow.{Grown, allocuvm-Grown, allocuvm_unmapped}

abbrev dir : ℕ
dir = kernbase + 0x200000

abbrev p1 : ℕ
p1 = kernbase + 0x201000

abbrev p2 : ℕ
p2 = kernbase + 0x202000

-- A blank memory, with the free list `p1`, `p2`.
abbrev links : ℕ → ℕ
links a = if a == p1 then p2 else 0

abbrev mem2 : Kmem
mem2 = record { words = links; freelist = p1; use_lock = true; end = kernbase + 0x100000 }

abbrev mem1 : Kmem
mem1 = record { words = λ a. 0; freelist = p1; use_lock = true; end = kernbase + 0x100000 }

page_at : (i : ℕ) → i < 3 → IsPage (kernbase + 0x100000) (dir + i * pgsize)
page_at i lt = record {
  aligned = omega arith;
  above = omega arith;
  kernel = omega arith;
  below = omega (arith, lt);
}

no_tables : (d : ℕ) → d < 1024 → is_present (links (dir + 4 * d)) ≡ false
no_tables d lt = ground (arith, lt)

no_table : (d : ℕ) → d < 1024 → HasTable links dir d → ⊥
no_table d lt h = ground (arith, lt, h)

space2 : Space dir mem2 (p1 ∷ p2 ∷ [])
space2 = (
  record {
    dir = page_at 0 (omega arith);
    dir_used = (omega arith, (omega arith, tt));
    table = λ d lt h. absurd (no_table d lt h);
    table_used = λ d lt h. absurd (no_table d lt h);
    table_own = λ d lt h. absurd (no_table d lt h);
    apart = λ d e lt lt' h h' ne. absurd (no_table d lt h);
  },
  (refl, page_at 1 (omega arith), (omega arith, tt), (refl, page_at 2 (omega arith), tt, refl)),
)

space1 : Space dir mem1 (p1 ∷ [])
space1 = (
  record {
    dir = page_at 0 (omega arith);
    dir_used = (omega arith, tt);
    table = λ d lt h. ground (arith, h);
    table_used = λ d lt h. absurd (ground (arith, h));
    table_own = λ d lt h. absurd (ground (arith, h));
    apart = λ d e lt lt' h h' ne. absurd (ground (arith, h));
  },
  (refl, page_at 1 (omega arith), tt, refl),
)

mappages-Ran_example :
    Ran dir
      (pg_round_down 4100)
      ((4100 + 5000 - 1) / pgsize - 4100 / pgsize)
      0x300000
      6
      mem2
      (mappages dir 4100 5000 0x300000 6 mem2)
mappages-Ran_example =
    mappages-Ran dir 4100 5000 0x300000 6 mem2 (p1 ∷ p2 ∷ []) (omega arith) (omega arith)
      (omega arith) space2

allocuvm-Grown_example :
    (k' : Kmem) × (allocuvm dir 4000 8000 mem2 ≡ ok (8000, k'))
    × Grown dir (pg_round_up 4000) (pg_round_up 8000 / pgsize - pg_round_up 4000 / pgsize) mem2 k'
allocuvm-Grown_example =
    allocuvm-Grown dir 4000 8000 mem2 (p1 ∷ p2 ∷ []) (omega arith) (omega arith) (omega arith)
      (λ i lt.
        lookup_absent links dir (4096 + i * pgsize)
          (no_tables (pdx (4096 + i * pgsize)) (omega arith)))
      space2

allocuvm_unmapped_example :
    (k' : Kmem) × (allocuvm dir 0 100 mem1 ≡ ok (100, k'))
    × (lookup k'.words dir (pg_round_up 0) ≡ none)
    × Space dir k' []
allocuvm_unmapped_example =
    allocuvm_unmapped dir 0 100 p1 mem1 (omega arith) (omega arith) (omega arith) refl space1

-- The page 1 of the user stands in the page `p2`, by the page table in `p1`.
abbrev user_words : ℕ → ℕ
user_words a = if a == dir then v2p p1 + 7 else if a == p1 + 4 then v2p p2 + 7 else 0

abbrev mem_user : Kmem
mem_user = record { words = user_words; freelist = 0; use_lock = true; end = kernbase + 0x100000 }

one_table : (d : ℕ) → d < 1024 → HasTable user_words dir d → d ≡ 0
one_table d lt h = ground (arith, lt, h)

user_dir : IsDir (kernbase + 0x100000) dir user_words []
user_dir = record {
  dir = page_at 0 (omega arith);
  dir_used = tt;
  table = λ d lt h.
      subst (λ d. IsPage (kernbase + 0x100000) (table_at user_words dir d)) (sym (one_table d lt h))
        (page_at 1 (omega arith));
  table_used = λ d lt h. tt;
  table_own =
      λ d lt h. subst (λ d. table_at user_words dir d ≢ dir) (sym (one_table d lt h)) (omega arith);
  apart = λ d e lt lt' h h' ne. absurd (ne (one_table d lt h ∙ sym (one_table e lt' h')));
}

page_one : lookup user_words dir 4096 ≡ some (v2p p2 + 7)
unfolding lookup
page_one = refl

user_pages : UserPages (kernbase + 0x100000) dir (λ p. p2) 1 1 user_words
user_pages = record {
  mapped = λ p lp ph. (v2p p2 + 7, ap (lookup user_words dir) (omega arith) ∙ page_one, refl, refl);
  page = λ p lp ph. page_at 2 (omega arith);
  not_dir = λ p lp ph. omega arith;
  not_table = λ p d lp ph lt h.
      subst (λ d. table_at user_words dir d ≢ p2) (sym (one_table d lt h)) (omega arith);
  apart = λ p q lp pq qh. absurd (omega arith);
}

letters : Small (b'h' ∷ b'i' ∷ [])
letters zero = omega arith
letters (suc zero) = omega arith
letters (suc (suc i)) = omega arith

copyout-Copied_example :
    (w : ℕ → ℕ) × (copyout dir 5000 (b'h' ∷ b'i' ∷ []) mem_user
      ≡ (true, record mem_user { words = w }))
    × Copied (λ p. p2) 5000 (b'h' ∷ b'i' ∷ []) user_words w
copyout-Copied_example =
    copyout-Copied dir 5000 (λ p. p2) (b'h' ∷ b'i' ∷ []) mem_user [] (omega arith) (omega arith)
      letters user_dir user_pages
