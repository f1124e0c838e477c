-- ===== src/Vm/Grow.antt =====
-- vm.c: allocuvm, with memory and without.

use os.Base.{
  ℕ, zero, suc, ◌+◌, ◌-◌, ◌*◌, ◌/◌, ◌%◌, ◌^◌, ◌<◌, ◌≤◌, ◌≡◌, ◌⊎◌, inl, inr, refl, ap, subst, ◌∙◌,
  false, none, List, [], ◌∷◌, length, arith, ℕ_discrete, ok,
}
use os.Kalloc.Defs.{pgsize, kernbase, v2p, pg_round_up, Kmem}
use os.Kalloc.Chain.{IsPage}
use os.Vm.Table.{pdx, is_present, pte_wu, mappages}
use os.Vm.Space.{alloc_from, allocuvm}
use os.Vm.View.{lookup, Space}
use os.Vm.Frame.{lookup_absent}
use os.Vm.Map.{blanked, Space-blanked, lookup-blanked, same_dir, Placed}
use os.Vm.Round.{one_round, page_full, UserPage, alloc_step, alloc_round}
use os.Vm.Range.{round_out}

-- `n` pages from `a` on were given to the user, and the rest of the space is as before.
pub record Grown (pgdir a n : ℕ) (k k' : Kmem) : Type 0 where
  pub free : List ℕ
  pub space : Space pgdir k' free
  pub same_end : k'.end ≡ k.end
  pub given : (i : ℕ) → i < n → UserPage k.end pgdir k' (a + i * pgsize)
  pub outside :
      (va : ℕ)
      → va < 2 ^ 32
      → (va / pgsize < a / pgsize) ⊎ (a / pgsize + n ≤ va / pgsize)
      → lookup k'.words pgdir va ≡ lookup k.words pgdir va

module _ (pgdir oldsz newsz : ℕ) (below : newsz < kernbase) where
  alloc_stop :
      (f a : ℕ) (k : Kmem) → newsz ≤ a → alloc_from (suc f) pgdir a oldsz newsz k ≡ ok (newsz, k)
  unfolding alloc_from
  alloc_stop f a k le = ground (arith, le)

  no_rounds : (a : ℕ) (k : Kmem) → alloc_from zero pgdir a oldsz newsz k ≡ ok (newsz, k)
  unfolding alloc_from
  no_rounds a k = refl

  alloc_past : (f a : ℕ) (k : Kmem) → newsz ≤ a → alloc_from f pgdir a oldsz newsz k ≡ ok (newsz, k)
  alloc_past zero a k le = no_rounds a k
  alloc_past (suc f) a k le = alloc_stop f a k le

  Grown-none : (a : ℕ) (k : Kmem) (pages : List ℕ) → Space pgdir k pages → Grown pgdir a 0 k k
  Grown-none a k pages space = record {
    free = pages;
    space = space;
    same_end = refl;
    given = λ i none_left. absurd (omega (arith, none_left));
    outside = λ va lt side. refl;
  }

  Grown-more :
      (n a v : ℕ) (k k1 k' : Kmem) (pages left : List ℕ)
      → a % pgsize ≡ 0
      → a + suc n * pgsize < newsz + pgsize
      → IsPage k.end v
      → Placed pgdir a (v2p v + 7) k k1 pages left
      → Grown pgdir (a + pgsize) n k1 k'
      → Grown pgdir a (suc n) k k'
  Grown-more n a v k k1 k' pages left al fits page p g = record {
    free = g.free;
    space = g.space;
    same_end = g.same_end ∙ p.same_end;
    given = λ i lt. elim (ℕ_discrete i 0) [
      | yes first ↦ (
        v,
        page,
        ap (lookup k'.words pgdir) (omega (arith, first))
            ∙ g.outside a (omega (arith, fits, below)) (inl (omega (arith, al)))
            ∙ p.here,
      )
      | no later ↦
          let (u, u-page, at) = g.given (i - 1) (omega (arith, lt, later)) in
          (
            u,
            subst (λ e. IsPage e u) p.same_end u-page,
            ap (lookup k'.words pgdir) (omega (arith, later)) ∙ at,
          )
    ];
    outside = λ va lt side. elim side [
      | inl lo ↦ g.outside va lt (inl (omega (arith, lo))) ∙ p.others va lt (omega (arith, lo))
      | inr hi ↦ g.outside va lt (inr (omega (arith, hi))) ∙ p.others va lt (omega (arith, hi))
    ];
  }

  alloc_from-Grown :
      (n f a : ℕ) (k : Kmem) (pages : List ℕ)
      → n ≤ f
      → a % pgsize ≡ 0
      → newsz ≤ a + n * pgsize
      → a + n * pgsize < newsz + pgsize
      → 2 * n ≤ length pages
      → ((i : ℕ) → i < n → lookup k.words pgdir (a + i * pgsize) ≡ none)
      → Space pgdir k pages
      → (k' : Kmem) × (alloc_from f pgdir a oldsz newsz k ≡ ok (newsz, k')) × Grown pgdir a n k k'
  alloc_from-Grown zero f a k pages lt al end' fits room clear space =
      (k, alloc_past f a k (omega (arith, end')), Grown-none a k pages space)
  alloc_from-Grown (suc n) zero a k pages lt al end' fits room clear space =
      absurd (omega (arith, lt))
  alloc_from-Grown (suc n) (suc f) a k [] lt al end' fits room clear space =
      absurd (omega (arith, room))
  alloc_from-Grown (suc n) (suc f) a k (v ∷ vs) lt al end' fits room clear space =
      let here : lookup k.words pgdir a ≡ none =
        ap (lookup k.words pgdir) (omega arith) ∙ clear 0 (omega arith) in
      let (k1, left, step, p, few) =
        alloc_round pgdir oldsz newsz below f a v vs k al (omega (arith, fits))
          (omega (arith, room)) here space in
      let (k', rest, g) =
        alloc_from-Grown n f (a + pgsize) k1 left (omega (arith, lt)) (omega (arith, al))
          (omega (arith, end')) (omega (arith, fits)) (omega (arith, room, few))
          (λ i lti.
            p.others (a + pgsize + i * pgsize) (omega (arith, lti, fits, below)) (omega arith)
            ∙ ap (lookup k.words pgdir) (omega arith)
            ∙ clear (i + 1) (omega (arith, lti)))
          p.space in
      (k', step ∙ rest, Grown-more n a v k k1 k' vs left al fits space.1.1 p g)

-- On a well-formed address space allocuvm gives a process the pages from its old size up to its new
-- size. The new size is below KERNBASE and above the old one, `n` is the number of pages in between, none
-- of which is mapped, and twice as many pages are free. Then it returns the new size; each of
-- the pages is mapped, for the user and writable, to a page of the allocator, every other page is
-- mapped as before, and the address space is well formed.
pub allocuvm-Grown :
    (pgdir oldsz newsz : ℕ) (k : Kmem) (pages : List ℕ)
    → oldsz ≤ newsz
    → newsz < kernbase
    → 2 * (pg_round_up newsz / pgsize - pg_round_up oldsz / pgsize) ≤ length pages
    → ((i : ℕ)
        → i < pg_round_up newsz / pgsize - pg_round_up oldsz / pgsize
        → lookup k.words pgdir (pg_round_up oldsz + i * pgsize) ≡ none)
    → Space pgdir k pages
    → (k' : Kmem) × (allocuvm pgdir oldsz newsz k ≡ ok (newsz, k'))
      × Grown pgdir
          (pg_round_up oldsz)
          (pg_round_up newsz / pgsize - pg_round_up oldsz / pgsize)
          k
          k'
unfolding allocuvm
allocuvm-Grown pgdir oldsz newsz k pages up below room clear space =
    let n : ℕ = pg_round_up newsz / pgsize - pg_round_up oldsz / pgsize in
    let (k', run, g) =
      alloc_from-Grown pgdir oldsz newsz below n (newsz / pgsize + 1) (pg_round_up oldsz) k pages
        (omega arith) (omega arith) (omega (arith, up)) (omega (arith, up)) room clear space in
    (k', ground (arith, up, below, run), g)

-- allocuvm does not look at what mappages returns. One page is free, and the page behind the old
-- size has no page table; the new size is above that page's start and within the page, and below
-- KERNBASE. Then allocuvm takes the last page, finds none for the page table, and returns the new
-- size all the same: the page is not mapped, and the memory is gone.
pub allocuvm_unmapped :
    (pgdir oldsz newsz v : ℕ) (k : Kmem)
    → pg_round_up oldsz < newsz
    → newsz ≤ pg_round_up oldsz + pgsize
    → newsz < kernbase
    → is_present (k.words (pgdir + 4 * pdx (pg_round_up oldsz))) ≡ false
    → Space pgdir k (v ∷ [])
    → (k' : Kmem) × (allocuvm pgdir oldsz newsz k ≡ ok (newsz, k'))
      × (lookup k'.words pgdir (pg_round_up oldsz) ≡ none)
      × Space pgdir k' []
unfolding allocuvm
allocuvm_unmapped pgdir oldsz newsz v k above within below absent space =
    let a : ℕ = pg_round_up oldsz in
    let k1 : Kmem = blanked pgdir k v [] space in
    let absent1 : is_present (k1.words (pgdir + 4 * pdx a)) ≡ false =
      ap is_present (same_dir pgdir k v [] space (pdx a) (omega arith)) ∙ absent in
    let mapped : mappages pgdir a pgsize (v2p v) pte_wu k1 ≡ ok (false, k1) =
      one_round pgdir a (v2p v) pte_wu k1 (omega arith) (omega (arith, above, below))
      ∙ round_out pgdir pte_wu 0 a (v2p v) a k1 k1
          (page_full pgdir a (v2p v) pte_wu k1 absent1 (Space-blanked pgdir k v [] space).1) in
    let step =
      alloc_step pgdir oldsz newsz below (newsz / pgsize) a v [] k k1 false above space mapped in
    let stop : alloc_from (newsz / pgsize) pgdir (a + pgsize) oldsz newsz k1 ≡ ok (newsz, k1) =
      alloc_past pgdir oldsz newsz below (newsz / pgsize) (a + pgsize) k1 within in
    let fuel : suc (newsz / pgsize) ≡ newsz / pgsize + 1 = omega arith in
    (
      k1,
      ground (
        arith,
        above,
        below,
        subst (λ f. alloc_from f pgdir a oldsz newsz k ≡ ok (newsz, k1)) fuel (step ∙ stop),
      ),
      lookup-blanked pgdir k v [] space a ∙ lookup_absent k.words pgdir a absent,
      Space-blanked pgdir k v [] space,
    )
