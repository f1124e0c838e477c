-- ===== src/Vm/Round.antt =====
-- vm.c: a round of allocuvm, with memory for a page table and without.
use Prim.Native.Nat.{bit_or}
use os.Base.{
  ℕ, suc, ◌+◌, ◌-◌, ◌*◌, ◌/◌, ◌%◌, ◌^◌, ◌<◌, ◌≤◌, ◌≡◌, ◌≢◌, inl, inr, refl, sym, ap, subst, ◌∙◌,
  Bool, true, false, Option, none, some, List, [], ◌∷◌, length, arith, ok,
}
use os.Kalloc.Defs.{pgsize, kernbase, v2p, Kmem, kalloc}
use os.Kalloc.Chain.{IsPage, Free}
use os.Vm.Bits.{bit_or-aligned, bit_or_one}
use os.Vm.Table.{pdx, pg_round_down, is_present, pte_wu, blank, map_page, map_from, mappages}
use os.Vm.Space.{alloc_from}
use os.Vm.View.{lookup, Space}
use os.Vm.Map.{walk_none, taken, blanked, Space-blanked, lookup-blanked, Placed, map_page-Placed}
use os.Vm.Range.{round_last}

-- mappages of one page is one round of its loop.
pub one_round :
    (pgdir a pa perm : ℕ) (k : Kmem)
    → a % pgsize ≡ 0
    → a + pgsize ≤ 2 ^ 32
    → mappages pgdir a pgsize pa perm k ≡ map_from 1 pgdir a a pa perm k
unfolding mappages
one_round pgdir a pa perm k al fits =
    let first : pg_round_down a ≡ a = omega (arith, al) in
    let last : pg_round_down ((a + pgsize + 2 ^ 32 - 1) % 2 ^ 32) ≡ a = omega (arith, al, fits) in
    let rounds : (a + 2 ^ 32 - a) % 2 ^ 32 / pgsize + 1 ≡ 1 = omega arith in
    rw (first, last, rounds) refl

pub page_full :
    (pgdir a pa perm : ℕ) (k : Kmem)
    → is_present (k.words (pgdir + 4 * pdx a)) ≡ false
    → Free k []
    → map_page pgdir a pa perm k ≡ ok (false, k)
unfolding map_page
page_full pgdir a pa perm k absent free = rw (walk_none pgdir a k absent free) refl

user_entry : (end v : ℕ) → IsPage end v → bit_or (bit_or (v2p v) pte_wu) 1 ≡ v2p v + 7
user_entry end v page =
    let whole : v2p v % 4096 ≡ 0 = omega (arith, page.aligned, page.kernel, page.below) in
    let wu : bit_or (v2p v) pte_wu ≡ v2p v + 6 = bit_or-aligned (v2p v) 6 whole (omega arith) in
    ap (λ x. bit_or x 1) wu ∙ bit_or_one (v2p v + 6) (omega (arith, whole)) ∙ omega arith

-- A page that is mapped for the user, to a page of memory.
abbrev pub UserPage : ℕ → ℕ → Kmem → ℕ → Type 0
UserPage end pgdir k va = (v : ℕ) × IsPage end v × (lookup k.words pgdir va ≡ some (v2p v + 7))

some_differs {ℓ} : {A : Type ℓ} {o : Option A} {x : A} → o ≡ some x → o ≢ none
some_differs e n = cc

module _ (pgdir oldsz newsz : ℕ) (below : newsz < kernbase) where
  pub alloc_step :
      (n a v : ℕ) (vs : List ℕ) (k k1 : Kmem) (good : Bool)
      → a < newsz
      → (space : Space pgdir k (v ∷ vs))
      → mappages pgdir a pgsize (v2p v) pte_wu (blanked pgdir k v vs space) ≡ ok (good, k1)
      → alloc_from (suc n) pgdir a oldsz newsz k ≡ alloc_from n pgdir (a + pgsize) oldsz newsz k1
  unfolding alloc_from
  alloc_step n a v vs k k1 good lt space mapped =
      let got : kalloc k ≡ (v, record k { freelist = k.words v }) = taken pgdir k v vs space in
      let some_page : (kalloc k).0 ≢ 0 =
        subst (λ (r : ℕ × Kmem). r.0 ≢ 0) (sym got) (omega (arith, space.1.1.kernel)) in
      let mapped' : mappages pgdir a pgsize (v2p (kalloc k).0) pte_wu
            (record (kalloc k).1 { words = blank (kalloc k).0 (kalloc k).1.words })
          ≡ ok (good, k1) =
        subst
          (λ (r : ℕ × Kmem).
            mappages pgdir a pgsize (v2p r.0) pte_wu (record r.1 { words = blank r.0 r.1.words })
            ≡ ok (good, k1))
          (sym got) mapped in
      ground (arith, lt, some_page, mapped')

  -- A round of the loop: a page of memory, and perhaps one for a page table, and the entry.
  pub alloc_round :
      (n a v : ℕ) (vs : List ℕ) (k : Kmem)
      → a % pgsize ≡ 0
      → a < newsz
      → 1 ≤ length vs
      → lookup k.words pgdir a ≡ none
      → Space pgdir k (v ∷ vs)
      → (k1 : Kmem) × (left : List ℕ) × (alloc_from (suc n) pgdir a oldsz newsz k
          ≡ alloc_from n pgdir (a + pgsize) oldsz newsz k1)
        × Placed pgdir a (v2p v + 7) k k1 vs left
        × (length vs ≤ length left + 1)
  alloc_round n a v vs k al lt room clear space =
      elim (map_page-Placed pgdir a (v2p v) pte_wu (blanked pgdir k v vs space) vs
        (omega (arith, lt, below)) (Space-blanked pgdir k v vs space)) [
          | inl (x, used, _) ↦
              absurd (some_differs used (lookup-blanked pgdir k v vs space a ∙ clear))
          | inr (_, inl (nothing, _)) ↦ absurd (ground (arith, nothing, room))
          | inr (_, inr (k1, left, step, p)) ↦
              let page : IsPage k.end v = space.1.1 in
              let mapped : mappages pgdir a pgsize (v2p v) pte_wu (blanked pgdir k v vs space)
                  ≡ ok (true, k1) =
                one_round pgdir a (v2p v) pte_wu _ al (omega (arith, lt, below))
                ∙ round_last pgdir pte_wu 0 a (v2p v) a _ k1 step refl in
              (
                k1,
                left,
                alloc_step n a v vs k k1 true lt space mapped,
                subst (λ e. Placed pgdir a e k k1 vs left) (user_entry k.end v page)
                    (record {
                      space = p.space;
                      same_end = p.same_end;
                      here = p.here;
                      others =
                          λ va lt' ne. p.others va lt' ne ∙ lookup-blanked pgdir k v vs space va;
                      fewer = p.fewer;
                    }),
                elim p.fewer [ inl e ↦ ground (arith, e) | inr (u, e) ↦ ground (arith, e) ],
              )
        ]
