-- ===== src/Kalloc/Chain.antt =====
-- kfree and kalloc on a well-formed free list.
use os.Base.{
  ℕ, ◌+◌, ◌%◌, ◌^◌, ◌<◌, ◌≤◌, ◌≡◌, ◌≢◌, ◌==◌, not, ◌||◌, ltb, leb, inl, inr, ◌↔◌, false, Bool-cases,
  refl, List, [], ◌∷◌, All, arith, ok, panic,
}
use os.Kalloc.Defs.{Kmem, pgsize, kernbase, phystop, v2p, junk, store, kfree, kalloc}

-- A page that the allocator may hold.
pub record IsPage (end v : ℕ) : Type 0 where
  pub aligned : v % pgsize ≡ 0
  pub above : end ≤ v
  pub kernel : kernbase ≤ v
  pub below : v < kernbase + phystop

-- From `head` the words at the pages' starts lead through `pages` to the null pointer.
abbrev pub Chain : (ℕ → ℕ) → ℕ → ℕ → List ℕ → Type 0
Chain words end head [] = head ≡ 0
Chain words end head (v ∷ vs) =
    (head ≡ v) × IsPage end v × All (λ u. u ≢ v) vs × Chain words end (words v) vs

-- The free list of `k` holds exactly the pages of the list, in this order, each once.
abbrev pub Free : Kmem → List ℕ → Type 0
Free k pages = Chain k.words k.end k.freelist pages

Chain-store :
    (words : ℕ → ℕ) (end head v x : ℕ) (pages : List ℕ)
    → v % pgsize ≡ 0
    → All (λ u. u ≢ v) pages
    → Chain words end head pages
    → Chain (store v x (junk v words)) end head pages
Chain-store words end head v x [] al fresh c = c
Chain-store words end head v x (u ∷ us) al fresh c =
    (c.0, c.1, c.2, rw kept (Chain-store words end (words u) v x us al fresh.1 c.3))
  where
    kept : store v x (junk v words) u ≡ words u
    kept = ground (arith, c.1.aligned, fresh.0)

-- Freeing a page that is aligned, behind the kernel and below PHYSTOP, and not free already,
-- succeeds and puts it in front of the free list.
pub kfree-Free :
    (v : ℕ) (k : Kmem) (pages : List ℕ)
    → IsPage k.end v
    → All (λ u. u ≢ v) pages
    → Free k pages
    → (k' : Kmem) × (kfree v k ≡ ok k') × (k'.end ≡ k.end) × Free k' (v ∷ pages)
unfolding kfree
kfree-Free v k pages p fresh free = (
  record k { words = store v k.freelist (junk v k.words); freelist = v },
  ground (arith, p.aligned, p.above, p.below, p.kernel),
  refl,
  (
    refl,
    p,
    fresh,
    rw self (Chain-store k.words k.end k.freelist v k.freelist pages p.aligned fresh free),
  ),
)
  where
    self : store v k.freelist (junk v k.words) v ≡ k.freelist
    self = ground arith

-- kalloc hands out the first page of a free list that is not empty and keeps the others, which are
-- all different from it: no page goes out twice.
kalloc-Free :
    (k : Kmem) (v : ℕ) (pages : List ℕ)
    → Free k (v ∷ pages)
    → ((kalloc k).0 ≡ v) × IsPage k.end v × All (λ u. u ≢ v) pages × Free (kalloc k).1 pages
unfolding kalloc
kalloc-Free k v pages free =
    let some_page : (k.freelist == 0) ≡ false = ground (arith, free.0, free.1.kernel) in
    rw some_page (free.0, free.1, free.2, rw free.0 free.3)

-- kalloc returns the null pointer, and changes nothing, when no page is free.
pub kalloc-empty : (k : Kmem) → Free k [] → kalloc k ≡ (0, k)
unfolding kalloc
kalloc-empty k free = ground arith

-- kfree refuses, by a panic, exactly the addresses that are no page of the allocator.
kfree-refuses :
    (v : ℕ) (k : Kmem)
    → kernbase ≤ k.end
    → v < 2 ^ 32
    → (kfree v k ≡ panic "kfree") ↔ (¬ IsPage k.end v)
unfolding kfree
kfree-refuses v k base small = (
  λ e p. ground (arith, p.aligned, p.above, p.below, p.kernel),
  λ n. elim (Bool-cases (not (v % pgsize == 0) || ltb v k.end || leb phystop (v2p v))) [
    | inl refused ↦ rw refused refl
    | inr taken ↦ absurd (
        n (record {
          aligned = ground arith;
          above = ground arith;
          kernel = ground arith;
          below = ground arith;
        }))
  ],
)
