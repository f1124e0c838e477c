-- ===== src/Kalloc/Range.antt =====
-- freerange, and with it kinit1 and kinit2: every whole page of a range becomes free.
use os.Base.{
  ℕ, zero, suc, ◌+◌, ◌-◌, ◌/◌, ◌%◌, ◌<◌, ◌≤◌, ◌≡◌, ◌≢◌, ◌⊎◌, refl, List, [], ◌∷◌, ◌++◌, All, arith,
  ok, sym, subst, leb, Bool-cases, inl, inr, ap, append_assoc, ◌∙◌,
}
use os.Kalloc.Defs.{Kmem, pgsize, kernbase, phystop, pg_round_up, free_from, freerange}
use os.Kalloc.Chain.{IsPage, Free, kfree-Free}

-- The `n` pages from `p` on, the last one first.
abbrev pub down_from : ℕ → ℕ → List ℕ
down_from p zero = []
down_from p (suc n) = down_from (p + pgsize) n ++ p ∷ []

-- No page of the list lies in the range from `p` to `vend`.
abbrev pub Outside : ℕ → ℕ → List ℕ → Type 0
Outside p vend pages = All (λ u. (u < p) ⊎ (vend ≤ u)) pages

Outside-step :
    (p vend : ℕ) (pages : List ℕ)
    → p + pgsize ≤ vend
    → Outside p vend pages
    → Outside (p + pgsize) vend pages
Outside-step p vend [] h o = tt
Outside-step p vend (u ∷ us) h o =
    (elim o.0 [ inl a ↦ inl (omega arith) | inr b ↦ inr b ], Outside-step p vend us h o.1)

Outside-ne :
    (p vend : ℕ) (pages : List ℕ)
    → p + pgsize ≤ vend
    → Outside p vend pages
    → All (λ u. u ≢ p) pages
Outside-ne p vend [] h o = tt
Outside-ne p vend (u ∷ us) h o =
    (elim o.0 [ inl a ↦ omega arith | inr b ↦ omega arith ], Outside-ne p vend us h o.1)

free_from-Free :
    (fuel p vend : ℕ) (k : Kmem) (pages : List ℕ)
    → (vend - p) / pgsize < fuel
    → p % pgsize ≡ 0
    → k.end ≤ p
    → kernbase ≤ p
    → vend ≤ kernbase + phystop
    → Outside p vend pages
    → Free k pages
    → (k' : Kmem) × (free_from fuel p vend k ≡ ok k')
      × (k'.end ≡ k.end)
      × Free k' (down_from p ((vend - p) / pgsize) ++ pages)
unfolding free_from
free_from-Free zero p vend k pages f al above kern top out free = absurd (omega arith)
free_from-Free (suc fuel) p vend k pages f al above kern top out free =
    elim (Bool-cases (leb (p + pgsize) vend)) [
      | inr stop ↦
          let none_left : (vend - p) / pgsize ≡ 0 = ground arith in
          (k, rw stop refl, refl, rw none_left free)
      | inl more ↦
          let fits : p + pgsize ≤ vend = ground arith in
          let page : IsPage k.end p = record {
            aligned = al;
            above = above;
            kernel = kern;
            below = omega arith;
          } in
          let (k1, e1, same, free1) =
            kfree-Free p k pages page (Outside-ne p vend pages fits out) free in
          let (k2, e2, same2, free2) =
            free_from-Free fuel (p + pgsize) vend k1 (p ∷ pages) (omega arith) (omega arith)
              (rw same (omega arith)) (omega arith) top
              (inl (omega arith), Outside-step p vend pages fits out) free1 in
          let count : (vend - p) / pgsize ≡ suc ((vend - (p + pgsize)) / pgsize) = omega arith in
          let same_pages : down_from p ((vend - p) / pgsize) ++ pages
              ≡ down_from (p + pgsize) ((vend - (p + pgsize)) / pgsize) ++ p ∷ pages =
            ap (λ c. down_from p c ++ pages) count
            ∙ append_assoc (down_from (p + pgsize) ((vend - (p + pgsize)) / pgsize)) (p ∷ [])
                pages in
          (k2, rw (more, e1) e2, same2 ∙ same, subst (λ l. Free k2 l) (sym same_pages) free2)
    ]

-- freerange returns, and frees every whole page between its ends besides those that were free,
-- each once, if the range lies behind the kernel and below PHYSTOP and no page of it is free yet.
pub freerange-Free :
    (vstart vend : ℕ) (k : Kmem) (pages : List ℕ)
    → k.end ≤ vstart
    → kernbase ≤ vstart
    → vend ≤ kernbase + phystop
    → Outside (pg_round_up vstart) vend pages
    → Free k pages
    → (k' : Kmem) × (freerange vstart vend k ≡ ok k')
      × (k'.end ≡ k.end)
      × Free k' (down_from (pg_round_up vstart) ((vend - pg_round_up vstart) / pgsize) ++ pages)
unfolding freerange
freerange-Free vstart vend k pages above kern top out free =
    free_from-Free (vend / pgsize + 1) (pg_round_up vstart) vend k pages (omega arith) (omega arith)
      (omega arith) (omega arith) top out free
