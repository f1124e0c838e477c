-- ===== src/Kalloc/Tests.antt =====
-- kalloc.c on a few pages.
use os.Base.{ℕ, ◌+◌, ◌-◌, ◌*◌, ◌≡◌, refl, false, [], ◌∷◌, arith, ok}
use os.Kalloc.Defs.{Kmem, kernbase, freerange}
use os.Kalloc.Chain.{IsPage, Free}
use os.Kalloc.Range.{freerange-Free}

-- No page is free; the kernel ends 2 MB above its base.
abbrev bare : Kmem
bare = record { words = λ _. 0; freelist = 0; use_lock = false; end = kernbase + 0x200000 }

abbrev page : ℕ
page = kernbase + 0x300000

page-IsPage : IsPage (kernbase + 0x200000) page
page-IsPage = record {
  aligned = refl;
  above = omega arith;
  kernel = omega arith;
  below = omega arith;
}

-- One page is free.
abbrev one_free : Kmem
one_free = record { words = λ _. 0; freelist = page; use_lock = false; end = kernbase + 0x200000 }

one_free-Free : Free one_free (page ∷ [])
one_free-Free = (refl, page-IsPage, tt, refl)

-- Two whole pages and a part of a third.
freerange-Free_example :
    (k' : Kmem) × (freerange (page + 1) (page + 4 * 4096 - 1) bare ≡ ok k')
    × (k'.end ≡ bare.end)
    × Free k' ((page + 2 * 4096) ∷ (page + 4096) ∷ [])
freerange-Free_example =
    freerange-Free (page + 1) (page + 4 * 4096 - 1) bare [] (omega arith) (omega arith)
      (omega arith) tt refl
