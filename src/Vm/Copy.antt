-- ===== src/Vm/Copy.antt =====
-- vm.c: copyout.
use os.Base.{
  get_or-drop, length-drop, drop_all, ℕ, zero, suc, ◌+◌, ◌-◌, ◌/◌, ◌%◌, ◌^◌, ◌<◌, ◌≤◌, ◌≡◌, ◌≢◌,
  refl, sym, ap, subst, ◌∙◌, true, List, [], ◌∷◌, length, take, drop, arith, dec_lt,
}
use os.Kalloc.Defs.{pgsize, Kmem}
use os.Vm.Table.{pg_round_down, put_bytes, uva2ka, copy_from, copyout}
use os.Vm.View.{IsDir}
use os.Vm.Part.{
  UserPages, Copied, first_ka, first-page, IsDir-after, UserPages-after, Copied-last, Copied-more,
}
use os.Vm.Bytes.{Small}

module _ (pgdir : ℕ) (f : ℕ → ℕ) where
  copy_nothing : (n va : ℕ) (k : Kmem) → copy_from n pgdir va [] k ≡ (true, k)
  unfolding copy_from
  copy_nothing n va k = refl

  copy_step :
      (n va x : ℕ) (xs : List ℕ) (k : Kmem)
      → uva2ka pgdir (pg_round_down va) k ≢ 0
      → copy_from (suc n) pgdir va (x ∷ xs) k
        ≡ copy_from n pgdir
            ((pg_round_down va + pgsize) % 2 ^ 32)
            (drop (pgsize - (va - pg_round_down va)) (x ∷ xs))
            (record k {
              words =
                  put_bytes
                    (uva2ka pgdir (pg_round_down va) k + (va - pg_round_down va))
                    (take (pgsize - (va - pg_round_down va)) (x ∷ xs))
                    k.words;
            })
  unfolding copy_from
  copy_step n va x xs k some_page = ground (arith, some_page)

  copy_round :
      (n va x : ℕ) (xs : List ℕ) (k : Kmem)
      → uva2ka pgdir (pg_round_down va) k ≡ f (va / pgsize)
      → f (va / pgsize) ≢ 0
      → copy_from (suc n) pgdir va (x ∷ xs) k
        ≡ copy_from n pgdir
            ((pg_round_down va + pgsize) % 2 ^ 32)
            (drop (pgsize - (va - pg_round_down va)) (x ∷ xs))
            (record k {
              words =
                  put_bytes
                    (f (va / pgsize) + (va - pg_round_down va))
                    (take (pgsize - (va - pg_round_down va)) (x ∷ xs))
                    k.words;
            })
  copy_round n va x xs k e some_page =
      subst
        (λ p.
          copy_from (suc n) pgdir va (x ∷ xs) k
          ≡ copy_from n pgdir ((pg_round_down va + pgsize) % 2 ^ 32)
              (drop (pgsize - (va - pg_round_down va)) (x ∷ xs))
              (record k {
                words =
                    put_bytes (p + (va - pg_round_down va))
                      (take (pgsize - (va - pg_round_down va)) (x ∷ xs)) k.words;
              }))
        e (copy_step n va x xs k (λ z. some_page (sym e ∙ z)))

  copy_from-Copied :
      (n va : ℕ) (xs : List ℕ) (k : Kmem) (pages : List ℕ)
      → length xs ≤ n
      → 0 < length xs
      → va + length xs ≤ 2 ^ 32
      → Small xs
      → IsDir k.end pgdir k.words pages
      → UserPages k.end pgdir f (va / pgsize) ((va + length xs - 1) / pgsize) k.words
      → (w : ℕ → ℕ) × (copy_from n pgdir va xs k ≡ (true, record k { words = w }))
        × Copied f va xs k.words w
  copy_from-Copied n va [] k pages le some_bytes fits small D U = absurd (omega arith)
  copy_from-Copied zero va (x ∷ xs) k pages le some_bytes fits small D U = absurd (omega arith)
  copy_from-Copied (suc n) va (x ∷ xs) k pages le some_bytes fits small D U =
      let part : ℕ = pgsize - (va - pg_round_down va) in
      let w1 : ℕ → ℕ =
        put_bytes (f (va / pgsize) + (va - pg_round_down va)) (take part (x ∷ xs)) k.words in
      let round =
        copy_round n va x xs k (first_ka pgdir va f (x ∷ xs) k pages D some_bytes fits small U) (
          omega
            (arith, (first-page pgdir va f (x ∷ xs) k pages D some_bytes fits small U).kernel)) in
      elim (dec_lt part (length (x ∷ xs))) [
        | no last ↦ (
          w1,
          round
              ∙ ap
                  (λ r.
                    copy_from n pgdir ((pg_round_down va + pgsize) % 2 ^ 32) r
                      (record k { words = w1 }))
                  (drop_all part (x ∷ xs) (omega (arith, last)))
              ∙ copy_nothing n ((pg_round_down va + pgsize) % 2 ^ 32) (record k { words = w1 }),
          Copied-last pgdir va f (x ∷ xs) k pages D some_bytes fits small U (omega (arith, last)),
        )
        | yes more ↦
            let nx : ℕ = pg_round_down va + pgsize in
            let wrap : nx % 2 ^ 32 ≡ nx = omega (arith, more, fits) in
            let last : (va + length (x ∷ xs) - 1) / pgsize
                ≡ (nx + length (drop part (x ∷ xs)) - 1) / pgsize =
              omega (arith, length-drop part (x ∷ xs), more) in
            let (w2, run, c) =
              copy_from-Copied n nx (drop part (x ∷ xs)) (record k { words = w1 }) pages
                (omega (arith, length-drop part (x ∷ xs), le))
                (omega (arith, length-drop part (x ∷ xs), more))
                (omega (arith, length-drop part (x ∷ xs), more, fits))
                (λ i. subst (λ b. b < 256) (sym (get_or-drop part i (x ∷ xs))) (small (part + i)))
                (IsDir-after pgdir va f (x ∷ xs) k pages D some_bytes fits small U)
                (subst (λ h. UserPages k.end pgdir f (nx / pgsize) h w1) last
                  (UserPages-after pgdir va f (x ∷ xs) k pages D some_bytes fits small U
                    (nx / pgsize) (omega arith))) in
            (
              w2,
              round
                  ∙ ap (λ v. copy_from n pgdir v (drop part (x ∷ xs)) (record k { words = w1 }))
                      wrap
                  ∙ run,
              Copied-more pgdir va f (x ∷ xs) k pages D some_bytes fits small U w2 more c,
            )
      ]

-- copyout puts a buffer into the memory of a process, over any number of pages. The buffer is not
-- empty and its bytes are below 256, the range does not go past the end of the address space, the
-- address space has its tables in pages of their own, and each page of the range is mapped for the
-- user to a page of the allocator, to no two the same, and to none of the tables. Then copyout
-- returns 0; each byte of the buffer stands where the address space has its address; and no
-- word outside these pages has changed.
pub copyout-Copied :
    (pgdir va : ℕ) (f : ℕ → ℕ) (buf : List ℕ) (k : Kmem) (pages : List ℕ)
    → 0 < length buf
    → va + length buf ≤ 2 ^ 32
    → Small buf
    → IsDir k.end pgdir k.words pages
    → UserPages k.end pgdir f (va / pgsize) ((va + length buf - 1) / pgsize) k.words
    → (w : ℕ → ℕ) × (copyout pgdir va buf k ≡ (true, record k { words = w }))
      × Copied f va buf k.words w
unfolding copyout
copyout-Copied pgdir va f buf k pages =
    copy_from-Copied pgdir f (length buf) va buf k pages (omega arith)
