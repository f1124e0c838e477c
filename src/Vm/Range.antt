-- ===== src/Vm/Range.antt =====
-- vm.c: mappages on a range of pages.
use Prim.Native.Nat.{bit_or}
use os.Base.{
  ℕ, zero, suc, ◌+◌, ◌-◌, ◌*◌, ◌/◌, ◌%◌, ◌^◌, ◌<◌, ◌≤◌, ◌≡◌, ◌≢◌, ◌⊎◌, inl, inr, refl, sym, ap,
  subst, ◌∙◌, Bool, true, false, some, List, [], arith, ℕ_discrete, Result, ok, panic,
}
use os.Kalloc.Defs.{pgsize, Kmem}
use os.Vm.Table.{pg_round_down, map_page, map_from, mappages}
use os.Vm.View.{lookup, Space}
use os.Vm.Map.{Placed, map_page-Placed}

-- The entry of page `i` of a range that goes to `pa`.
abbrev pub entry_of : ℕ → ℕ → ℕ → ℕ
entry_of pa perm i = bit_or (bit_or ((pa + i * pgsize) % 2 ^ 32) perm) 1

-- The pages `0` to `n` from `a` on were mapped, and no other.
pub record Mapped (pgdir a n pa perm : ℕ) (k k' : Kmem) (left : List ℕ) : Type 0 where
  pub space : Space pgdir k' left
  pub same_end : k'.end ≡ k.end
  pub inside : (i : ℕ) → i ≤ n → lookup k'.words pgdir (a + i * pgsize) ≡ some (entry_of pa perm i)
  pub outside :
      (va : ℕ)
      → va < 2 ^ 32
      → (va / pgsize < a / pgsize) ⊎ (a / pgsize + n < va / pgsize)
      → lookup k'.words pgdir va ≡ lookup k.words pgdir va

-- What mapping `n + 1` pages from `a` on does: all are mapped; or the memory ran out, and no page is
-- free; or one of them was mapped before, and the kernel panics.
abbrev pub Ran : ℕ → ℕ → ℕ → ℕ → ℕ → Kmem → Result (Bool × Kmem) → Type 0
Ran pgdir a n pa perm k out =
    ((k' : Kmem) × (left : List ℕ) × (out ≡ ok (true, k')) × Mapped pgdir a n pa perm k k' left)
    ⊎ (((k' : Kmem) × (out ≡ ok (false, k')) × Space pgdir k' [])
        ⊎ ((out ≡ panic "remap")
            × (i : ℕ) × (x : ℕ) × (i ≤ n)
            × (lookup k.words pgdir (a + i * pgsize) ≡ some x)))

module _ (pgdir perm n a pa last : ℕ) (k : Kmem) where
  pub round_last :
      (k' : Kmem)
      → map_page pgdir a pa perm k ≡ ok (true, k')
      → a ≡ last
      → map_from (suc n) pgdir a last pa perm k ≡ ok (true, k')
  unfolding map_from
  round_last k' step e = ground (arith, step, e)

  round_next :
      (k' : Kmem)
      → map_page pgdir a pa perm k ≡ ok (true, k')
      → a ≢ last
      → map_from (suc n) pgdir a last pa perm k
        ≡ map_from n pgdir ((a + pgsize) % 2 ^ 32) last ((pa + pgsize) % 2 ^ 32) perm k'
  unfolding map_from
  round_next k' step e = ground (arith, step, e)

  pub round_out :
      (k' : Kmem)
      → map_page pgdir a pa perm k ≡ ok (false, k')
      → map_from (suc n) pgdir a last pa perm k ≡ ok (false, k')
  unfolding map_from
  round_out k' step = rw (step) refl

  round_remap :
      map_page pgdir a pa perm k ≡ panic "remap"
      → map_from (suc n) pgdir a last pa perm k ≡ panic "remap"
  unfolding map_from
  round_remap step = rw (step) refl

module _ (pgdir perm a pa : ℕ) (k k1 : Kmem) (pages left1 : List ℕ) (pal : pa < 2 ^ 32)
    (p : Placed pgdir a (bit_or (bit_or pa perm) 1) k k1 pages left1) where
  one_page : Mapped pgdir a 0 pa perm k k1 left1
  one_page = record {
    space = p.space;
    same_end = p.same_end;
    inside = λ i le.
        ap (lookup k1.words pgdir) (omega arith)
        ∙ p.here
        ∙ ap (λ q. some (bit_or (bit_or q perm) 1)) (omega arith);
    outside =
        λ va lt side. p.others va lt (elim side [ inl lo ↦ omega arith | inr hi ↦ omega arith ]);
  }

  more_pages :
      (n : ℕ) (k' : Kmem) (left : List ℕ)
      → a % pgsize ≡ 0
      → a + suc n * pgsize < 2 ^ 32
      → Mapped pgdir ((a + pgsize) % 2 ^ 32) n ((pa + pgsize) % 2 ^ 32) perm k1 k' left
      → Mapped pgdir a (suc n) pa perm k k' left
  more_pages n k' left al below m = record {
    space = m.space;
    same_end = m.same_end ∙ p.same_end;
    inside = λ i le. elim (ℕ_discrete i 0) [
      | yes first ↦
          ap (lookup k'.words pgdir) (omega (arith, first))
          ∙ m.outside a (omega (arith, below)) (inl (omega (arith, below)))
          ∙ p.here
          ∙ ap (λ q. some (bit_or (bit_or q perm) 1)) (omega (arith, first))
      | no later ↦
          ap (lookup k'.words pgdir) (omega (arith, later, below))
          ∙ m.inside (i - 1) (omega (arith, le, later))
          ∙ ap (λ q. some (bit_or (bit_or q perm) 1)) (omega (arith, later))
    ];
    outside = λ va lt side. elim side [
      | inl lo ↦
          m.outside va lt (inl (omega (arith, lo, below))) ∙ p.others va lt (omega (arith, lo))
      | inr hi ↦
          m.outside va lt (inr (omega (arith, hi, below))) ∙ p.others va lt (omega (arith, hi))
    ];
  }

module _ (pgdir perm : ℕ) where
  map_from-Ran :
      (n a pa last : ℕ) (k : Kmem) (pages : List ℕ)
      → a % pgsize ≡ 0
      → a + n * pgsize < 2 ^ 32
      → pa < 2 ^ 32
      → last ≡ a + n * pgsize
      → Space pgdir k pages
      → Ran pgdir a n pa perm k (map_from (suc n) pgdir a last pa perm k)
  map_from-Ran zero a pa last k pages al below pal end' space =
      elim (map_page-Placed pgdir a pa perm k pages (omega arith) space) [
        | inl (x, used, step) ↦ inr (
            inr (
              round_remap pgdir perm 0 a pa last k step,
              0,
              x,
              omega arith,
              ap (lookup k.words pgdir) (omega arith) ∙ used,
            ))
        | inr (_, inl (nothing, step)) ↦ inr (
            inl (k, round_out pgdir perm 0 a pa last k k step, subst (Space pgdir k) nothing space))
        | inr (_, inr (k', left, step, p)) ↦ inl (
          k',
          left,
          round_last pgdir perm 0 a pa last k k' step (omega (arith, end')),
          one_page pgdir perm a pa k k' pages left pal p,
        )
      ]
  map_from-Ran (suc n) a pa last k pages al below pal end' space =
      elim (map_page-Placed pgdir a pa perm k pages (omega arith) space) [
        | inl (x, used, step) ↦ inr (
            inr (
              round_remap pgdir perm (suc n) a pa last k step,
              0,
              x,
              omega arith,
              ap (lookup k.words pgdir) (omega arith) ∙ used,
            ))
        | inr (_, inl (nothing, step)) ↦ inr (
            inl (
              k,
              round_out pgdir perm (suc n) a pa last k k step,
              subst (Space pgdir k) nothing space,
            ))
        | inr (_, inr (k1, left1, step, p)) ↦
            let go = round_next pgdir perm (suc n) a pa last k k1 step (omega (arith, end')) in
            let next : (a + pgsize) % 2 ^ 32 ≡ a + pgsize = omega (arith, below) in
            elim (map_from-Ran n ((a + pgsize) % 2 ^ 32) ((pa + pgsize) % 2 ^ 32) last k1 left1
              (omega (arith, al, next)) (omega (arith, below, next)) (omega arith)
              (omega (arith, end', next)) p.space) [
                | inl (k', left, rest, m) ↦ inl (
                  k',
                  left,
                  go ∙ rest,
                  more_pages pgdir perm a pa k k1 pages left1 pal p n k' left al below m,
                )
                | inr (inl (k', rest, none_left)) ↦ inr (inl (k', go ∙ rest, none_left))
                | inr (inr (rest, i, x, le, used)) ↦ inr (
                    inr (
                      go ∙ rest,
                      i + 1,
                      x,
                      omega arith,
                      sym (p.others (a + (i + 1) * pgsize) (omega (arith, le, below)) (omega arith))
                          ∙ ap (lookup k1.words pgdir) (omega (arith, le, below))
                          ∙ used,
                    ))
              ]
      ]

-- mappages on a well-formed address space, for a range that is not empty and does not go past the
-- end of the address space, and a physical address that is a word, ends in one of three ways. All
-- pages of the range are mapped, each to the page of its own, every other page is mapped as before, and
-- the address space is well formed; or it returns -1 and no page is free, the space being well
-- formed; or a page of the range was mapped before, and the kernel panics.
pub mappages-Ran :
    (pgdir va size pa perm : ℕ) (k : Kmem) (pages : List ℕ)
    → 0 < size
    → va + size ≤ 2 ^ 32
    → pa < 2 ^ 32
    → Space pgdir k pages
    → Ran pgdir
        (pg_round_down va)
        ((va + size - 1) / pgsize - va / pgsize)
        pa
        perm
        k
        (mappages pgdir va size pa perm k)
unfolding mappages
mappages-Ran pgdir va size pa perm k pages some_bytes fits pal space =
    let a : ℕ = pg_round_down va in
    let last : ℕ = pg_round_down ((va + size + 2 ^ 32 - 1) % 2 ^ 32) in
    let n : ℕ = (va + size - 1) / pgsize - va / pgsize in
    let same_last : last ≡ a + n * pgsize = omega arith in
    let rounds : (last + 2 ^ 32 - a) % 2 ^ 32 / pgsize + 1 ≡ suc n = omega (arith, same_last) in
    subst (λ m. Ran pgdir a n pa perm k (map_from m pgdir a last pa perm k)) (sym rounds)
      (map_from-Ran pgdir perm n a pa last k pages (omega arith) (omega (arith, fits, some_bytes))
        pal same_last space)
