-- ===== src/Vm/View.antt =====
-- vm.c: what an address space maps, as a function from virtual addresses, and the page tables that
-- are well formed.
use os.Base.{
  ℕ, ◌+◌, ◌*◌, ◌%◌, ◌<◌, ◌≤◌, ◌≡◌, ◌≢◌, ◌⊎◌, inl, inr, sym, subst, true, ◌&&◌, if◌then◌else◌,
  Option, none, some, List, [], ◌∷◌, All, arith, dec_lt,
}
use os.Kalloc.Defs.{pgsize, Kmem}
use os.Kalloc.Chain.{IsPage, Chain, Free}
use os.Vm.Table.{p2v, pdx, ptx, pte_addr, is_present}

-- The present entry for an address, if any.
unfoldable pub lookup : (ℕ → ℕ) → ℕ → ℕ → Option ℕ
lookup words pgdir va =
    let pde : ℕ = words (pgdir + 4 * pdx va) in
    let pte : ℕ = words (p2v (pte_addr pde) + 4 * ptx va) in
    if is_present pde && is_present pte then some pte else none

-- The page table that entry `d` of a page directory names.
abbrev pub table_at : (ℕ → ℕ) → ℕ → ℕ → ℕ
table_at words pgdir d = p2v (pte_addr (words (pgdir + 4 * d)))

abbrev pub HasTable : (ℕ → ℕ) → ℕ → ℕ → Type 0
HasTable words pgdir d = is_present (words (pgdir + 4 * d)) ≡ true

-- The page directory and its page tables are pages of their own, and none of them is free.
pub record IsDir (end pgdir : ℕ) (words : ℕ → ℕ) (pages : List ℕ) : Type 0 where
  pub dir : IsPage end pgdir
  pub dir_used : All (λ u. u ≢ pgdir) pages
  pub table : (d : ℕ) → d < 1024 → HasTable words pgdir d → IsPage end (table_at words pgdir d)
  pub table_used :
      (d : ℕ) → d < 1024 → HasTable words pgdir d → All (λ u. u ≢ table_at words pgdir d) pages
  pub table_own : (d : ℕ) → d < 1024 → HasTable words pgdir d → table_at words pgdir d ≢ pgdir
  pub apart :
      (d e : ℕ)
      → d < 1024
      → e < 1024
      → HasTable words pgdir d
      → HasTable words pgdir e
      → d ≢ e
      → table_at words pgdir d ≢ table_at words pgdir e

abbrev pub Space : ℕ → Kmem → List ℕ → Type 0
Space pgdir k pages = IsDir k.end pgdir k.words pages × Free k pages

-- Two states of the memory that differ in one page at most.
abbrev pub Off : ℕ → (ℕ → ℕ) → (ℕ → ℕ) → Type 0
Off v words words' = (a : ℕ) → (a < v) ⊎ (v + pgsize ≤ a) → words' a ≡ words a

-- A word of another page is the same.
pub Off-page :
    (v u x : ℕ) {words words' : ℕ → ℕ}
    → v % pgsize ≡ 0
    → u % pgsize ≡ 0
    → u ≢ v
    → x < pgsize
    → Off v words words'
    → words' (u + x) ≡ words (u + x)
Off-page v u x av au ne lt off = elim (dec_lt u v) [
  | yes below ↦ off (u + x) (inl (omega arith))
  | no above ↦ off (u + x) (inr (omega arith))
]

pub Chain-Off :
    (v end head : ℕ) (pages : List ℕ) {words words' : ℕ → ℕ}
    → v % pgsize ≡ 0
    → All (λ u. u ≢ v) pages
    → Off v words words'
    → Chain words end head pages
    → Chain words' end head pages
Chain-Off v end head [] av all off c = c
Chain-Off v end head (u ∷ us) {words} {words'} av all off c =
    let here : words' (u + 0) ≡ words (u + 0) =
      Off-page v u 0 av c.1.aligned all.0 (omega arith) off in
    let same : words' u ≡ words u = subst (λ a. words' a ≡ words a) (omega arith) here in
    (
      c.0,
      c.1,
      c.2,
      subst (λ h. Chain words' end h us) (sym same) (Chain-Off v end (words u) us av all.1 off c.3),
    )
