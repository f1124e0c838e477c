-- ===== src/Vm/Frame.antt =====
-- vm.c: what a write to one page does to an address space.
use Prim.Native.Nat.{bit_or}
use os.Base.{
  ℕ, ◌+◌, ◌-◌, ◌*◌, ◌/◌, ◌%◌, ◌^◌, ◌<◌, ◌≡◌, ◌≢◌, ◌⊎◌, inl, inr, refl, sym, ap, subst, ◌∙◌, ◌==◌,
  true, false, none, some, List, All, arith, Bool-cases, ℕ_discrete,
}
use os.Kalloc.Defs.{pgsize, kernbase, v2p, store}
use os.Kalloc.Chain.{IsPage}
use os.Vm.Bits.{bit_or-aligned}
use os.Vm.Table.{p2v, pdx, ptx, pte_addr, is_present}
use os.Vm.View.{lookup, table_at, HasTable, IsDir, Off, Off-page}

-- An address is looked up in its entry of the directory, and in the table that this names.
pub lookup_same :
    (words words' : ℕ → ℕ) (pgdir va : ℕ)
    → words' (pgdir + 4 * pdx va) ≡ words (pgdir + 4 * pdx va)
    → (HasTable words pgdir (pdx va)
        → words' (table_at words pgdir (pdx va) + 4 * ptx va)
          ≡ words (table_at words pgdir (pdx va) + 4 * ptx va))
    → lookup words' pgdir va ≡ lookup words pgdir va
unfolding lookup
lookup_same words words' pgdir va e h =
    elim (Bool-cases (is_present (words (pgdir + 4 * pdx va)))) [
      | inl here ↦ rw (e, h here) refl
      | inr absent ↦ rw (e, absent) refl
    ]

pub lookup_absent :
    (words : ℕ → ℕ) (pgdir va : ℕ)
    → is_present (words (pgdir + 4 * pdx va)) ≡ false
    → lookup words pgdir va ≡ none
unfolding lookup
lookup_absent words pgdir va h = rw (h) refl

lookup_zero :
    (words : ℕ → ℕ) (pgdir va : ℕ)
    → words (table_at words pgdir (pdx va) + 4 * ptx va) ≡ 0
    → lookup words pgdir va ≡ none
unfolding lookup
lookup_zero words pgdir va h = elim (Bool-cases (is_present (words (pgdir + 4 * pdx va)))) [
  | inl here ↦ rw (here, h) refl
  | inr absent ↦ rw (absent) refl
]

store_ne : (a b x : ℕ) (words : ℕ → ℕ) → a ≢ b → store b x words a ≡ words a
store_ne a b x words ne = ground arith

-- A new page table for the entry `d`: the page `v` is blank, and belongs to nobody.
pub record NewPage (end pgdir : ℕ) (words : ℕ → ℕ) (pages : List ℕ) (d v : ℕ) : Type 0 where
  pub lt : d < 1024
  pub absent : is_present (words (pgdir + 4 * d)) ≡ false
  pub page : IsPage end v
  pub unused : All (λ u. u ≢ v) pages
  pub not_dir : v ≢ pgdir
  pub not_table : (e : ℕ) → e < 1024 → HasTable words pgdir e → table_at words pgdir e ≢ v
  pub empty : (x : ℕ) → x < pgsize → words (v + x) ≡ 0

module _ (end pgdir : ℕ) (words : ℕ → ℕ) (pages : List ℕ) (D : IsDir end pgdir words pages) where
  -- A write to a page that is not the directory's.
  module _ (v : ℕ) (words' : ℕ → ℕ) (aligned : v % pgsize ≡ 0) (other : v ≢ pgdir)
      (off : Off v words words') where
    pub dir_entry : (d : ℕ) → d < 1024 → words' (pgdir + 4 * d) ≡ words (pgdir + 4 * d)
    dir_entry d lt =
        Off-page v pgdir (4 * d) aligned D.dir.aligned (λ e. other (sym e)) (omega arith) off

    has_before : (d : ℕ) → d < 1024 → HasTable words' pgdir d → HasTable words pgdir d
    has_before d lt h = ap is_present (sym (dir_entry d lt)) ∙ h

    table_before : (d : ℕ) → d < 1024 → table_at words' pgdir d ≡ table_at words pgdir d
    table_before d lt = ap (λ x. p2v (pte_addr x)) (dir_entry d lt)

    pub IsDir-inside : IsDir end pgdir words' pages
    IsDir-inside = record {
      dir = D.dir;
      dir_used = D.dir_used;
      table =
          λ d lt h. subst (IsPage end) (sym (table_before d lt)) (D.table d lt (has_before d lt h));
      table_used = λ d lt h.
          subst (λ t. All (λ u. u ≢ t) pages) (sym (table_before d lt))
            (D.table_used d lt (has_before d lt h));
      table_own = λ d lt h.
          subst (λ t. t ≢ pgdir) (sym (table_before d lt)) (D.table_own d lt (has_before d lt h));
      apart = λ d e ltd lte hd he ne.
          subst (λ t. t ≢ table_at words' pgdir e) (sym (table_before d ltd))
            (subst (λ t. table_at words pgdir d ≢ t) (sym (table_before e lte))
              (D.apart d e ltd lte (has_before d ltd hd) (has_before e lte he) ne));
    }

    -- Where the page is not the table of the address either, the address is mapped as before.
    pub lookup_off :
        (va : ℕ)
        → (HasTable words pgdir (pdx va) → table_at words pgdir (pdx va) ≢ v)
        → lookup words' pgdir va ≡ lookup words pgdir va
    lookup_off va ne = lookup_same words words' pgdir va (dir_entry (pdx va) (omega arith)) (λ h.
        Off-page v (table_at words pgdir (pdx va)) (4 * ptx va) aligned
          (D.table (pdx va) (omega arith) h).aligned (ne h) (omega arith) off)

  -- A write of the entry for `va` in its page table.
  module _ (va x : ℕ) (here : HasTable words pgdir (pdx va)) where
    abbrev pub tab : ℕ
    tab = table_at words pgdir (pdx va)

    pub tab-page : IsPage end tab
    tab-page = D.table (pdx va) (omega arith) here

    pub pte_change : Off tab words (store (tab + 4 * ptx va) x words)
    pte_change a side = elim side [ inl lo ↦ ground (arith, lo) | inr hi ↦ ground (arith, hi) ]

    pub IsDir-entry : IsDir end pgdir (store (tab + 4 * ptx va) x words) pages
    IsDir-entry =
        IsDir-inside tab _ tab-page.aligned (D.table_own (pdx va) (omega arith) here) pte_change

    pub lookup_entry :
        is_present x ≡ true → lookup (store (tab + 4 * ptx va) x words) pgdir va ≡ some x
    unfolding lookup
    lookup_entry good =
        let e : store (tab + 4 * ptx va) x words (pgdir + 4 * pdx va) ≡ words (pgdir + 4 * pdx va) =
          dir_entry tab _ tab-page.aligned (D.table_own (pdx va) (omega arith) here) pte_change
            (pdx va) (omega arith) in
        let now : store (tab + 4 * ptx va) x words (tab + 4 * ptx va) ≡ x = ground arith in
        rw (e, here, now, good) refl

    -- Other pages are mapped as before.
    pub lookup_other :
        (va' : ℕ)
        → va < 2 ^ 32
        → va' < 2 ^ 32
        → va' / pgsize ≢ va / pgsize
        → lookup (store (tab + 4 * ptx va) x words) pgdir va' ≡ lookup words pgdir va'
    lookup_other va' lt lt' ne = elim (Bool-cases (pdx va' == pdx va)) [
      | inl same ↦
          let eq : pdx va' ≡ pdx va = ground (arith, same) in
          lookup_same words _ pgdir va'
            (dir_entry tab _ tab-page.aligned (D.table_own (pdx va) (omega arith) here) pte_change
              (pdx va') (omega arith))
            (λ h.
              subst
                (λ d.
                  store (tab + 4 * ptx va) x words (table_at words pgdir d + 4 * ptx va')
                  ≡ words (table_at words pgdir d + 4 * ptx va'))
                (sym eq) (store_ne _ _ x words (omega (arith, eq, ne, lt, lt'))))
      | inr differ ↦
          lookup_off tab _ tab-page.aligned (D.table_own (pdx va) (omega arith) here) pte_change va'
            (λ h.
              D.apart (pdx va') (pdx va) (omega arith) (omega arith) h here
                (ground (arith, differ)))
    ]

  -- It goes to the entry `d`.
  module _ (d v : ℕ) (N : NewPage end pgdir words pages d v) where
    abbrev pub linked : ℕ → ℕ
    linked = store (pgdir + 4 * d) (bit_or (v2p v) 7) words

    flags_added : bit_or (v2p v) 7 ≡ v - kernbase + 7
    flags_added =
        bit_or-aligned (v2p v) 7 (omega (arith, N.page.aligned, N.page.kernel, N.page.below))
          (omega arith)
        ∙ omega (arith, N.page.kernel, N.page.below)

    at_entry : linked (pgdir + 4 * d) ≡ v - kernbase + 7
    at_entry = let e : linked (pgdir + 4 * d) ≡ bit_or (v2p v) 7 = ground arith in e ∙ flags_added

    pub at_table : table_at linked pgdir d ≡ v
    at_table =
        ap (λ x. p2v (pte_addr x)) at_entry
        ∙ omega (arith, N.page.aligned, N.page.kernel, N.page.below)

    other_entry : (e : ℕ) → e ≢ d → linked (pgdir + 4 * e) ≡ words (pgdir + 4 * e)
    other_entry e ne =
        store_ne (pgdir + 4 * e) (pgdir + 4 * d) (bit_or (v2p v) 7) words (omega (arith, ne))

    pub dir_change : Off pgdir words linked
    dir_change a side = elim side [
      | inl lo ↦ ground (arith, lo, N.lt)
      | inr hi ↦ ground (arith, hi, N.lt)
    ]

    -- Each table is the new one, or a table that was there.
    which :
        (e : ℕ)
        → HasTable linked pgdir e
        → ((e ≡ d) × (table_at linked pgdir e ≡ v))
          ⊎ ((e ≢ d) × HasTable words pgdir e × (table_at linked pgdir e ≡ table_at words pgdir e))
    which e h = elim (ℕ_discrete e d) [
      | yes same ↦ inl (same, ap (table_at linked pgdir) same ∙ at_table)
      | no ne ↦ inr (
        ne,
        ap is_present (sym (other_entry e ne)) ∙ h,
        ap (λ x. p2v (pte_addr x)) (other_entry e ne),
      )
    ]

    pub has_new : HasTable linked pgdir d
    has_new = ap is_present at_entry ∙ ground (arith, N.page.aligned, N.page.kernel)

    pub IsDir-new : IsDir end pgdir linked pages
    IsDir-new = record {
      dir = D.dir;
      dir_used = D.dir_used;
      table = λ e lte h. elim (which e h) [
        | inl (_, t) ↦ subst (IsPage end) (sym t) N.page
        | inr (_, h', t) ↦ subst (IsPage end) (sym t) (D.table e lte h')
      ];
      table_used = λ e lte h. elim (which e h) [
        | inl (_, t) ↦ subst (λ t. All (λ u. u ≢ t) pages) (sym t) N.unused
        | inr (_, h', t) ↦ subst (λ t. All (λ u. u ≢ t) pages) (sym t) (D.table_used e lte h')
      ];
      table_own = λ e lte h. elim (which e h) [
        | inl (_, t) ↦ subst (λ t. t ≢ pgdir) (sym t) N.not_dir
        | inr (_, h', t) ↦ subst (λ t. t ≢ pgdir) (sym t) (D.table_own e lte h')
      ];
      apart = λ e f lte ltf he hf ne. elim (which e he) [
        | inl (s, t) ↦ elim (which f hf) [
          | inl (s', t') ↦ absurd (ne (s ∙ sym s'))
          | inr (_, h', t') ↦ λ q. N.not_table f ltf h' (sym t' ∙ sym q ∙ t)
        ]
        | inr (_, h, t) ↦ elim (which f hf) [
          | inl (s', t') ↦ λ q. N.not_table e lte h (sym t ∙ q ∙ t')
          | inr (_, h', t') ↦ λ q. D.apart e f lte ltf h h' ne (sym t ∙ q ∙ t')
        ]
      ];
    }

    pub lookup_new : (va : ℕ) → lookup linked pgdir va ≡ lookup words pgdir va
    lookup_new va = elim (ℕ_discrete (pdx va) d) [
      | yes same ↦
          let was : is_present (words (pgdir + 4 * pdx va)) ≡ false =
            ap (λ e. is_present (words (pgdir + 4 * e))) same ∙ N.absent in
          let slot : linked (v + 4 * ptx va) ≡ words (v + 4 * ptx va) =
            Off-page pgdir v (4 * ptx va) D.dir.aligned N.page.aligned N.not_dir (omega arith)
              dir_change in
          let zeroed : linked (table_at linked pgdir (pdx va) + 4 * ptx va) ≡ 0 =
            ap (λ t. linked (t + 4 * ptx va)) (ap (table_at linked pgdir) same ∙ at_table)
            ∙ slot
            ∙ N.empty (4 * ptx va) (omega arith) in
          lookup_zero linked pgdir va zeroed ∙ sym (lookup_absent words pgdir va was)
      | no ne ↦ lookup_same words linked pgdir va (other_entry (pdx va) ne) (λ h.
          Off-page pgdir (table_at words pgdir (pdx va)) (4 * ptx va) D.dir.aligned
            (D.table (pdx va) (omega arith) h).aligned (D.table_own (pdx va) (omega arith) h)
            (omega arith) dir_change)
    ]
