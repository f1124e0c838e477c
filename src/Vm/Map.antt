-- ===== src/Vm/Map.antt =====
-- vm.c: walkpgdir and the rounds of mappages on a well-formed address space.
use Prim.Native.Nat.{bit_or}
use os.Base.{
  ℕ, ◌+◌, ◌*◌, ◌/◌, ◌^◌, ◌<◌, ◌≡◌, ◌≢◌, ◌⊎◌, inl, inr, refl, sym, ap, subst, ◌∙◌, ◌==◌, true, false,
  none, some, List, [], ◌∷◌, arith, Bool-cases, ok, panic,
}
use os.Kalloc.Defs.{pgsize, v2p, Kmem, store, kalloc}
use os.Kalloc.Chain.{IsPage, Free, kalloc-empty}
use os.Vm.Bits.{bit_or_odd}
use os.Vm.Table.{p2v, pdx, ptx, pte_addr, is_present, blank, new_table, walkpgdir, map_page}
use os.Vm.View.{lookup, table_at, HasTable, IsDir, Space, Off, Chain-Off}
use os.Vm.Frame.{
  lookup_absent, lookup_off, dir_entry, IsDir-inside, IsDir-new, NewPage, has_new, at_table,
  lookup_new, dir_change, pte_change, IsDir-entry, lookup_entry, lookup_other,
}

pub IsDir-tail :
    {end pgdir v : ℕ} {words : ℕ → ℕ} {vs : List ℕ}
    → IsDir end pgdir words (v ∷ vs)
    → IsDir end pgdir words vs
IsDir-tail D = record {
  dir = D.dir;
  dir_used = D.dir_used.1;
  table = D.table;
  table_used = λ d lt h. (D.table_used d lt h).1;
  table_own = D.table_own;
  apart = D.apart;
}

-- walkpgdir found or made the page table of an address: the free pages are the same, or one less.
pub record Walked (pgdir va : ℕ) (k : Kmem) (pages : List ℕ) (k1 : Kmem) (left : List ℕ)
    : Type 0 where
  pub step : walkpgdir pgdir va true k ≡ (table_at k1.words pgdir (pdx va) + 4 * ptx va, k1)
  pub space : Space pgdir k1 left
  pub has : HasTable k1.words pgdir (pdx va)
  pub same_end : k1.end ≡ k.end
  pub looks : (va' : ℕ) → lookup k1.words pgdir va' ≡ lookup k.words pgdir va'
  pub fewer : (pages ≡ left) ⊎ ((v : ℕ) × (pages ≡ v ∷ left))

blank_change : (v : ℕ) (words : ℕ → ℕ) → Off v words (blank v words)
blank_change v words a side = elim side [
  | inl lo ↦ ground (arith, lo)
  | inr hi ↦ ground (arith, hi)
]

blank_empty : (v x : ℕ) (words : ℕ → ℕ) → x < pgsize → blank v words (v + x) ≡ 0
blank_empty v x words lt = ground (arith, lt)

-- kalloc on a well-formed address space hands out its first free page, which may be blanked.
module _ (pgdir : ℕ) (k : Kmem) (v : ℕ) (vs : List ℕ) (space : Space pgdir k (v ∷ vs)) where
  pub taken : kalloc k ≡ (v, record k { freelist = k.words v })
  unfolding kalloc
  taken =
      let first : k.freelist ≡ v = space.1.0 in
      let some_page : (v == 0) ≡ false = ground (arith, space.1.1.kernel) in
      rw (first, some_page) refl

  abbrev pub blanked : Kmem
  blanked = record k { words = blank v k.words; freelist = k.words v }

  D0 : IsDir k.end pgdir k.words vs
  D0 = IsDir-tail space.0

  not_dir : v ≢ pgdir
  not_dir = space.0.dir_used.0

  pub same_dir : (e : ℕ) → e < 1024 → blanked.words (pgdir + 4 * e) ≡ k.words (pgdir + 4 * e)
  same_dir =
      dir_entry k.end pgdir k.words vs D0 v blanked.words space.1.1.aligned not_dir
        (blank_change v k.words)

  not_table :
      (e : ℕ) → e < 1024 → HasTable blanked.words pgdir e → table_at blanked.words pgdir e ≢ v
  not_table e lt h q =
      let before : HasTable k.words pgdir e = ap is_present (sym (same_dir e lt)) ∙ h in
      (space.0.table_used e lt before).0 (sym q ∙ ap (λ x. p2v (pte_addr x)) (same_dir e lt))

  pub Space-blanked : Space pgdir blanked vs
  Space-blanked = (
    IsDir-inside k.end pgdir k.words vs D0 v blanked.words space.1.1.aligned not_dir
        (blank_change v k.words),
    Chain-Off v k.end (k.words v) vs space.1.1.aligned space.1.2 (blank_change v k.words) space.1.3,
  )

  pub lookup-blanked : (va : ℕ) → lookup blanked.words pgdir va ≡ lookup k.words pgdir va
  lookup-blanked va =
      lookup_off k.end pgdir k.words vs D0 v blanked.words space.1.1.aligned not_dir
        (blank_change v k.words) va (λ h q. (space.0.table_used (pdx va) (omega arith) h).0 (sym q))

module _ (pgdir va : ℕ) (k : Kmem) where
  walk_found :
      (pages : List ℕ)
      → Space pgdir k pages
      → HasTable k.words pgdir (pdx va)
      → Walked pgdir va k pages k pages
  unfolding walkpgdir
  walk_found pages space here = record {
    step = rw (here) refl;
    space = space;
    has = here;
    same_end = refl;
    looks = λ va'. refl;
    fewer = inl refl;
  }

  pub walk_none :
      is_present (k.words (pgdir + 4 * pdx va)) ≡ false
      → Free k []
      → walkpgdir pgdir va true k ≡ (0, k)
  unfolding walkpgdir new_table
  walk_none absent free = rw (absent, kalloc-empty k free) refl

  module _ (v : ℕ) (vs : List ℕ) (space : Space pgdir k (v ∷ vs))
      (absent : is_present (k.words (pgdir + 4 * pdx va)) ≡ false) where
    new_page : NewPage k.end pgdir (blank v k.words) vs (pdx va) v
    new_page = record {
      lt = omega arith;
      absent = ap is_present (same_dir pgdir k v vs space (pdx va) (omega arith)) ∙ absent;
      page = space.1.1;
      unused = space.1.2;
      not_dir = not_dir pgdir k v vs space;
      not_table = not_table pgdir k v vs space;
      empty = λ x lx. blank_empty v x k.words lx;
    }

    abbrev k1 : Kmem
    k1 = record k {
      words = store (pgdir + 4 * pdx va) (bit_or (v2p v) 7) (blank v k.words);
      freelist = k.words v;
    }

    walk_new : Walked pgdir va k (v ∷ vs) k1 vs
    unfolding walkpgdir new_table
    walk_new =
        let (D, chain) = Space-blanked pgdir k v vs space in
        let some_page : (v == 0) ≡ false = ground (arith, space.1.1.kernel) in
        let named = at_table k.end pgdir (blank v k.words) vs D (pdx va) v new_page in
        record {
          step =
              subst (λ t. walkpgdir pgdir va true k ≡ (t + 4 * ptx va, k1)) (sym named)
                (rw (absent, taken pgdir k v vs space, some_page) refl);
          space = (
            IsDir-new k.end pgdir (blank v k.words) vs D (pdx va) v new_page,
            Chain-Off pgdir k.end (k.words v) vs D.dir.aligned D.dir_used
                (dir_change k.end pgdir (blank v k.words) vs D (pdx va) v new_page) chain,
          );
          has = has_new k.end pgdir (blank v k.words) vs D (pdx va) v new_page;
          same_end = refl;
          looks = λ va'.
              lookup_new k.end pgdir (blank v k.words) vs D (pdx va) v new_page va'
              ∙ lookup-blanked pgdir k v vs space va';
          fewer = inr (v, refl);
        }

walk_cases :
    (pgdir va : ℕ) (k : Kmem) (pages : List ℕ)
    → Space pgdir k pages
    → ((k1 : Kmem) × (left : List ℕ) × Walked pgdir va k pages k1 left)
      ⊎ ((is_present (k.words (pgdir + 4 * pdx va)) ≡ false)
          × (pages ≡ [])
          × (walkpgdir pgdir va true k ≡ (0, k)))
walk_cases pgdir va k [] space = elim (Bool-cases (is_present (k.words (pgdir + 4 * pdx va)))) [
  | inl here ↦ inl (k, [], walk_found pgdir va k [] space here)
  | inr absent ↦ inr (absent, refl, walk_none pgdir va k absent space.1)
]
walk_cases pgdir va k (v ∷ vs) space =
    elim (Bool-cases (is_present (k.words (pgdir + 4 * pdx va)))) [
      | inl here ↦ inl (k, v ∷ vs, walk_found pgdir va k (v ∷ vs) space here)
      | inr absent ↦ inl (_, vs, walk_new pgdir va k v vs space absent)
    ]

-- The entry `e` was placed for the page of `a`, and every other page is mapped as before.
pub record Placed (pgdir a e : ℕ) (k k' : Kmem) (pages left : List ℕ) : Type 0 where
  pub space : Space pgdir k' left
  pub same_end : k'.end ≡ k.end
  pub here : lookup k'.words pgdir a ≡ some e
  pub others :
      (va : ℕ)
      → va < 2 ^ 32
      → va / pgsize ≢ a / pgsize
      → lookup k'.words pgdir va ≡ lookup k.words pgdir va
  pub fewer : (pages ≡ left) ⊎ ((v : ℕ) × (pages ≡ v ∷ left))

lookup_there :
    (words : ℕ → ℕ) (pgdir va : ℕ)
    → HasTable words pgdir (pdx va)
    → is_present (words (table_at words pgdir (pdx va) + 4 * ptx va)) ≡ true
    → lookup words pgdir va ≡ some (words (table_at words pgdir (pdx va) + 4 * ptx va))
unfolding lookup
lookup_there words pgdir va h p = rw (h, p) refl

lookup_not :
    (words : ℕ → ℕ) (pgdir va : ℕ)
    → is_present (words (table_at words pgdir (pdx va) + 4 * ptx va)) ≡ false
    → lookup words pgdir va ≡ none
unfolding lookup
lookup_not words pgdir va p = elim (Bool-cases (is_present (words (pgdir + 4 * pdx va)))) [
  | inl here ↦ rw (here, p) refl
  | inr absent ↦ rw (absent) refl
]

module _ (pgdir a pa perm : ℕ) (k : Kmem) (pages : List ℕ) (lt : a < 2 ^ 32) where
  abbrev placed_in : Kmem → Kmem
  placed_in k1 = record k1 {
    words =
        store (table_at k1.words pgdir (pdx a) + 4 * ptx a) (bit_or (bit_or pa perm) 1) k1.words;
  }

  put_entry :
      (k1 : Kmem) (left : List ℕ)
      → Walked pgdir a k pages k1 left
      → Placed pgdir a (bit_or (bit_or pa perm) 1) k (placed_in k1) pages left
  put_entry k1 left w =
      let e : ℕ = bit_or (bit_or pa perm) 1 in
      let D = w.space.0 in
      let T : IsPage k1.end (table_at k1.words pgdir (pdx a)) =
        D.table (pdx a) (omega arith) w.has in
      record {
        space = (
          IsDir-entry k1.end pgdir k1.words left D a e w.has,
          Chain-Off (table_at k1.words pgdir (pdx a)) k1.end k1.freelist left T.aligned
              (D.table_used (pdx a) (omega arith) w.has)
              (pte_change k1.end pgdir k1.words left D a e w.has) w.space.1,
        );
        same_end = w.same_end;
        here =
            lookup_entry k1.end pgdir k1.words left D a e w.has
              (ground (arith, bit_or_odd (bit_or pa perm)));
        others = λ va lt' ne.
            lookup_other k1.end pgdir k1.words left D a e w.has va lt lt' ne ∙ w.looks va;
        fewer = w.fewer;
      }

  pub map_page-Placed :
      Space pgdir k pages
      → ((x : ℕ) × (lookup k.words pgdir a ≡ some x) × (map_page pgdir a pa perm k ≡ panic "remap"))
        ⊎ ((lookup k.words pgdir a ≡ none)
            × (((pages ≡ []) × (map_page pgdir a pa perm k ≡ ok (false, k)))
                ⊎ ((k' : Kmem) × (left : List ℕ) × (map_page pgdir a pa perm k ≡ ok (true, k'))
                    × Placed pgdir a (bit_or (bit_or pa perm) 1) k k' pages left)))
  unfolding map_page
  map_page-Placed space = elim (walk_cases pgdir a k pages space) [
    | inr (absent, nothing, step) ↦
        inr (lookup_absent k.words pgdir a absent, inl (nothing, rw (step) refl))
    | inl (k1, left, w) ↦
        let pte : ℕ = table_at k1.words pgdir (pdx a) + 4 * ptx a in
        let T : IsPage k1.end (table_at k1.words pgdir (pdx a)) =
          w.space.0.table (pdx a) (omega arith) w.has in
        let there : (pte == 0) ≡ false = ground (arith, T.kernel) in
        elim (Bool-cases (is_present (k1.words pte))) [
          | inl used ↦ inl (
            k1.words pte,
            sym (w.looks a) ∙ lookup_there k1.words pgdir a w.has used,
            rw (w.step, there, used) refl,
          )
          | inr free ↦ inr (
            sym (w.looks a) ∙ lookup_not k1.words pgdir a free,
            inr (placed_in k1, left, rw (w.step, there, free) refl, put_entry k1 left w),
          )
        ]
  ]
