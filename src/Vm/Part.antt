-- ===== src/Vm/Part.antt =====
-- vm.c: uva2ka, and a round of copyout.
use os.Base.{
  get_or-drop, get_or-take, length-drop, length-take_le, take_has, ℕ, zero, suc, ◌+◌, ◌-◌, ◌*◌, ◌/◌,
  ◌%◌, ◌^◌, ◌<◌, ◌≤◌, ◌≡◌, ◌≢◌, ◌⊎◌, inl, inr, refl, sym, ap, subst, ◌∙◌, true, some, List, [], ◌∷◌,
  length, get_or, take, drop, arith, dec_lt,
}
use os.Kalloc.Defs.{pgsize, Kmem}
use os.Kalloc.Chain.{IsPage}
use os.Vm.Table.{
  p2v, pdx, ptx, pte_addr, is_present, is_user, pg_round_down, byte_at, put_bytes, walkpgdir,
  uva2ka,
}
use os.Vm.View.{lookup, table_at, HasTable, IsDir, Off}
use os.Vm.Frame.{dir_entry, IsDir-inside, lookup_off}
use os.Vm.Bytes.{Small, put_bytes-inside, put_bytes-Off}

lookup-some :
    (words : ℕ → ℕ) (pgdir va e : ℕ)
    → lookup words pgdir va ≡ some e
    → HasTable words pgdir (pdx va)
      × (words (table_at words pgdir (pdx va) + 4 * ptx va) ≡ e)
      × (is_present e ≡ true)
unfolding lookup
lookup-some words pgdir va e h = ground (arith, h)

uva2ka_user :
    (pgdir va e : ℕ) (k : Kmem)
    → lookup k.words pgdir va ≡ some e
    → is_user e ≡ true
    → uva2ka pgdir va k ≡ p2v (pte_addr e)
unfolding uva2ka walkpgdir
uva2ka_user pgdir va e k h user =
    let (has, slot, present) = lookup-some k.words pgdir va e h in
    rw (has, slot, present, user) refl

-- Page `p` of the user stands in the page `f p` of the memory, for the pages from `lo` to `hi`: no
-- two stand in the same page, and none in the page directory or in a page table.
pub record UserPages (end pgdir : ℕ) (f : ℕ → ℕ) (lo hi : ℕ) (words : ℕ → ℕ) : Type 0 where
  pub mapped :
      (p : ℕ)
      → lo ≤ p
      → p ≤ hi
      → (e : ℕ) × (lookup words pgdir (p * pgsize) ≡ some e)
        × (is_user e ≡ true)
        × (p2v (pte_addr e) ≡ f p)
  pub page : (p : ℕ) → lo ≤ p → p ≤ hi → IsPage end (f p)
  pub not_dir : (p : ℕ) → lo ≤ p → p ≤ hi → f p ≢ pgdir
  pub not_table :
      (p d : ℕ) → lo ≤ p → p ≤ hi → d < 1024 → HasTable words pgdir d → table_at words pgdir d ≢ f p
  pub apart : (p q : ℕ) → lo ≤ p → p < q → q ≤ hi → f p ≢ f q

-- The buffer stands in the pages of the user from `va` on, and the rest of the memory is as before.
pub record Copied (f : ℕ → ℕ) (va : ℕ) (buf : List ℕ) (words words' : ℕ → ℕ) : Type 0 where
  pub bytes :
      (i : ℕ)
      → i < length buf
      → byte_at words' (f ((va + i) / pgsize) + (va + i) % pgsize) ≡ get_or buf i 0
  pub kept :
      (a : ℕ)
      → ((p : ℕ)
          → va / pgsize ≤ p
          → p ≤ (va + length buf - 1) / pgsize
          → (a < f p) ⊎ (f p + pgsize ≤ a))
      → words' a ≡ words a

take-Small : (m : ℕ) (xs : List ℕ) → Small xs → Small (take m xs)
take-Small zero xs small i = omega arith
take-Small (suc m) [] small i = omega arith
take-Small (suc m) (x ∷ xs) small zero = small 0
take-Small (suc m) (x ∷ xs) small (suc i) = take-Small m xs (λ j. small (suc j)) i

word_apart :
    (u v x : ℕ)
    → u % pgsize ≡ 0
    → v % pgsize ≡ 0
    → u ≢ v
    → x < pgsize
    → ((u + x) / 4 * 4 < v) ⊎ (v + pgsize ≤ (u + x) / 4 * 4)
word_apart u v x au av ne lt = elim (dec_lt u v) [
  | yes below ↦ inl (omega arith)
  | no above ↦ inr (omega arith)
]

-- A round of copyout: the part of the buffer that goes to the page of `va`.
module _ (pgdir va : ℕ) (f : ℕ → ℕ) (xs : List ℕ) (k : Kmem) (pages : List ℕ)
    (D : IsDir k.end pgdir k.words pages) (some_bytes : 0 < length xs)
    (fits : va + length xs ≤ 2 ^ 32) (small : Small xs)
    (U : UserPages k.end pgdir f (va / pgsize) ((va + length xs - 1) / pgsize) k.words) where
  abbrev lo : ℕ
  lo = va / pgsize

  abbrev hi : ℕ
  hi = (va + length xs - 1) / pgsize

  abbrev part : ℕ
  part = pgsize - (va - pg_round_down va)

  abbrev start : ℕ
  start = f lo + (va - pg_round_down va)

  abbrev w1 : ℕ → ℕ
  w1 = put_bytes start (take part xs) k.words

  pub first-page : IsPage k.end (f lo)
  first-page = U.page lo (omega arith) (omega arith)

  part-Off : Off (f lo) k.words w1
  part-Off =
      put_bytes-Off (f lo) start (take part xs) k.words first-page.aligned (omega arith)
        (omega (arith, length-take_le part xs))

  same_table :
      (d : ℕ)
      → d < 1024
      → HasTable w1 pgdir d
      → HasTable k.words pgdir d × (table_at w1 pgdir d ≡ table_at k.words pgdir d)
  same_table d lt h =
      let e : w1 (pgdir + 4 * d) ≡ k.words (pgdir + 4 * d) =
        dir_entry k.end pgdir k.words pages D (f lo) w1 first-page.aligned
          (U.not_dir lo (omega arith) (omega arith)) part-Off d lt in
      (ap is_present (sym e) ∙ h, ap (λ x. p2v (pte_addr x)) e)

  same_lookup : (va' : ℕ) → lookup w1 pgdir va' ≡ lookup k.words pgdir va'
  same_lookup va' =
      lookup_off k.end pgdir k.words pages D (f lo) w1 first-page.aligned
        (U.not_dir lo (omega arith) (omega arith)) part-Off va'
        (λ h. U.not_table lo (pdx va') (omega arith) (omega arith) (omega arith) h)

  pub IsDir-after : IsDir k.end pgdir w1 pages
  IsDir-after =
      IsDir-inside k.end pgdir k.words pages D (f lo) w1 first-page.aligned
        (U.not_dir lo (omega arith) (omega arith)) part-Off

  pub UserPages-after : (lo' : ℕ) → lo ≤ lo' → UserPages k.end pgdir f lo' hi w1
  UserPages-after lo' le = record {
    mapped = λ p lp ph.
        let (e, at, user, frame) = U.mapped p (omega (arith, le, lp)) ph in
        (e, same_lookup (p * pgsize) ∙ at, user, frame);
    page = λ p lp ph. U.page p (omega (arith, le, lp)) ph;
    not_dir = λ p lp ph. U.not_dir p (omega (arith, le, lp)) ph;
    not_table = λ p d lp ph lt h q.
        let (before, same) = same_table d lt h in
        U.not_table p d (omega (arith, le, lp)) ph lt before (sym same ∙ q);
    apart = λ p q lp pq qh. U.apart p q (omega (arith, le, lp)) pq qh;
  }

  -- The bytes of the part.
  part_bytes :
      (i : ℕ)
      → i < part
      → i < length xs
      → byte_at w1 (f ((va + i) / pgsize) + (va + i) % pgsize) ≡ get_or xs i 0
  part_bytes i lt lt' =
      let same_page : (va + i) / pgsize ≡ lo = omega (arith, lt) in
      let offset : (va + i) % pgsize ≡ va - pg_round_down va + i = omega (arith, lt) in
      let place : f ((va + i) / pgsize) + (va + i) % pgsize ≡ start + i =
        ap (λ p. f p + (va + i) % pgsize) same_page ∙ omega (arith, offset) in
      ap (byte_at w1) place
      ∙ put_bytes-inside start i (take part xs) k.words (take-Small part xs small)
          (take_has part i xs lt lt')
      ∙ get_or-take part i xs lt

  pub first_ka : uva2ka pgdir (pg_round_down va) k ≡ f lo
  first_ka =
      let (e, at, user, frame) = U.mapped lo (omega arith) (omega arith) in
      uva2ka_user pgdir (pg_round_down va) e k at user ∙ frame

  pub Copied-last : length xs ≤ part → Copied f va xs k.words w1
  Copied-last le = record {
    bytes = λ i lt. part_bytes i (omega (arith, lt, le)) lt;
    kept = λ a away. part-Off a (away lo (omega arith) (omega arith));
  }

  kept_byte :
      (w2 : ℕ → ℕ) (i : ℕ)
      → part < length xs
      → Copied f (pg_round_down va + pgsize) (drop part xs) w1 w2
      → i < part
      → byte_at w2 (f ((va + i) / pgsize) + (va + i) % pgsize)
        ≡ byte_at w1 (f ((va + i) / pgsize) + (va + i) % pgsize)
  kept_byte w2 i lt c inside =
      let same_page : lo ≡ (va + i) / pgsize = omega (arith, inside) in
      let x : ℕ = (va + i) % pgsize in
      let here : byte_at w2 (f lo + x) ≡ byte_at w1 (f lo + x) =
        ap (λ w. w / 256 ^ ((f lo + x) % 4) % 256)
          (c.kept ((f lo + x) / 4 * 4) (λ p lp ph.
            let p-hi : p ≤ hi = omega (arith, ph, length-drop part xs, lt) in
            word_apart (f lo) (f p) x first-page.aligned (U.page p (omega (arith, lp)) p-hi).aligned
              (U.apart lo p (omega arith) (omega (arith, lp)) p-hi) (omega arith))) in
      subst (λ q. byte_at w2 (f q + x) ≡ byte_at w1 (f q + x)) same_page here

  pub Copied-more :
      (w2 : ℕ → ℕ)
      → part < length xs
      → Copied f (pg_round_down va + pgsize) (drop part xs) w1 w2
      → Copied f va xs k.words w2
  Copied-more w2 lt c = record {
    bytes = λ i lti. elim (dec_lt i part) [
      | yes inside ↦ kept_byte w2 i lt c inside ∙ part_bytes i inside lti
      | no later ↦
          let at : va + i ≡ pg_round_down va + pgsize + (i - part) = omega (arith, later) in
          let back : part + (i - part) ≡ i = omega (arith, later) in
          ap (λ j. byte_at w2 (f (j / pgsize) + j % pgsize)) at
          ∙ c.bytes (i - part) (omega (arith, length-drop part xs, lti, later))
          ∙ get_or-drop part (i - part) xs
          ∙ ap (λ j. get_or xs j 0) back
    ];
    kept = λ a away.
        c.kept a
          (λ p lp ph. away p (omega (arith, lp)) (omega (arith, ph, length-drop part xs, lt)))
        ∙ part-Off a (away lo (omega arith) (omega arith));
  }
