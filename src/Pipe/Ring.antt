-- ===== src/Pipe/Ring.antt =====
-- A pipe as the queue of the bytes in it.
use os.Base.{
  ℕ, zero, suc, ◌+◌, ◌-◌, ◌%◌, ◌^◌, ◌==◌, ◌<◌, ◌≤◌, ◌≡◌, ◌≢◌, refl, ap, ap₂, ◌∙◌, List, [], ◌∷◌,
  ◌++◌, length, get_or, set, arith, length-set, get_or-set_at, get_or-set_ne,
}
use os.Pipe.Defs.{Pipe, pipesize, add32, is_full, is_empty, put, front, advance}

-- The number of bytes in the pipe.
abbrev pub count : Pipe → ℕ
count p = (p.nwrite + 2 ^ 32 - p.nread) % 2 ^ 32

pub record IsValid (p : Pipe) : Type 0 where
  pub size : length p.buf ≡ pipesize
  pub nread_fits : p.nread < 2 ^ 32
  pub nwrite_fits : p.nwrite < 2 ^ 32
  pub room : count p ≤ pipesize

-- The `n` bytes from the count `r` on.
abbrev pub window : List ℕ → ℕ → ℕ → List ℕ
window buf r zero = []
window buf r (suc n) = get_or buf (r % pipesize) 0 ∷ window buf (add32 r 1) n

-- The bytes in the pipe, the oldest first.
abbrev pub contents : Pipe → List ℕ
contents p = window p.buf p.nread (count p)

pub full_iff : (p : Pipe) → IsValid p → is_full p ≡ (count p == pipesize)
full_iff p v = ground arith

pub empty_iff : (p : Pipe) → IsValid p → is_empty p ≡ (count p == 0)
empty_iff p v = ground arith

window-set :
    (buf : List ℕ) (r n i x : ℕ)
    → length buf ≡ pipesize
    → r < 2 ^ 32
    → n < pipesize
    → i ≡ add32 r n
    → window (set buf (i % pipesize) x) r (suc n) ≡ window buf r n ++ x ∷ []
window-set buf r zero i x size fits small e =
    ap (λ b. b ∷ [])
      (get_or-set_at buf (i % pipesize) (r % pipesize) x 0 (omega arith) (omega arith))
window-set buf r (suc n) i x size fits small e =
    ap₂ ◌∷◌ (get_or-set_ne buf (i % pipesize) (r % pipesize) x 0 (omega arith))
      (window-set buf (add32 r 1) n i x size (omega arith) (omega arith) (omega arith))

pub put-IsValid : (x : ℕ) (p : Pipe) → IsValid p → count p ≢ pipesize → IsValid (put x p)
put-IsValid x p v nf = record {
  size = length-set p.buf (p.nwrite % pipesize) x ∙ v.size;
  nread_fits = v.nread_fits;
  nwrite_fits = omega arith;
  room = omega (arith, v.room, v.nread_fits, v.nwrite_fits);
}

pub contents-put :
    (x : ℕ) (p : Pipe) → IsValid p → count p ≢ pipesize → contents (put x p) ≡ contents p ++ x ∷ []
contents-put x p v nf =
    let more : count (put x p) ≡ suc (count p) =
      omega (arith, v.room, v.nread_fits, v.nwrite_fits) in
    ap (λ c. window (set p.buf (p.nwrite % pipesize) x) p.nread c) more
    ∙ window-set p.buf p.nread (count p) p.nwrite x v.size v.nread_fits (omega (arith, v.room))
        (omega (arith, v.nread_fits, v.nwrite_fits))

pub advance-IsValid : (p : Pipe) → IsValid p → count p ≢ 0 → IsValid (advance p)
advance-IsValid p v ne = record {
  size = v.size;
  nread_fits = omega arith;
  nwrite_fits = v.nwrite_fits;
  room = omega (arith, v.room, v.nread_fits, v.nwrite_fits);
}

window-pos :
    (buf : List ℕ) (r c : ℕ)
    → c ≢ 0
    → window buf r c ≡ get_or buf (r % pipesize) 0 ∷ window buf (add32 r 1) (c - 1)
window-pos buf r zero h = absurd (h refl)
window-pos buf r (suc c) h = ap (λ k. window buf r (suc k)) (omega arith)

pub contents-advance :
    (p : Pipe) → IsValid p → count p ≢ 0 → contents p ≡ front p ∷ contents (advance p)
contents-advance p v ne =
    let less : count p - 1 ≡ count (advance p) = omega (arith, v.nread_fits, v.nwrite_fits) in
    window-pos p.buf p.nread (count p) ne
    ∙ ap (λ c. front p ∷ window p.buf (add32 p.nread 1) c) less

pub contents-nil : (p : Pipe) → count p ≡ 0 → contents p ≡ []
contents-nil p e = ap (λ c. window p.buf p.nread c) e

pub count-put : (x : ℕ) (p : Pipe) → IsValid p → count p ≢ pipesize → count (put x p) ≡ count p + 1
count-put x p v nf = omega (arith, v.room, v.nread_fits, v.nwrite_fits)

pub count-advance : (p : Pipe) → IsValid p → count p ≢ 0 → count (advance p) + 1 ≡ count p
count-advance p v ne = omega (arith, v.room, v.nread_fits, v.nwrite_fits)
