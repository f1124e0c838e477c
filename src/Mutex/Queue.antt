-- ===== src/Mutex/Queue.antt =====
-- The array of waiting threads in a mutex (kthread.h, kthread.c): the shift of
-- `popThreadToMutexQueue`, and the array seen as the list of threads that wait.
use os.Base.{suc, ◌<◌, ◌≡◌, refl, ap, Option, none, some, List, [], ◌∷◌, ◌++◌, length, set, arith}

module _ {ℓ} {A : Type ℓ} where
  -- for(i = 1; i < NTHREAD; i++){ q[i-1] = q[i]; if(q[i] == 0) break; }
  unfoldable pub shift : List (Option A) → List (Option A)
  shift [] = []
  shift (x ∷ []) = x ∷ []
  shift (x ∷ none ∷ r) = none ∷ none ∷ r
  shift (x ∷ some y ∷ r) = some y ∷ shift (some y ∷ r)

  -- The threads in the array before its first null entry.
  abbrev pub waiting : List (Option A) → List A
  waiting [] = []
  waiting (none ∷ r) = []
  waiting (some x ∷ r) = x ∷ waiting r

  abbrev pub AllNull : List (Option A) → Type 0
  AllNull [] = Unit
  AllNull (none ∷ r) = AllNull r
  AllNull (some x ∷ r) = ⊥

  -- No thread stands behind a null entry.
  abbrev pub Packed : List (Option A) → Type 0
  Packed [] = Unit
  Packed (none ∷ r) = AllNull r
  Packed (some x ∷ r) = Packed r

module _ {ℓ} {A : Type ℓ} where
  pub length-shift : (q : List (Option A)) → length (shift q) ≡ length q
  unfolding shift
  length-shift [] = refl
  length-shift (x ∷ []) = refl
  length-shift (x ∷ none ∷ r) = refl
  length-shift (x ∷ some y ∷ r) = ap suc (length-shift (some y ∷ r))

  AllNull-set_last : (r : List (Option A)) → AllNull r → AllNull (set (none ∷ r) (length r) none)
  AllNull-set_last [] h = tt
  AllNull-set_last (none ∷ r) h = AllNull-set_last r h
  AllNull-set_last (some x ∷ r) h = elim h [ ]

  -- After the shift and `q[NTHREAD-1] = 0` the array holds the rest of the queue.
  pub waiting-shift :
      (x : A) (r : List (Option A)) → waiting (set (shift (some x ∷ r)) (length r) none) ≡ waiting r
  unfolding shift
  waiting-shift x [] = refl
  waiting-shift x (none ∷ r) = refl
  waiting-shift x (some y ∷ r) = ap (λ l. y ∷ l) (waiting-shift y r)

  pub shift-Packed :
      (x : A) (r : List (Option A)) → Packed r → Packed (set (shift (some x ∷ r)) (length r) none)
  unfolding shift
  shift-Packed x [] h = tt
  shift-Packed x (none ∷ []) h = tt
  shift-Packed x (none ∷ none ∷ r) h = AllNull-set_last r h
  shift-Packed x (none ∷ some y ∷ r) h = elim h [ ]
  shift-Packed x (some y ∷ r) h = shift-Packed y r h

  waiting-AllNull : (q : List (Option A)) → AllNull q → waiting q ≡ []
  waiting-AllNull [] h = refl
  waiting-AllNull (none ∷ r) h = refl
  waiting-AllNull (some x ∷ r) h = elim h [ ]

  -- `q[last] = t` at the first null entry puts `t` behind the threads that wait.
  pub waiting-set :
      (q : List (Option A)) (x : A)
      → Packed q
      → length (waiting q) < length q
      → waiting (set q (length (waiting q)) (some x)) ≡ waiting q ++ x ∷ []
  waiting-set [] x h l = absurd (omega arith)
  waiting-set (none ∷ r) x h l = ap (λ w. x ∷ w) (waiting-AllNull r h)
  waiting-set (some y ∷ r) x h l = ap (λ w. y ∷ w) (waiting-set r x h (omega arith))

  AllNull-Packed : (q : List (Option A)) → AllNull q → Packed q
  AllNull-Packed [] h = tt
  AllNull-Packed (none ∷ r) h = h
  AllNull-Packed (some x ∷ r) h = elim h [ ]

  pub set-Packed :
      (q : List (Option A)) (x : A) → Packed q → Packed (set q (length (waiting q)) (some x))
  set-Packed [] x h = tt
  set-Packed (none ∷ r) x h = AllNull-Packed r h
  set-Packed (some y ∷ r) x h = set-Packed r x h

  pub length-waiting_le : (q : List (Option A)) → length (waiting q) < suc (length q)
  length-waiting_le [] = omega arith
  length-waiting_le (none ∷ r) = omega arith
  length-waiting_le (some x ∷ r) = omega (arith, length-waiting_le r)
