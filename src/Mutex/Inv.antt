-- ===== src/Mutex/Inv.antt =====
-- kthread.c: what holds of every entry of `mutextable` between two sections.
use os.Base.{
  ℕ, zero, suc, ◌+◌, ◌-◌, ◌<◌, ◌≡◌, refl, sym, ap, subst, ◌∙◌, ◌⊎◌, inl, inr, Bool, true, false,
  Option, none, some, List, [], ◌∷◌, ◌++◌, length, get_elem?, set, arith, length-set, length-append,
  ok, ℤ, pos, minus_one,
}
use mathlib.Core.Option.{some-injective}
use os.Proc.Defs.{nthread, Ptr}
use os.Mutex.Queue.{
  shift, waiting, Packed, length-shift, waiting-shift, shift-Packed, waiting-set, set-Packed,
}
use os.Mutex.Defs.{
  MutexState, unused_mutex, used_mutex, Mutex, Kernel, empty_queue, push_thread, popped, pop_thread,
}

-- The threads that wait for a mutex, first come first.
abbrev pub waiters : Mutex → List Ptr
waiters m = waiting m.threads_queue

-- A used entry has its own index for its id and its spin lock; a free one is not locked.
abbrev pub Entry : MutexState → ℕ → ℤ → Option ℕ → Bool → Type 0
Entry used_mutex i id lock locked = (id ≡ pos i) × (lock ≡ some i)
Entry unused_mutex i id lock locked = locked ≡ false

-- Nobody waits for a mutex that is not locked.
abbrev pub Quiet : Bool → List Ptr → Type 0
Quiet false l = l ≡ []
Quiet true l = Unit

pub record IsValid (i : ℕ) (m : Mutex) : Type 0 where
  pub size : length m.threads_queue ≡ nthread
  pub packed : Packed m.threads_queue
  pub front : m.first ≡ 0
  pub back : m.last ≡ length (waiters m)
  pub id_known : (m.id ≡ pos 0) ⊎ (m.id ≡ minus_one) ⊎ (m.id ≡ pos i)
  pub owned : Entry m.state i m.id m.queue_lock m.locked
  pub quiet : Quiet m.locked (waiters m)

-- Every entry of the table is valid at its index.
abbrev pub AllValid : ℕ → List Mutex → Type 0
AllValid i [] = Unit
AllValid i (m ∷ ms) = IsValid i m × AllValid (i + 1) ms

pub queue_cases :
    (q : List (Option Ptr))
    → length q ≡ nthread
    → ((waiting q ≡ []) × (get_elem? q 0 ≡ some none))
      ⊎ ((t : Ptr) × (r : List (Option Ptr)) × (q ≡ some t ∷ r) × (length r ≡ nthread - 1))
queue_cases [] h = absurd (omega arith)
queue_cases (none ∷ r) h = inl (refl, refl)
queue_cases (some t ∷ r) h = inr (t, r, refl, omega arith)

-- Either nobody waits, or the first thread that waits can be taken out.
pub pop_cases :
    {i : ℕ} (m : Mutex)
    → IsValid i m
    → ((waiters m ≡ []) × (empty_queue m ≡ true))
      ⊎ ((t : Ptr) × (empty_queue m ≡ false)
          × (pop_thread m ≡ ok (t, popped m))
          × (waiters m ≡ t ∷ waiters (popped m))
          × Packed (popped m).threads_queue
          × (length (popped m).threads_queue ≡ nthread))
unfolding empty_queue pop_thread
pop_cases m v = elim (queue_cases m.threads_queue v.size) [
  | inl (none_waits, e) ↦ inl (none_waits, ground arith)
  | inr (t, r, e, l) ↦ inr (
    t,
    ground arith,
    ground (arith, v.front),
    rw e (rw (← l) (ap (λ w. t ∷ w) (sym (waiting-shift t r)))),
    rw e (rw (← l) (shift-Packed t r (rw e at v.packed))),
    length-set (shift m.threads_queue) (nthread - 1) none ∙ length-shift m.threads_queue ∙ v.size,
  )
]

-- What a push leaves, when there is room.
pub push_lem :
    {i : ℕ} (t : Ptr) (m : Mutex)
    → IsValid i m
    → length (waiters m) < nthread
    → (m' : Mutex) × (push_thread t m ≡ ok m')
      × (waiters m' ≡ waiters m ++ t ∷ [])
      × (m' ≡ record m { threads_queue = set m.threads_queue m.last (some t); last = m.last + 1 })
unfolding push_thread
push_lem t m v room = (
  record m { threads_queue = set m.threads_queue m.last (some t); last = m.last + 1 },
  ground (arith, v.back),
  rw v.back (waiting-set m.threads_queue t v.packed (omega (arith, v.size))),
  refl,
)

pub pushed-IsValid :
    {i : ℕ} (t : Ptr) (m : Mutex)
    → IsValid i m
    → length (waiters m) < nthread
    → m.locked ≡ true
    → IsValid i
        (record m { threads_queue = set m.threads_queue m.last (some t); last = m.last + 1 })
pushed-IsValid t m v room held = record {
  size = length-set m.threads_queue m.last (some t) ∙ v.size;
  packed = rw v.back (set-Packed m.threads_queue t v.packed);
  front = v.front;
  back = longer;
  id_known = v.id_known;
  owned = v.owned;
  quiet = rw held tt;
}
  where
    more : waiting (set m.threads_queue m.last (some t)) ≡ waiters m ++ t ∷ []
    more = rw v.back (waiting-set m.threads_queue t v.packed (omega (arith, v.size)))

    longer : m.last + 1 ≡ length (waiting (set m.threads_queue m.last (some t)))
    longer = rw more (omega (arith, v.back, length-append {0} (waiters m) (t ∷ [])))

pub popped-IsValid :
    {i : ℕ} (t : Ptr) (m : Mutex)
    → IsValid i m
    → waiters m ≡ t ∷ waiters (popped m)
    → Packed (popped m).threads_queue
    → length (popped m).threads_queue ≡ nthread
    → m.locked ≡ true
    → IsValid i (popped m)
popped-IsValid t m v w p l held = record {
  size = l;
  packed = p;
  front = v.front;
  back = omega (arith, v.back, ap length w);
  id_known = v.id_known;
  owned = v.owned;
  quiet = rw held tt;
}

-- A mutex whose queue and place are unchanged is valid again when only its lock flag goes up.
pub locked-IsValid :
    {i : ℕ} (m : Mutex)
    → IsValid i m
    → m.state ≡ used_mutex
    → IsValid i (record m { locked = true })
locked-IsValid m v used = record {
  size = v.size;
  packed = v.packed;
  front = v.front;
  back = v.back;
  id_known = v.id_known;
  owned = rw used (rw used at v.owned);
  quiet = tt;
}

pub unlocked-IsValid :
    {i : ℕ} (m : Mutex)
    → IsValid i m
    → m.state ≡ used_mutex
    → waiters m ≡ []
    → IsValid i (record m { locked = false })
unlocked-IsValid m v used nobody = record {
  size = v.size;
  packed = v.packed;
  front = v.front;
  back = v.back;
  id_known = v.id_known;
  owned = rw used (rw used at v.owned);
  quiet = nobody;
}

pub AllValid-get :
    (i : ℕ) (ms : List Mutex) (j : ℕ) {m : Mutex}
    → AllValid i ms
    → get_elem? ms j ≡ some m
    → IsValid (i + j) m
AllValid-get i [] j v e = cc
AllValid-get i (x ∷ ms) zero v e =
    let s : i + 0 ≡ i = omega arith in
    subst (λ y. IsValid (i + 0) y) (some-injective _ _ e) (rw s v.0)
AllValid-get i (x ∷ ms) (suc j) v e =
    let s : i + suc j ≡ i + 1 + j = omega arith in rw s (AllValid-get (i + 1) ms j v.1 e)

pub AllValid-set :
    (i : ℕ) (ms : List Mutex) (j : ℕ) (m : Mutex)
    → AllValid i ms
    → IsValid (i + j) m
    → AllValid i (set ms j m)
AllValid-set i [] j m v e = v
AllValid-set i (x ∷ ms) zero m v e = let s : i + 0 ≡ i = omega arith in (rw s at e, v.1)
AllValid-set i (x ∷ ms) (suc j) m v e =
    let s : i + suc j ≡ i + 1 + j = omega arith in
    (v.0, AllValid-set (i + 1) ms j m v.1 (rw s at e))

-- The whole table is valid.
abbrev pub KValid : Kernel → Type 0
KValid k = AllValid 0 k.mutexes

pub KValid-get :
    (k : Kernel) (i : ℕ) {m : Mutex} → KValid k → get_elem? k.mutexes i ≡ some m → IsValid i m
KValid-get k i v e = let s : 0 + i ≡ i = omega arith in rw s at (AllValid-get 0 k.mutexes i v e)

pub KValid-set :
    (ms : List Mutex) (i : ℕ) (m : Mutex) → AllValid 0 ms → IsValid i m → AllValid 0 (set ms i m)
KValid-set ms i m v e = let s : 0 + i ≡ i = omega arith in AllValid-set 0 ms i m v (rw s e)
