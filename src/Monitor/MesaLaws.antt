-- ===== src/Monitor/MesaLaws.antt =====
-- mesa_cond.c: what signalling does, whatever the kernel and the other threads do.
use os.Base.{
  ℕ, ◌≡◌, refl, ap, sym, ◌∙◌, true, false, Option, some, ℤ, minus_one, arith, Bool-cases,
  Option-cases, inl, inr, ◌⊎◌,
}
use os.Monitor.Calls.{
  Cond, Shared, Calls, is_negative, is_positive, incr, decr, Side, on_empty, on_full, cond_at,
  recount,
}
use os.Monitor.Mesa.{signal_last, mesa_cond_signal}

module _ {W : Type 0} (calls : Calls W) where
  recount_world : (side : Side) (f : ℕ → ℕ) (s : Shared W) → (recount side f s).world ≡ s.world
  recount_world on_empty f s = elim (Option-cases s.empty) [
    | inl e ↦ rw (e) refl
    | inr (c, e) ↦ rw (e) refl
  ]
  recount_world on_full f s = elim (Option-cases s.full) [
    | inl e ↦ rw (e) refl
    | inr (c, e) ↦ rw (e) refl
  ]

  up_down : (x : ℕ) → is_positive x ≡ true → incr (decr x) ≡ x
  up_down x h = grind arith

  counted_back :
      (side : Side) (s : Shared W) (w : W) {c : Cond}
      → cond_at side s ≡ some c
      → is_positive c.waiting ≡ true
      → recount side incr (record (recount side decr s) { world = w }) ≡ record s { world = w }
  counted_back on_empty s w {c} h some_wait = rw (h) (
      ap (λ (e : Option Cond). record s { empty = e; world = w })
        (ap (λ x. some (record c { waiting = x })) (up_down c.waiting some_wait)))
  counted_back on_full s w {c} h some_wait = rw (h) (
      ap (λ (e : Option Cond). record s { full = e; world = w })
        (ap (λ x. some (record c { waiting = x })) (up_down c.waiting some_wait)))

  -- A signal for which somebody is counted as waiting reports failure, whether it finds the mutex of
  -- the condition variable locked or not. If it unlocks the mutex, it leaves the count as it was.
  -- The condition on the kernel is that an unlock that fails changes nothing.
  signal_fails :
      ((m r : ℤ) (w w' : W) → calls.mutex_unlock m w ≡ some (r, w') → is_negative r ≡ true → w' ≡ w)
      → (side : Side) (r : ℤ) (s : Shared W) (w : W) {c : Cond} → cond_at side s ≡ some c
      → is_positive c.waiting ≡ true
      → calls.mutex_unlock c.mutex_cv s.world ≡ some (r, w)
      → ((is_negative r ≡ false)
          × (mesa_cond_signal calls side s ≡ some (minus_one, record s { world = w })))
        ⊎ ((is_negative r ≡ true)
            × (mesa_cond_signal calls side s ≡ some (minus_one, recount side decr s)))
  unfolding mesa_cond_signal signal_last
  signal_fails law side r s w {c} here some_wait unlocked =
      let u : calls.mutex_unlock c.mutex_cv (recount side decr s).world ≡ some (r, w) =
        ap (calls.mutex_unlock c.mutex_cv) (recount_world side decr s) ∙ unlocked in
      elim (Bool-cases (is_negative r)) [
        | inr good ↦ inl (
          good,
          rw (mesa_cond_signal, here, some_wait, u, good)
              (ap (λ t. some (minus_one, t)) (counted_back side s w here some_wait)),
        )
        | inl bad ↦ inr (
          bad,
          (let same : w ≡ s.world = law c.mutex_cv r s.world w unlocked bad in
              let again : calls.mutex_unlock c.mutex_cv w ≡ some (r, w) =
                ap (calls.mutex_unlock c.mutex_cv) same ∙ unlocked in
              rw (mesa_cond_signal, here, some_wait, u, bad, again, bad)
                (ap (λ v. some (minus_one, record (recount side decr s) { world = v }))
                  (same ∙ sym (recount_world side decr s)))),
        )
      ]
