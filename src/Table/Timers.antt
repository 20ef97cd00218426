-- ===== src/Table/Timers.antt =====
-- What `updateTimers` of src/flow/FlowManager.cc takes out of the table.
use aiengine_rewritten_clean.Prelude.{
  ℕ, ◌+◌, ◌<◌, ◌^◌, ◌≡◌, refl, sym, ap, ◌∙◌, inl, inr, Bool, true, false, List, [], ◌∷◌, ◌++◌,
  arith, Bool-cases, length, u32, some, subst,
}
use aiengine_rewritten_clean.Prelude.Int.{ℤ}
use aiengine_rewritten_clean.Cache.{Cache, release}
use aiengine_rewritten_clean.Table.{
  Entry, FlowIndex, Store, IsOrdered, IsDistinct, AllTimes, remove, expires, times, expire,
  timers_loop, update_timers,
}
use aiengine_rewritten_clean.Table.Order.{
  leading, failing, leading-append, leading-AllTimes, from_first_not-failing, Fits, expires_later,
  remove_first,
}

pub release-heap {ℓ} : {A : Type ℓ} (p : ℕ) (c : Cache A) → (release (some p) c).heap ≡ c.heap
unfolding release
release-heap p c = ground arith

module _ (I : FlowIndex) {A : Type 0} where
  -- The entries of the table, in the order of time.
  abbrev pub entries_of : Store I A → List Entry
  entries_of s = I.entries s.manager.table

  -- The time of a flow of the store is over.
  abbrev pub is_over : ℤ → Store I A → ℕ → Bool
  is_over now s p = expires s.manager.timeout now (s.flows.heap p)

  unfoldable pub expire_all : List Entry → Store I A → Store I A
  unfolding expire
  expire_all [] s = s
  expire_all (e ∷ es) s = expire_all es (expire I e s)

  pub expire-heap : (e : Entry) (s : Store I A) → (expire I e s).flows.heap ≡ s.flows.heap
  unfolding expire
  expire-heap e s = ground (arith, release-heap e.1 s.flows)

  expire-timeout : (e : Entry) (s : Store I A) → (expire I e s).manager.timeout ≡ s.manager.timeout
  unfolding expire
  expire-timeout e s = refl

  pub expire-entries :
      (e : Entry) (es : List Entry) (s : Store I A)
      → entries_of s ≡ e ∷ es
      → entries_of (expire I e s) ≡ es
  unfolding expire
  expire-entries e es s h =
      I.erase_lem e.0 s.manager.table
      ∙ ap (remove e.0) h
      ∙ remove_first e es (subst IsDistinct h (I.distinct s.manager.table))

  -- The loop is one step for each of the leading entries whose time is over.
  timers_loop-expire_all :
      (now : ℤ) (test : ℕ → Bool) (es : List Entry) (s : Store I A)
      → ((p : ℕ) → is_over now s p ≡ test p)
      → timers_loop I now es s ≡ expire_all (leading test es) s
  unfolding timers_loop expire_all
  timers_loop-expire_all now test [] s same = refl
  timers_loop-expire_all now test (e ∷ es) s same = elim (Bool-cases (test e.1)) [
    | inl h ↦
        let over : is_over now s e.1 ≡ true = same e.1 ∙ h in
        rw (over, h, timers_loop)
          (timers_loop-expire_all now test es (expire I e s)
            (λ p. rw (expire-heap e s, expire-timeout e s) (same p)))
    | inr h ↦ let live : is_over now s e.1 ≡ false = same e.1 ∙ h in rw (live, h, timers_loop) refl
  ]

  pub expire_all-entries :
      (gone rest : List Entry) (s : Store I A)
      → entries_of s ≡ gone ++ rest
      → entries_of (expire_all gone s) ≡ rest
  unfolding expire_all
  expire_all-entries [] rest s h = h
  expire_all-entries (e ∷ gone) rest s h =
      expire_all-entries gone rest (expire I e s) (expire-entries e (gone ++ rest) s h)

  expire_all-count :
      (gone : List Entry) (s : Store I A)
      → s.manager.total_timeout_flows < 2 ^ 32
      → (expire_all gone s).manager.total_timeout_flows
        ≡ u32 (s.manager.total_timeout_flows + length gone)
  unfolding expire_all expire
  expire_all-count [] s h = omega arith
  expire_all-count (e ∷ gone) s h = omega (arith, expire_all-count gone (expire I e s))

  pub update_timers-expire_all :
      (now : ℤ) (s : Store I A)
      → update_timers I now s ≡ expire_all (leading (is_over now s) (entries_of s)) s
  unfolding update_timers
  update_timers-expire_all now s =
      timers_loop-expire_all now (is_over now s) (entries_of s) s (λ p. refl)

  -- Whatever the order of the table: the flows that leave it are the leading ones in the order of
  -- the index, the time of each of them is over, and the others stay as they were.
  pub update_timers-leading :
      (now : ℤ) (s : Store I A)
      → s.manager.total_timeout_flows < 2 ^ 32
      → (gone : List Entry) × (entries_of s ≡ gone ++ entries_of (update_timers I now s))
        × AllTimes (λ p. is_over now s p ≡ true) gone
        × ((update_timers I now s).manager.total_timeout_flows
            ≡ u32 (s.manager.total_timeout_flows + length gone))
  update_timers-leading now s h =
      let gone = leading (is_over now s) (entries_of s) in
      let split = leading-append (is_over now s) (entries_of s) in
      let left = expire_all-entries gone _ s (sym split) in
      rw (update_timers-expire_all now s) (
        gone,
        rw left (sym split),
        leading-AllTimes (is_over now s) (entries_of s),
        expire_all-count gone s h,
      )

  -- If the entries of the table stand in the order of their flows' times, and no sum of a time and
  -- the timeout leaves the range of an int, then the flows left are exactly those whose time is
  -- not over, in the same order.
  pub update_timers-failing :
      (now : ℤ) (s : Store I A)
      → IsOrdered (times s.flows) (entries_of s)
      → AllTimes (λ p. Fits s.manager.timeout (s.flows.heap p)) (entries_of s)
      → entries_of (update_timers I now s) ≡ failing (is_over now s) (entries_of s)
  update_timers-failing now s ordered fits =
      let split = leading-append (is_over now s) (entries_of s) in
      ap entries_of (update_timers-expire_all now s)
      ∙ expire_all-entries (leading (is_over now s) (entries_of s)) _ s (sym split)
      ∙ from_first_not-failing (times s.flows) (is_over now s)
          (λ p. Fits s.manager.timeout (s.flows.heap p))
          (λ p q. expires_later s.manager.timeout now (s.flows.heap p) (s.flows.heap q))
          (entries_of s) fits ordered
