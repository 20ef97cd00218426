-- ===== src/Table/Kept.antt =====
-- The operations of src/flow/FlowManager.cc keep the flows of the table apart from the spare ones.
use aiengine_rewritten_clean.Prelude.{
  ℕ, ◌+◌, ◌≡◌, sym, inl, inr, Bool, true, false, none, some, List, [], ◌∷◌, ◌++◌, arith, Bool-cases,
  ◌==◌, if◌then◌else◌, subst,
}
use aiengine_rewritten_clean.Prelude.Int.{ℤ}
use aiengine_rewritten_clean.Cache.{release}
use aiengine_rewritten_clean.Cache.Inv.{IsValid, release-IsValid}
use aiengine_rewritten_clean.Table.{
  Entry, FlowIndex, Store, IsDistinct, lookup, expire, update_timers, add_flow, times,
}
use aiengine_rewritten_clean.Table.Order.{leading, leading-append, from_first_not}
use aiengine_rewritten_clean.Table.Timers.{
  entries_of, is_over, expire_all, update_timers-expire_all, expire-entries, expire-heap,
}
use aiengine_rewritten_clean.Table.Owned.{
  IsOwned, held, spare, one_if, spare-release, held-Inserted, lookup-Inserted, lookup_later,
}

module _ (I : FlowIndex) {A : Type 0} where
  expire-IsOwned :
      (e : Entry) (es : List Entry) (s : Store I A)
      → entries_of I s ≡ e ∷ es
      → IsOwned I s
      → IsOwned I (expire I e s)
  unfolding expire
  expire-IsOwned (id, p) es s h o = record {
    pool = release_if-IsValid s.manager.has_cache;
    named = λ k r found. rw (expire-heap I (id, p) s) (
        o.named k r (
          rw h (
            lookup_later k r (id, p) es (subst IsDistinct h (I.distinct s.manager.table))
              (subst (λ xs. lookup k xs ≡ some r) (expire-entries I (id, p) es s h) found))));
    apart = λ q. grind (arith, spare-release q p s.flows o.pool, o.apart q, counts q);
  }
    where
      release_if-IsValid : (b : Bool) → IsValid (if b then release (some p) s.flows else s.flows)
      release_if-IsValid true = release-IsValid p s.flows o.pool
      release_if-IsValid false = o.pool

      counts :
          (q : ℕ)
          → held q (entries_of I (expire I (id, p) s)) + one_if (p == q) ≡ held q (entries_of I s)
      counts q = rw (expire-entries I (id, p) es s h, h) (omega arith)

  expire_all-IsOwned :
      (gone rest : List Entry) (s : Store I A)
      → entries_of I s ≡ gone ++ rest
      → IsOwned I s
      → IsOwned I (expire_all I gone s)
  unfolding expire_all
  expire_all-IsOwned [] rest s h o = o
  expire_all-IsOwned (e ∷ gone) rest s h o =
      expire_all-IsOwned gone rest (expire I e s) (expire-entries I e (gone ++ rest) s h)
        (expire-IsOwned e (gone ++ rest) s h o)

  -- The timers keep the flows of the table apart from each other and from the spare ones of the
  -- pool, and under their own identifiers.
  pub update_timers-IsOwned :
      (now : ℤ) (s : Store I A) → IsOwned I s → IsOwned I (update_timers I now s)
  update_timers-IsOwned now s o = rw (update_timers-expire_all I now s) (
      expire_all-IsOwned (leading (is_over I now s) (entries_of I s))
        (from_first_not (is_over I now s) (entries_of I s)) s
        (sym (leading-append (is_over I now s) (entries_of I s))) o)

  -- A flow is put into the table when its identifier is not there yet, and the flow is neither
  -- there nor spare.
  pub add_flow-IsOwned :
      (p : ℕ) (s : Store I A)
      → lookup (s.flows.heap p).hash (entries_of I s) ≡ none
      → held p (entries_of I s) + spare p s.flows ≡ 0
      → IsOwned I s
      → IsOwned I (add_flow I p s)
  unfolding add_flow
  add_flow-IsOwned p s new free o =
      let i = I.insert_new (times s.flows) ((s.flows.heap p).hash, p) s.manager.table new in
      record {
        pool = o.pool;
        named = λ h q found. elim (Bool-cases ((s.flows.heap p).hash == h)) [
          | inl same ↦ grind (arith, lookup-Inserted h i new)
          | inr other ↦ o.named h q (grind (arith, lookup-Inserted h i new))
        ];
        apart = λ q. grind (arith, held-Inserted q i, o.apart q);
      }
