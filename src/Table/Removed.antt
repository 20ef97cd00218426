-- ===== src/Table/Removed.antt =====
-- `removeFlow` of src/flow/FlowManager.cc, with the return of the flow to its pool.
use aiengine_rewritten_clean.Prelude.{
  ℕ, ◌≡◌, refl, ap, ◌∙◌, none, some, List, [], ◌∷◌, arith, ◌==◌, if◌then◌else◌,
}
use aiengine_rewritten_clean.Cache.{ok}
use aiengine_rewritten_clean.Cache.Inv.{release-IsValid}
use aiengine_rewritten_clean.Table.{
  Entry, FlowIndex, Store, lookup, remove, remove_flow, release_to_cache,
}
use aiengine_rewritten_clean.Table.Timers.{entries_of, release-heap}
use aiengine_rewritten_clean.Table.Owned.{IsOwned, spare-release, held-remove}

pub lookup-remove :
    (h k : ℕ) (es : List Entry) → lookup h (remove k es) ≡ (if k == h then none else lookup h es)
lookup-remove h k [] = ground arith
lookup-remove h k ((id, p) ∷ es) = ground (arith, lookup-remove h k es)

module _ (I : FlowIndex) {A : Type 0} where
  -- A flow of the table leaves it, and goes back to its pool.
  abbrev pub taken_out : ℕ → Store I A → Store I A
  taken_out f s = record s {
    manager = let m = s.manager in record m { table = I.erase (s.flows.heap f).hash m.table };
    flows = release_to_cache f s.flows;
  }

  pub remove_flow-found :
      (f : ℕ) (s : Store I A)
      → lookup (s.flows.heap f).hash (entries_of I s) ≡ some f
      → remove_flow I f s
        ≡ ok (record s {
          manager = let m = s.manager in record m { table = I.erase (s.flows.heap f).hash m.table };
        })
  unfolding remove_flow
  remove_flow-found f s found =
      rw (I.find_lem (s.flows.heap f).hash s.manager.table ∙ found, remove_flow) refl

  pub taken_out-IsOwned :
      (f : ℕ) (s : Store I A)
      → lookup (s.flows.heap f).hash (entries_of I s) ≡ some f
      → IsOwned I s
      → IsOwned I (taken_out f s)
  taken_out-IsOwned f s found o =
      let k = (s.flows.heap f).hash in
      let left = I.erase_lem k s.manager.table in
      let counts =
        λ (q : ℕ). held-remove q k f (entries_of I s) (I.distinct s.manager.table) found in
      record {
        pool = release-IsValid f s.flows o.pool;
        named = λ h q there.
            rw (release-heap f s.flows) (
              o.named h q (ground (arith, lookup-remove h k (entries_of I s), ap (lookup h) left)));
        apart = λ q. rw left (omega (arith, counts q, o.apart q, spare-release q f s.flows o.pool));
      }
