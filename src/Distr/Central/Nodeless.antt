-- ===== src/Distr/Central/Nodeless.antt =====
-- Spawning at a central authority that has no node yet.
use outcome.Prelude.{ℕ, String, List, [], Option, none, some, string_eq, nat_eq, ◌≡◌, refl, arith}
use outcome.Prelude.Assoc
use outcome.Prelude.Assoc.{get-insert_self}
use outcome.Prelude.Result.{err}
use outcome.Data.{other}
use outcome.Distr.{Spawning}
use outcome.Distr.Central.{
  SimCentral, DistributionPolicy, spawn_entity, register_name, assign, with_index, with_pool,
}

assign-nodeless :
    {Pool : Type 0} (shuffle : List ℕ → List ℕ) (c : SimCentral Pool) (s : Spawning)
    → c.node_entities ≡ []
    → assign shuffle DistributionPolicy.random c s ≡ (c, err (other "no nodes available"))
unfolding assign
assign-nodeless shuffle c s h = ground arith

-- Without a node, spawning an entity under a free name fails, and the name counts as taken from then on: a
-- second attempt under it fails for that reason, whatever its prefab and policy are. It is supposed that the
-- pool has an id for each attempt.
pub spawn_entity-nodeless :
    {Pool : Type 0} (request_id : Pool → Option (ℕ × Pool)) (shuffle : List ℕ → List ℕ)
    (c : SimCentral Pool) (prefab : Option String) (n : String) (id next : ℕ) (pool pool' : Pool)
    → c.node_entities ≡ []
    → Assoc.get n c.entities_idx ≡ none
    → request_id c.entity_idpool ≡ some (id, pool)
    → request_id pool ≡ some (next, pool')
    → (c' : SimCentral Pool) × (spawn_entity request_id shuffle c prefab
          (some n)
          DistributionPolicy.random
        ≡ (c', err (other "no nodes available")))
      × ((prefab' : Option String) (policy : DistributionPolicy)
          → (spawn_entity request_id shuffle c' prefab' (some n) policy).1
            ≡ err (other "Failed to add entity"))
unfolding spawn_entity register_name
spawn_entity-nodeless request_id shuffle c prefab n id next pool pool' nodeless free first second =
    (
      with_index (with_pool c pool) (Assoc.insert n id c.entities_idx),
      rw (first, spawn_entity, free, register_name)
          (assign-nodeless shuffle
            (with_index (with_pool c pool) (Assoc.insert n id c.entities_idx)) (id, prefab, some n)
            nodeless),
      λ prefab' policy.
          rw (second, spawn_entity, get-insert_self n id c.entities_idx, register_name) refl,
    )
