-- ===== src/Consensus/Persistence/Reloaded.antt =====
-- A store that is dumped and loaded into a new store.
use pnyxdb.Base.{
  ℕ, ◌≡◌, refl, sym, ap, ◌∙◌, subst, String, false, Option, none, some, List, [], ◌∷◌, ◌++◌, Bytes,
  length, ltb, arith, map_values, map_some, merge, first_of, lookup-merge, lookup-map_values,
  Option-cases, inl, inr, lookup, Distinct, Distinct-map_values, >>=-eq-some, subst_some,
  some-injective, append-nil, All,
}
use pnyxdb.Consensus.Query.{Endorsement}
use pnyxdb.Consensus.QueryStore.State.{QueryInfo, QueryStore, new_query_store}
use pnyxdb.Consensus.QueryStore.View.{core, endorsements_of, View, view}
use pnyxdb.Consensus.QueryStore.Meaning.{Coherent, InfoCoherent, EndorsementCoherent}
use pnyxdb.Consensus.Persistence.{
  dumped, with_unset, loaded, Gob, Decodes, dump_header, complete, dump, load, load_queries,
  load_dependencies, load_endorsements,
}

endorsements_of-with_unset : (es : List Endorsement) → endorsements_of (with_unset es) ≡ es
endorsements_of-with_unset [] = refl
endorsements_of-with_unset (e ∷ es) =
    ap (λ (r : List Endorsement). e ∷ r) (endorsements_of-with_unset es)

-- Dumping and loading an entry forgets its caches alone.
core-loaded : (qi : QueryInfo) → core (loaded (dumped qi)) ≡ core qi
core-loaded qi =
    ap (λ (es : List Endorsement). record (core qi) { endorsements = es })
      (endorsements_of-with_unset (endorsements_of qi.endorsements))

with_unset-Coherent :
    (threshold : ℕ) (v : View) (es : List Endorsement)
    → All (EndorsementCoherent threshold v) (with_unset es)
with_unset-Coherent threshold v [] = tt
with_unset-Coherent threshold v (e ∷ es) = ((λ h. cc), with_unset-Coherent threshold v es)

-- What of a store a dump keeps.
pub record Reloaded (a b : QueryStore) : Type 0 where
  pub views : (u : String) → view b u ≡ view a u
  pub threshold : b.threshold ≡ a.threshold
  pub coherent : Coherent b
  pub dependencies :
      (u : String) → lookup u b.pending_dependencies ≡ lookup u a.pending_dependencies
  pub endorsements : b.pending_endorsements ≡ a.pending_endorsements

module _ (a b : QueryStore)
    (entries : (u : String)
      → lookup u b.queries ≡ map_some loaded (map_some dumped (lookup u a.queries))) where
  loaded-view : (u : String) → view b u ≡ view a u
  loaded-view u = elim (Option-cases (lookup u a.queries)) [
    | inl p ↦ rw (entries u, p) refl
    | inr (qi, p) ↦ rw (entries u, p) (ap some (core-loaded qi))
  ]

  loaded-Coherent : Coherent b
  loaded-Coherent = record {
    at = λ u q h. elim (Option-cases (lookup u a.queries)) [
      | inl p ↦ cc (
          sym (ap (λ (o : Option QueryInfo). map_some loaded (map_some dumped o)) p)
          ∙ sym (entries u)
          ∙ h)
      | inr (qi, p) ↦
          subst_some (InfoCoherent b.threshold (view b) u)
            (sym (ap (λ (o : Option QueryInfo). map_some loaded (map_some dumped o)) p)
              ∙ sym (entries u)
              ∙ h)
            (record {
              query_result = λ s f. cc;
              endorsement_results =
                  with_unset-Coherent b.threshold (view b) (endorsements_of qi.endorsements);
            })
    ];
  }

first_of-none : {V : Type 0} (o : Option V) → first_of o none ≡ o
first_of-none none = refl
first_of-none (some v) = refl

load_queries-header :
    (g : Gob) (rest : Bytes) (qs : QueryStore)
    → load g (dump_header ++ rest) qs ≡ load_queries g qs (Gob.decode_queries g rest)
unfolding load
load_queries-header g rest qs =
    let long : ltb (length (dump_header ++ rest)) (length dump_header) ≡ false = ground arith in
    rw (long, load) refl

-- If the gob library decodes what it encoded, and no identifier has two entries: a dump that
-- succeeds, loaded into a new store of the same threshold, gives a store with the same queries,
-- endorsements, states and pending endorsements and dependencies, whose caches are coherent.
pub load-dump :
    (g : Gob) (qs : QueryStore) (bs : Bytes)
    → Decodes g
    → Distinct qs.queries
    → Distinct qs.pending_dependencies
    → dump g qs ≡ some bs
    → (b : QueryStore) × (load g bs (new_query_store qs.threshold) ≡ complete b) × Reloaded qs b
unfolding dump load_queries load_dependencies load_endorsements new_query_store lookup
load-dump g qs bs law d1 d2 h =
    let (x, px, kx) = >>=-eq-some (Gob.encode_queries g (map_values dumped qs.queries)) _ h in
    let (y, py, ky) = >>=-eq-some (Gob.encode_dependencies g qs.pending_dependencies) _ kx in
    let (z, pz, kz) = >>=-eq-some (Gob.encode_endorsements g qs.pending_endorsements) _ ky in
    let start = new_query_store qs.threshold in
    let b : QueryStore = record {
      queries = merge (map_values loaded (map_values dumped qs.queries)) [];
      pending_dependencies = merge qs.pending_dependencies [];
      pending_endorsements = qs.pending_endorsements;
      threshold = qs.threshold;
    } in
    let entries : (u : String)
        → lookup u b.queries ≡ map_some loaded (map_some dumped (lookup u qs.queries)) =
      λ u.
        lookup-merge u (map_values loaded (map_values dumped qs.queries)) []
          (Distinct-map_values loaded _ (Distinct-map_values dumped qs.queries d1))
        ∙ first_of-none _
        ∙ lookup-map_values loaded u (map_values dumped qs.queries)
        ∙ ap (map_some loaded) (lookup-map_values dumped u qs.queries) in
    let loads : load g bs start ≡ complete b =
      subst (λ (c : Bytes). load g c start ≡ complete b) (some-injective _ _ kz)
        (load_queries-header g (x ++ (y ++ z)) start
          ∙ ap (load_queries g start) (law.queries (map_values dumped qs.queries) x (y ++ z) px)
          ∙ ap (load_dependencies g _) (law.dependencies qs.pending_dependencies y z py)
          ∙ ap (load_endorsements g _) (
              ap (Gob.decode_endorsements g) (sym (append-nil z))
              ∙ law.endorsements qs.pending_endorsements z [] pz)) in
    (
      b,
      loads,
      record {
        views = loaded-view qs b entries;
        threshold = refl;
        coherent = loaded-Coherent qs b entries;
        dependencies = λ u. lookup-merge u qs.pending_dependencies [] d2 ∙ first_of-none _;
        endorsements = refl;
      },
    )
