-- ===== src/Consensus/QueryStore/Insert.antt =====
-- query_store.go: `AddQuery`, `AddEndorsement`, and the marking of what depends on a change.
use pnyxdb.Base.{
  ℕ, zero, suc, String, Bool, true, false, not, Option, none, some, List, [], ◌∷◌, ◌++◌, lookup,
  insert, delete, contains, str_eq, if◌then◌else◌, ◌>>=◌,
}
use pnyxdb.Consensus.Query.{Query, Endorsement}
use pnyxdb.Consensus.QueryStore.State.{
  QueryInfo, EndorsementInfo, QueryStore, zero_info, unset, set, mark, uuid_of, put, add_to_set,
}

unfoldable pub has_emitter : String → List EndorsementInfo → Bool
has_emitter emitter [] = false
has_emitter emitter (e2 ∷ rest) = elim (str_eq emitter e2.endorsement.emitter) [
  | true ↦ true
  | false ↦ has_emitter emitter rest
]

-- `pendingDependencies[c]`; a missing key reads as a nil slice.
abbrev pub or_empty : Option (List String) → List String
or_empty none = []
or_empty (some xs) = xs

-- One round of the loop over `e.Conditions`: `uuid` depends on `c`.
unfoldable pub register : String → String → QueryStore → QueryStore
register uuid c qs = elim (lookup c qs.queries) [
  | some qic ↦ put c (record qic { dependents = add_to_set qic.dependents uuid }) qs
  | none ↦ record qs {
    pending_dependencies =
        insert c (add_to_set (or_empty (lookup c qs.pending_dependencies)) uuid)
          qs.pending_dependencies;
  }
]

unfoldable pub register_all : String → List String → QueryStore → QueryStore
unfolding register
register_all uuid [] qs = qs
register_all uuid (c ∷ cs) qs = register_all uuid cs (register uuid c qs)

-- `addEndorsementInternal`
unfoldable pub add_endorsement_internal :
    Endorsement → QueryInfo → QueryStore → Bool × QueryInfo × QueryStore
unfolding has_emitter register_all
add_endorsement_internal e qi qs =
    if has_emitter e.emitter qi.endorsements then (false, qi, qs) else (
      true,
      record qi {
        endorsements = qi.endorsements ++ (record { endorsement = e; cached = unset } ∷ []);
      },
      register_all (uuid_of qi.query) e.conditions qs,
    )

-- The endorsements that have the condition `uuid` are marked.
unfoldable pub mark_endorsements : String → List EndorsementInfo → List EndorsementInfo
mark_endorsements uuid [] = []
mark_endorsements uuid (e ∷ rest) =
    (if contains uuid e.endorsement.conditions then record e { cached = mark e.cached } else e)
    ∷ mark_endorsements uuid rest

-- The loop over `qi.Dependents`; `cascade` is the recursive call.
unfoldable pub mark_dependents :
    (QueryInfo → QueryStore → Option QueryStore)
    → String
    → List String
    → QueryStore
    → Option QueryStore
mark_dependents cascade uuid [] qs = some qs
mark_dependents cascade uuid (d ∷ ds) qs = elim (lookup d qs.queries) [
  | none ↦ mark_dependents cascade uuid ds qs
  | some qid ↦ do
    qs' ← cascade (record qid { endorsements = mark_endorsements uuid qid.endorsements }) qs
    mark_dependents cascade uuid ds qs'
]

-- The part of `cascadeMark` behind the test for a nil query.
unfoldable pub cascade_at :
    (QueryInfo → QueryStore → Option QueryStore)
    → String
    → QueryInfo
    → QueryStore
    → Option QueryStore
unfolding mark_endorsements mark_dependents
cascade_at cascade uuid qi qs =
    let qs' = put uuid (record qi { cached = mark qi.cached }) qs in
    if not qi.cached.fresh then some qs' else mark_dependents cascade uuid qi.dependents qs'

-- `cascadeMark`; `none` is a recursion deeper than the fuel.
unfoldable pub cascade_mark : ℕ → QueryInfo → QueryStore → Option QueryStore
unfolding cascade_at
cascade_mark zero qi qs = none
cascade_mark (suc fuel) qi qs = elim qi.query [
  | none ↦ some qs
  | some q ↦ cascade_at (cascade_mark fuel) q.uuid qi qs
]

-- The loop of `AddQuery` over the endorsements that came before the query.
unfoldable pub collect :
    String → List Endorsement → QueryInfo → QueryStore → List Endorsement × QueryInfo × QueryStore
unfolding add_endorsement_internal
collect uuid [] qi qs = ([], qi, qs)
collect uuid (pe ∷ rest) qi qs =
    let (inserted, qi', qs') = add_endorsement_internal pe qi qs in
    let mine = collect uuid rest qi' qs' in
    let (kept, qi'', qs'') = collect uuid rest qi qs in
    if str_eq pe.uuid uuid then mine else (pe ∷ kept, qi'', qs'')

-- `AddQuery`: whether the query was inserted, and the store.
unfoldable pub add_query : ℕ → Query → QueryStore → Option (Bool × QueryStore)
unfolding collect cascade_mark
add_query fuel q qs = elim (lookup q.uuid qs.queries) [
  | some old ↦ some (false, qs)
  | none ↦
      let (kept, qi, qs1) =
        collect q.uuid qs.pending_endorsements (record zero_info { query = some q }) qs in
      let qi2 : QueryInfo = record qi {
        dependents = or_empty (lookup q.uuid qs1.pending_dependencies);
        cached = set false;
      } in
      let qs2 : QueryStore = record qs1 {
        pending_dependencies = delete q.uuid qs1.pending_dependencies;
      } in
      do qs3 ← cascade_mark fuel qi2 qs2; some (true, record qs3 { pending_endorsements = kept })
]

-- `AddEndorsement`: whether it waits for its query, whether it was inserted, and the store.
unfoldable pub add_endorsement : ℕ → Endorsement → QueryStore → Option (Bool × Bool × QueryStore)
unfolding add_endorsement_internal cascade_mark
add_endorsement fuel e qs = elim (lookup e.uuid qs.queries) [
  | none ↦
      some (true, false, record qs { pending_endorsements = qs.pending_endorsements ++ (e ∷ []) })
  | some qi ↦
      let (inserted, qi', qs') = add_endorsement_internal e qi qs in
      do qs'' ← cascade_mark fuel qi' qs'; some (false, inserted, qs'')
]
