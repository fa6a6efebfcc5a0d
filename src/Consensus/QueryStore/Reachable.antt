-- ===== src/Consensus/QueryStore/Reachable.antt =====
-- The store over time: every operation of the engine on it is a step, and states move forward.
use pnyxdb.Base.{ℕ, String, ◌≡◌, subst, Bool, some, List, lookup}
use pnyxdb.Consensus.Query.{Query, Endorsement, Proof}
use pnyxdb.Consensus.QueryStore.State.{QueryStore, new_query_store, endorse}
use pnyxdb.Consensus.QueryStore.Insert.{add_query, add_endorsement}
use pnyxdb.Consensus.QueryStore.Check.{check_state, checkpoint_choice, checkpoint_drop}
use pnyxdb.Consensus.QueryStore.Marking.{WellFormed}
use pnyxdb.Consensus.QueryStore.States.{SameStates-refl, endorse-SameStates}
use pnyxdb.Consensus.QueryStore.Arrivals.{add_query-status, add_endorsement-SameStates}
use pnyxdb.Consensus.QueryStore.Forward.{
  Advances, Advances-trans, Advances-SameStates, Advances-Arrives, Advances-drop_all,
  Advances-check_state, checkpoint_choice-SameStates,
}

-- The calls of the engine that change the store.
pub data Step (a : QueryStore) : QueryStore → Type 0 where
  query_arrives :
      {b : QueryStore} (fuel : ℕ) (q : Query) (inserted : Bool)
      → add_query fuel q a ≡ some (inserted, b)
      → Step a b
  endorsement_arrives :
      {b : QueryStore} (fuel : ℕ) (e : Endorsement) (waits inserted : Bool)
      → add_endorsement fuel e a ≡ some (waits, inserted, b)
      → Step a b
  state_checked :
      {b : QueryStore} (fuel now : ℕ) (u : String) (commits : Bool) (checkpoint : List String)
      → check_state fuel now u a ≡ some (commits, checkpoint, b)
      → Step a b
  choice_made :
      {b : QueryStore} (fuel : ℕ) (us : List String) (choice : Bool) (proofs : List Proof)
      → checkpoint_choice fuel us a ≡ some (choice, proofs, b)
      → Step a b
  checkpoint_ends :
      {b : QueryStore} (fuel : ℕ) (us : List String) → checkpoint_drop fuel us a ≡ some b → Step a b
  endorsed : {b : QueryStore} (u : String) → endorse u a ≡ b → Step a b

pub data Reach (a : QueryStore) : QueryStore → Type 0 where
  here : Reach a a
  next : {b c : QueryStore} → Reach a b → Step b c → Reach a c

Step-Advances : {a b : QueryStore} → WellFormed a → Step a b → Advances a b
unfolding checkpoint_drop
Step-Advances {a} w (query_arrives fuel q x h) =
    Advances-Arrives q a (x, _) (add_query-status fuel q a (x, _) w h)
Step-Advances {a} w (endorsement_arrives fuel e x y h) =
    Advances-SameStates w (add_endorsement-SameStates fuel e a (x, y, _) w h)
Step-Advances {a} w (state_checked fuel now u x y h) =
    Advances-check_state fuel now u a (x, y, _) w h
Step-Advances {a} w (choice_made fuel us x y h) =
    Advances-SameStates w (checkpoint_choice-SameStates fuel us a (x, y, _) h)
Step-Advances {a} w (checkpoint_ends fuel us h) = Advances-drop_all fuel us a _ w h
Step-Advances {a} w (endorsed u h) =
    subst (Advances a) h (Advances-SameStates w (endorse-SameStates u a))

-- From a well-formed store, whatever calls the engine makes in whatever order, a query only goes
-- forward, from unknown over pending and committed to dropped, and the store stays well-formed.
pub Reach-Advances : {a b : QueryStore} → WellFormed a → Reach a b → Advances a b
Reach-Advances {a} w here = Advances-SameStates w (SameStates-refl a)
Reach-Advances w (next r s) =
    let before = Reach-Advances w r in Advances-trans before (Step-Advances before.well_formed s)

-- In a store that the engine reaches from the empty one each entry is named by its query.
pub new_query_store-WellFormed : (threshold : ℕ) → WellFormed (new_query_store threshold)
unfolding new_query_store lookup
new_query_store-WellFormed threshold = record { named = λ u k p. cc }

pub Reach-trans : {a b c : QueryStore} → Reach a b → Reach b c → Reach a c
Reach-trans r here = r
Reach-trans r (next s t) = next (Reach-trans r s) t
