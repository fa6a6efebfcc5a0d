-- ===== src/Client/Session.antt =====
-- A client that is connected to the server of a node: gRPC in between delivers an answer, or the
-- text of an error.
use Prim.Native.String.{◌++◌ as ◌<>◌}
use pnyxdb.Base.{
  ℕ, ◌≡◌, ap, ◌∙◌, String, false, Option, none, some, List, [], ◌∷◌, Bytes, map, length, lookup,
}
use pnyxdb.Consensus.Driver.{Driver}
use pnyxdb.Consensus.Engine.Node.{Node, Engine}
use pnyxdb.Encoding.Set.Entries.{member}
use pnyxdb.Encoding.Set.Refinement.{contains_spec}
use pnyxdb.Consensus.Query.{Query}
use pnyxdb.Server.{Answer, answer, failed, panicked, Error}
use pnyxdb.Server
use pnyxdb.Server.Sets.{Shows}
use pnyxdb.Client.{
  Reply, reply, refused, Remote, Library, Line, count, item, Client, ended, contains, members,
  cli_map, sort, perform, process_members, members_args, shown, run,
}
use pnyxdb.Client.Expressions.{has_space, run-command, run-contains_lem}
use pnyxdb.Client.Sorting.{InOrder, sort-InOrder, member-sort, length-sort}

-- What gRPC delivers of an answer: the client that protoc generates returns nil with an error, and
-- a server that panics answers nothing.
unfoldable pub delivered : {A : Type 0} → (Error → String) → String → Answer A → Reply A
delivered describe lost (answer a) = reply a
delivered describe lost (failed e) = refused (describe e)
delivered describe lost panicked = refused lost

-- A node's server, which a client calls. `describe` is the text of an error, `lost` that of a broken
-- connection or of a query that is not sent, and `draw` gives the identifiers of new queries.
module _ (node : Node) (range : List Bytes → List Bytes) (describe : Error → String) (lost : String)
    (draw : Engine (Driver.Store (Node.driver node)) → String) where
  -- The answer of `Submit`.
  abbrev receipt : String → Option Query → Reply String
  receipt uuid none = refused lost
  receipt uuid (some q) = reply uuid

  unfoldable pub connected : Remote (Engine (Driver.Store (Node.driver node)))
  unfolding delivered
  connected = record {
    get = λ key eng. delivered describe lost (Server.get node key eng);
    members = λ key eng. delivered describe lost (Server.members node range key eng);
    contains = λ key e eng. delivered describe lost (Server.contains_value node key e eng);
    submit = λ tx eng. let r = Server.submit node (draw eng) tx eng in (receipt r.0 r.1, r.2);
  }

  -- The lines of `SMEMBERS`: the number of elements, and the elements in order.
  pub record Prints (es : List Bytes) (lines : List Line) : Type 0 where
    pub shown_elements : List Bytes
    pub printed : lines ≡ count (length es) ∷ map item shown_elements
    pub as_many : length shown_elements ≡ length es
    pub in_order : InOrder shown_elements
    pub all : (e : Bytes) → member e shown_elements ≡ member e es

  -- For a key without a space under which the server shows a set: SMEMBERS prints the number of its
  -- elements and then the elements, in order, and SCONTAINS prints whether an element, with or
  -- without spaces, is one of them. The names may be in any case; nothing else changes.
  pub session-Shows :
      (lib : Library) (now : ℕ) (smembers scontains key : String) (c : Client lib connected)
      (eng : Engine (Driver.Store (Node.driver node))) (es : List Bytes)
      → has_space smembers ≡ false
      → lookup (lib.to_upper smembers) cli_map ≡ some members
      → has_space scontains ≡ false
      → lookup (lib.to_upper scontains) cli_map ≡ some contains
      → has_space key ≡ false
      → Shows node range eng key es
      → ((lines : List Line) × (run lib connected now (smembers <> (" " <> key)) c eng
            ≡ ended false lines c eng)
          × Prints es lines)
        × ((element : String)
            → run lib connected now (scontains <> (" " <> (key <> (" " <> element)))) c eng
              ≡ ended false (Line.answer (contains_spec (lib.bytes_of element) es) ∷ []) c eng)
  unfolding connected perform process_members shown
  session-Shows lib now smembers scontains key c eng es one known two found word (lists, tests) =
      let (values, answered, listed) = lists in
      (
        (
          count (length values.members) ∷ map item (sort values.members),
          run-command lib connected now smembers key members c eng one known
              ∙ ap (λ r. members_args lib connected c eng r)
                  (ap (delivered describe lost) answered),
          record {
            shown_elements = sort values.members;
            printed = ap (λ (n : ℕ). count n ∷ map item (sort values.members)) listed.as_many;
            as_many = length-sort values.members ∙ listed.as_many;
            in_order = sort-InOrder values.members;
            all = λ e. member-sort e values.members ∙ listed.all e;
          },
        ),
        λ element.
            run-contains_lem lib connected now scontains key element c eng two found word
            ∙ ap (λ r. shown lib connected r c eng)
                (ap (delivered describe lost) (tests (lib.bytes_of element))),
      )
