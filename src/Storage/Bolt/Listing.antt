-- ===== src/Storage/Bolt/Listing.antt =====
-- `List` of storage/boltdb/driver.go.
use pnyxdb.Base.{
  ◌≡◌, refl, ap, ◌∙◌, subst, String, true, false, Option, none, some, [], ◌∷◌, Bytes, Dict, lookup,
  insert, lookup-insert, str_eq, eq_iff, length, take, leb, ltb, if◌then◌else◌, Bool-cases,
  Option-cases, inl, inr, arith, Distinct,
}
use pnyxdb.Consensus.Query.{Version}
use pnyxdb.Consensus.Version.{version_bytes}
use pnyxdb.Consensus.Version
use pnyxdb.Consensus.Driver.{Got}
use pnyxdb.Storage.Bolt.{Bucket, get, split_entry, or_nil}

-- One round of the cursor's loop, on the catalog so far.
abbrev pub list_one : String → Bytes → Dict Version → Dict Version
unfolding Version.unmarshal_binary
list_one k entry catalog =
    if leb version_bytes (length entry)
    then insert k (Version.unmarshal_binary (take version_bytes entry)) catalog
    else catalog

unfoldable pub list_from : Dict Version → Bucket → Dict Version
list_from catalog [] = catalog
list_from catalog ((k, entry) ∷ rest) = list_from (list_one k entry catalog) rest

-- `List`
unfoldable pub list : Bucket → Dict Version
unfolding list_from
list b = list_from [] b

-- The version that `Get` returns with no error.
abbrev pub version_got : Got → Option Version
version_got got = elim got.err [ none ↦ got.version | some e ↦ none ]

-- What the catalog has for a key, from the key's entry and from what it had.
abbrev listed : Option Bytes → Option Version → Option Version
unfolding Version.unmarshal_binary
listed none before = before
listed (some entry) before =
    if leb version_bytes (length entry)
    then some (Version.unmarshal_binary (take version_bytes entry))
    else before

lookup-list_one :
    (j k : String) (entry : Bytes) (catalog : Dict Version)
    → lookup k (list_one j entry catalog)
      ≡ (if str_eq j k then listed (some entry) (lookup k catalog) else lookup k catalog)
unfolding lookup listed
lookup-list_one j k entry catalog = elim (Bool-cases (leb version_bytes (length entry))) [
  | inl t ↦ rw t (lookup-insert j k _ catalog)
  | inr t ↦ rw t (ground arith)
]

lookup-list_from :
    (k : String) (b : Bucket) (catalog : Dict Version)
    → Distinct b
    → lookup k (list_from catalog b) ≡ listed (lookup k b) (lookup k catalog)
unfolding list_from lookup listed
lookup-list_from k [] catalog d = refl
lookup-list_from k ((j, entry) ∷ rest) catalog d =
    let below = lookup-list_from k rest (list_one j entry catalog) d.1 in
    let first = lookup-list_one j k entry catalog in
    elim (Bool-cases (str_eq j k)) [
      | inl t ↦
          let gone : lookup k rest ≡ none =
            subst (λ (i : String). lookup i rest ≡ none) ((eq_iff j k).0 t) d.0 in
          rw (t, lookup)
            (below
              ∙ ap (λ (o : Option Bytes). listed o (lookup k (list_one j entry catalog))) gone
              ∙ first
              ∙ rw t refl)
      | inr t ↦ rw (t, lookup) (below ∙ ap (listed (lookup k rest)) (first ∙ rw t refl))
    ]

-- For a bucket in which no key has two entries, `List` has for each key the version that `Get` returns
-- for it, and no key for which `Get` returns an error.
pub list-get : (b : Bucket) (k : String) → Distinct b → lookup k (list b) ≡ version_got (get b k)
unfolding list get split_entry or_nil lookup listed Version.unmarshal_binary
list-get b k d = lookup-list_from k b [] d ∙ elim (Option-cases (lookup k b)) [
  | inl p ↦ rw p refl
  | inr (entry, p) ↦ rw p (elim (Bool-cases (leb version_bytes (length entry))) [
    | inl t ↦ let u : ltb (length entry) version_bytes ≡ false = ground (arith, t) in rw (t, u) refl
    | inr t ↦ let u : ltb (length entry) version_bytes ≡ true = ground (arith, t) in rw (t, u) refl
  ])
]
