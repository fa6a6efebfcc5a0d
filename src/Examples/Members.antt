-- ===== src/Examples/Members.antt =====
-- The web of trust at a concrete key ring: the user trusts `alice`, who signs `bob`.
use pnyxdb.Base.{
  Returns, ap, arith, not, str_eq, if◌then◌else◌, false, List, All, Distinct, map_some, inl, inr, ℕ,
  String, Bytes, true, ◌≡◌, refl, Option, none, some, [], ◌∷◌, Dict, lookup, insert, contains,
}
use pnyxdb.Keyring.Web.{Key, Signature, build_trust_web, trusted, verify}
use pnyxdb.Keyring.Rounds.{build_trust_web-Returns}
use pnyxdb.Keyring.Rooted.{Rooted, Unambiguous, build_trust_web-Rooted}
use pnyxdb.Keyring.Ring.{Ring, new_ring, ask_trusted, rebuild}
use pnyxdb.Keyring.Ring.Members.{CryptoEngine, add_public, ask_verify}
use pnyxdb.Keyring.Ring.Members.{
  Coding, Block, private_block, public_block, other_block, key_or_new, unmarshal_binary,
}
use pnyxdb.Keyring.Ring.Export.{trust_string, marshal_binary}
use pnyxdb.Keyring.Ring.Saved.{Kept, IsLawful, Named, Savable, as_read, ring_reads_back}
use pnyxdb.Keyring.Ring.Lazy.{Calls, begin, after, added, asked, answers_lazily}

abbrev key_of : ℕ → Dict Signature → Key
key_of level signatures = record {
  public = [];
  signatures = signatures;
  signed_by = [];
  trust = level;
  effective_trust = level;
}

abbrev ring : Dict Key
ring =
    ("alice", key_of 255 (("bob", record { sign_data = []; level = 3 }) ∷ []))
    ∷ ("bob", key_of 0 [])
    ∷ []

abbrev or_empty : Option (Dict Key) → Dict Key
or_empty none = []
or_empty (some keys) = keys

abbrev built : Dict Key
built = or_empty (build_trust_web 3 ring)

built_web : build_trust_web 3 ring ≡ some built
unfolding build_trust_web lookup insert contains
built_web = refl

bob_trusted : trusted "bob" built ≡ none
unfolding build_trust_web trusted lookup insert contains
bob_trusted = refl

ring-Unambiguous : Unambiguous ring ring
unfolding lookup
ring-Unambiguous = (refl, (refl, tt))

build_trust_web-Rooted_example : Rooted ring "bob"
build_trust_web-Rooted_example =
    build_trust_web-Rooted 3 ring built "bob" ring-Unambiguous built_web bob_trusted

build_trust_web-Returns_example : Returns (build_trust_web 3 ring)
build_trust_web-Returns_example = build_trust_web-Returns 3 ring (omega arith)

-- A cipher engine that takes every key and every signature.
abbrev lenient : CryptoEngine
lenient = record {
  validate = λ raw. true;
  sign = λ secret cleartext. cleartext;
  verify_bytes = λ key cleartext signature. true;
}

-- `bob` is added with a low level, asked for, and then raised.
abbrev low : Ring
low = (add_public lenient "bob" 1 (5 ∷ []) (new_ring "alice")).1

abbrev raised : Ring
raised = (add_public lenient "bob" 3 (5 ∷ []) (ask_trusted "bob" low).1).1

raised-Calls : Calls lenient (new_ring "alice") raised
raised-Calls =
    after (after (after begin (added "bob" 1 (5 ∷ []))) (asked "bob")) (added "bob" 3 (5 ∷ []))

answers_lazily_example :
    ((identity : String) → (ask_trusted identity raised).0 ≡ trusted identity (rebuild raised.keys))
    × ((from : String) (cleartext s : Bytes)
        → (ask_verify lenient from cleartext s raised).0
          ≡ verify (CryptoEngine.verify_bytes lenient) from cleartext s (rebuild raised.keys))
answers_lazily_example = answers_lazily lenient "alice" raised raised-Calls

-- The ring with a private key, which is written and read.
abbrev owned : Ring
owned = record raised { armored_secret = some (9 ∷ []) }

abbrev digits : ℕ → String
digits n = "2"

-- Libraries whose text is a sequence of blocks, of which one with a space for an identity is lost.
unfoldable pub readable : List Block → List Block
readable [] = []
readable (public_block identity level key ∷ bs) =
    let rest = readable bs in
    if str_eq identity " " then rest else public_block identity level key ∷ rest
readable (private_block secret ∷ bs) = private_block secret ∷ readable bs
readable (other_block ∷ bs) = other_block ∷ readable bs

abbrev coding : Coding (List Block)
coding = record { encode = λ bs. bs; decode = readable; keeps = λ s. not (str_eq s " ") }

readable_lem : (bs : List Block) → All (Kept coding) bs → readable bs ≡ bs
unfolding readable
readable_lem [] h = refl
readable_lem (public_block identity level key ∷ bs) h =
    let ih = readable_lem bs h.1 in
    let kept : str_eq identity " " ≡ false = ground (arith, h.0.0) in
    rw kept (ap (λ (xs : List Block). public_block identity level key ∷ xs) ih)
readable_lem (private_block secret ∷ bs) h =
    ap (λ (xs : List Block). private_block secret ∷ xs) (readable_lem bs h.1)
readable_lem (other_block ∷ bs) h = ap (λ (xs : List Block). other_block ∷ xs) (readable_lem bs h.1)

level_kept : (t : ℕ) → Named t → coding.keeps (trust_string coding digits t) ≡ true
unfolding Named trust_string
level_kept t (inl h) = rw h refl
level_kept t (inr (inl h)) = rw h refl
level_kept t (inr (inr (inl h))) = rw h refl
level_kept t (inr (inr (inr h))) = rw h refl

coding-IsLawful : IsLawful coding digits (λ s. s)
unfolding readable
coding-IsLawful = record {
  reads_back = readable_lem;
  keeps_nothing = refl;
  keeps_level = level_kept;
  lower = λ t h. refl;
}

abbrev blocks_of : Option (List Block) → List Block
blocks_of none = []
blocks_of (some blocks) = blocks

abbrev saved : List Block
saved = blocks_of (marshal_binary coding digits owned)

owned_blocks : marshal_binary coding digits owned ≡ some saved
unfolding marshal_binary add_public ask_trusted new_ring lookup insert
owned_blocks = refl

owned-Savable : All (Savable coding owned.self_identity) owned.keys
unfolding Savable Named add_public ask_trusted new_ring lookup insert
owned-Savable = (inl (refl, refl), (inr (refl, refl, refl, inr (inr (inl refl))), tt))

abbrev own_key : Key
own_key = key_or_new (lookup "alice" owned.keys)

own_key_found : lookup owned.self_identity owned.keys ≡ some own_key
unfolding add_public ask_trusted new_ring lookup insert key_or_new
own_key_found = refl

owned-Distinct : Distinct owned.keys
unfolding add_public ask_trusted new_ring lookup insert
owned-Distinct = (refl, (refl, tt))

ring_reads_back_example :
    let r' = unmarshal_binary coding (λ t. t) saved (new_ring owned.self_identity) in
    ((u : String) → lookup u r'.keys ≡ map_some as_read (lookup u owned.keys))
    × (r'.armored_secret ≡ owned.armored_secret)
    × (r'.secret ≡ none)
    × (r'.stale ≡ true)
ring_reads_back_example =
    ring_reads_back coding digits (λ s. s) coding-IsLawful owned own_key saved owned-Distinct
      own_key_found owned-Savable owned_blocks
