-- ===== src/Storage/Bolt.antt =====
-- storage/boltdb/driver.go. The bucket of the BoltDB library is a map; a transaction whose function
-- returns an error is rolled back, and `Put` may refuse a pair, which is a parameter.
pub mod Lawful
pub mod Listing
use pnyxdb.Base.{
  ℕ, ◌≡◌, refl, sym, ap, ◌∙◌, String, Bool, true, false, Option, none, some, List, [], ◌∷◌, ◌++◌,
  Bytes, Dict, lookup, insert, lookup-insert, str_eq, length, length-append, take, take-append,
  drop, drop-append, append-nil, ltb, ◌⊎◌, if◌then◌else◌, Bool-cases, inl, inr, arith,
}
use pnyxdb.Consensus.Query.{Version}
use pnyxdb.Consensus.Driver.{Got, StoreError, not_found, refused}
use pnyxdb.Consensus.Version.{no_version, version_bytes}
use pnyxdb.Consensus.Version

abbrev pub Bucket : Type 0
Bucket = Dict Bytes

pub or_nil : Option Bytes → Bytes
or_nil none = []
or_nil (some bs) = bs

pub split_entry : Bytes → Got
unfolding Version.unmarshal_binary
split_entry bs =
    if ltb (length bs) version_bytes
    then record { value = []; version = some no_version; err = some not_found }
    else record {
      value = drop version_bytes bs;
      version = some (Version.unmarshal_binary (take version_bytes bs));
      err = none;
    }

-- `Get`
unfoldable pub get : Bucket → String → Got
unfolding split_entry or_nil
get b key = split_entry (or_nil (lookup key b))

split_entry_lem :
    (v : Version) (value : Bytes)
    → length v.hash ≡ version_bytes
    → split_entry (v.hash ++ value) ≡ record { value = value; version = some v; err = none }
unfolding split_entry
split_entry_lem v value size =
    let long : ltb (length (v.hash ++ value)) version_bytes ≡ false =
      ground (arith, length-append v.hash value, size) in
    let front : take version_bytes (v.hash ++ value) ≡ v.hash =
      ap (λ (n : ℕ). take n (v.hash ++ value)) (sym size) ∙ take-append v.hash value in
    let back : drop version_bytes (v.hash ++ value) ≡ value =
      ap (λ (n : ℕ). drop n (v.hash ++ value)) (sym size) ∙ drop-append v.hash value in
    rw long (rw (front, back))

-- The result of a transaction; `fault` is an index or a slice out of range.
pub data Updated : Type 0 where
  updated : Bucket → Updated
  failed : StoreError → Updated
  fault : Updated

module _ (accepts : String → Bytes → Bool) where
  -- One round of the loop of `SetBatch`. A hash has no more capacity than bytes, so a slice of 64
  -- bytes of a shorter one is out of range.
  unfoldable pub set_one : Bucket → String → Bytes → Option Version → Updated
  unfolding Version.marshal_binary
  set_one b key value version =
      let rv = Version.marshal_binary version in
      let entry = take version_bytes rv ++ value in
      if ltb (length rv) version_bytes
      then fault
      else if accepts key entry
      then updated (insert key entry b)
      else failed refused

  -- The loop of `SetBatch`: the slices of values and versions are read at the keys' indices.
  unfoldable pub set_batch_from :
      Bucket → List String → List Bytes → List (Option Version) → Updated
  unfolding set_one
  set_batch_from b [] values versions = updated b
  set_batch_from b (k ∷ ks) [] versions = fault
  set_batch_from b (k ∷ ks) (v ∷ vs) [] = fault
  set_batch_from b (k ∷ ks) (v ∷ vs) (w ∷ ws) = elim (set_one b k v w) [
    | updated b' ↦ set_batch_from b' ks vs ws
    | failed e ↦ failed e
    | fault ↦ fault
  ]

  -- The bucket once the transaction ended: only a commit changes it.
  unfoldable pub after : Bucket → Updated → Bucket × Updated
  after b (updated b') = (b', updated b')
  after b (failed e) = (b, failed e)
  after b fault = (b, fault)

  -- `SetBatch`
  unfoldable pub set_batch :
      Bucket → List String → List Bytes → List (Option Version) → Bucket × Updated
  unfolding after set_batch_from
  set_batch b keys values versions = after b (set_batch_from b keys values versions)

  -- `Set`
  unfoldable pub set : Bucket → String → Bytes → Option Version → Bucket × Updated
  unfolding set_batch
  set b key value version = set_batch b (key ∷ []) (value ∷ []) (version ∷ [])

  pub set_one_lem :
      (b : Bucket) (key : String) (value : Bytes) (v : Version)
      → length v.hash ≡ version_bytes
      → set_one b key value (some v) ≡ (
          if accepts key (v.hash ++ value)
          then updated (insert key (v.hash ++ value) b)
          else failed refused)
  unfolding set_one Version.marshal_binary
  set_one_lem b key value v size =
      let whole : take version_bytes v.hash ≡ v.hash =
        ap (λ (n : ℕ). take n v.hash) (sym size)
        ∙ ap (take (length v.hash)) (sym (append-nil v.hash))
        ∙ take-append v.hash [] in
      let long : ltb (length v.hash) version_bytes ≡ false = rw size refl in rw (long, whole) refl

  set_lem :
      (b : Bucket) (key : String) (value : Bytes) (v : Version)
      → length v.hash ≡ version_bytes
      → accepts key (v.hash ++ value) ≡ true
      → let b' = insert key (v.hash ++ value) b in set b key value (some v) ≡ (b', updated b')
  unfolding set set_batch set_batch_from after
  set_lem b key value v size ok =
      let put : set_one b key value (some v) ≡ updated (insert key (v.hash ++ value) b) =
        set_one_lem b key value v size ∙ rw ok refl in
      ap
        (λ (r : Updated).
          after b (elim r [ updated b' ↦ updated b' | failed e ↦ failed e | fault ↦ fault ]))
        put

  -- What `Get` returns once an entry was put.
  pub get-insert :
      (b : Bucket) (key : String) (value : Bytes) (v : Version) (j : String)
      → length v.hash ≡ version_bytes
      → get (insert key (v.hash ++ value) b) j
        ≡ (if str_eq key j then record { value = value; version = some v; err = none } else get b j)
  unfolding get
  get-insert b key value v j size = elim (Bool-cases (str_eq key j)) [
    | inl t ↦ rw (lookup-insert, t) (split_entry_lem v value size)
    | inr t ↦ rw (lookup-insert, t)
  ]

  -- If the library takes the entry, storing a value with a version of the size of a hash succeeds,
  -- and makes `Get` return both under that key, and what it returned before under every other key.
  pub get-set :
      (b : Bucket) (key : String) (value : Bytes) (v : Version)
      → length v.hash ≡ version_bytes
      → accepts key (v.hash ++ value) ≡ true
      → (b' : Bucket) × (set b key value (some v) ≡ (b', updated b'))
        × ((j : String)
            → get b' j ≡ (
                if str_eq key j
                then record { value = value; version = some v; err = none }
                else get b j))
  get-set b key value v size ok = (
    insert key (v.hash ++ value) b,
    set_lem b key value v size ok,
    λ j. get-insert b key value v j size,
  )

  -- A batch that does not commit leaves every key as it was.
  pub set_batch_atomic :
      (b : Bucket) (keys : List String) (values : List Bytes) (versions : List (Option Version))
      → let r = set_batch b keys values versions in (r.1 ≡ updated r.0) ⊎ (r.0 ≡ b)
  unfolding set_batch
  set_batch_atomic b keys values versions = go (set_batch_from b keys values versions)
    where
      go : (u : Updated) → ((after b u).1 ≡ updated (after b u).0) ⊎ ((after b u).0 ≡ b)
      go (updated b') = inl refl
      go (failed e) = inr refl
      go fault = inr refl
