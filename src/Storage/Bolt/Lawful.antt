-- ===== src/Storage/Bolt/Lawful.antt =====
-- The BoltDB driver is a storage driver as the engine relies on it.
use pnyxdb.Base.{
  ◌≡◌, refl, sym, ap, ◌∙◌, String, Bool, Option, none, some, [], ◌∷◌, ◌++◌, Bytes, Dict, map,
  lookup, insert, str_eq, eq_iff, length, Bool-cases, inl, inr, Distinct, keys, subst,
}
use pnyxdb.Consensus.Version.{new_version, version_bytes}
use pnyxdb.Consensus.Driver.{
  Driver, Wrote, wrote, fault, failed, StoreError, refused, settled, IsLawful,
}
use pnyxdb.Storage.Bolt
use pnyxdb.Storage.Bolt.{
  Bucket, Updated, updated, set_one, set_batch_from, set, set_batch, after, get, get-insert,
  set_one_lem,
}

abbrev pub wrote_of : Updated → Wrote
wrote_of (updated b) = wrote
wrote_of (Bolt.failed e) = failed e
wrote_of Bolt.fault = fault

module _ (accepts : String → Bytes → Bool) where
  abbrev pub driver : Driver
  driver = record {
    Store = Bucket;
    get = get;
    set = λ b key value version. let r = set accepts b key value version in (r.0, wrote_of r.1);
    set_batch = λ b ks vs ws. let r = set_batch accepts b ks vs ws in (r.0, wrote_of r.1);
  }

  after-updated :
      (b : Bucket) (u : Updated)
      → wrote_of (after accepts b u).1 ≡ wrote
      → (b' : Bucket) × (u ≡ updated b') × ((after accepts b u).0 ≡ b')
  unfolding after
  after-updated b (updated b') h = (b', refl, refl)
  after-updated b (Bolt.failed e) h = cc
  after-updated b Bolt.fault h = cc

  after-failed :
      (b : Bucket) (u : Updated) {e : StoreError}
      → wrote_of (after accepts b u).1 ≡ failed e
      → (after accepts b u).0 ≡ b
  unfolding after
  after-failed b (updated b') h = cc
  after-failed b (Bolt.failed e) h = refl
  after-failed b Bolt.fault h = refl

  module _ (sha512 : Bytes → Bytes)
      (size : (raw : Bytes) → length (sha512 raw) ≡ version_bytes) where
    -- The loop over the entries of a map.
    batch : Bucket → Dict Bytes → Updated
    batch b m =
        set_batch_from accepts b (keys m) (map (λ (e : String × Bytes). e.1) m)
          (map (λ (e : String × Bytes). some (new_version sha512 e.1)) m)

    -- What the loop does after its first round.
    abbrev after_first : Dict Bytes → Updated → Updated
    after_first m (updated b) = batch b m
    after_first m (Bolt.failed e) = Bolt.failed e
    after_first m Bolt.fault = Bolt.fault

    get-batch :
        (m : Dict Bytes) (b b' : Bucket)
        → Distinct m
        → batch b m ≡ updated b'
        → (k : String) → get b' k ≡ settled sha512 (lookup k m) (get b k)
    unfolding batch set_batch_from lookup new_version
    get-batch [] b b' d h k = cc
    get-batch ((j, raw) ∷ m) b b' d h k =
        let first = set_one_lem accepts b j raw (new_version sha512 raw) (size raw) in
        elim (Bool-cases (accepts j (sha512 raw ++ raw))) [
          | inr t ↦
              let no : set_one accepts b j raw (some (new_version sha512 raw))
                  ≡ Bolt.failed refused =
                first ∙ rw t refl in
              cc (sym (ap (after_first m) no) ∙ h)
          | inl t ↦
              let put : set_one accepts b j raw (some (new_version sha512 raw))
                  ≡ updated (insert j (sha512 raw ++ raw) b) =
                first ∙ rw t refl in
              let written = get-insert accepts b j raw (new_version sha512 raw) k (size raw) in
              let rest =
                get-batch m (insert j (sha512 raw ++ raw) b) b' d.1
                  (sym (ap (after_first m) put) ∙ h) k in
              elim (Bool-cases (str_eq j k)) [
                | inl same ↦ rw same (
                    rest
                    ∙ (ap
                          (λ (o : Option Bytes).
                            settled sha512 o (get (insert j (sha512 raw ++ raw) b) k))
                          (subst (λ (i : String). lookup i m ≡ none) ((eq_iff j k).0 same) d.0)
                        ∙ written
                        ∙ rw same refl))
                | inr other ↦
                    rw other (rest ∙ ap (settled sha512 (lookup k m)) (written ∙ rw other refl))
              ]
        ]

    -- With a hash function whose hashes have 64 bytes, the BoltDB driver is a storage as the engine
    -- relies on it: a batch that is written is what `Get` returns for its keys, with the hashes as the
    -- versions, and changes no other key; a batch that fails changes nothing.
    pub driver-IsLawful : IsLawful driver sha512
    unfolding set_batch after batch
    driver-IsLawful = record {
      written = λ b m d h k.
          let (b', e, same) = after-updated b (batch b m) h in
          ap (λ (c : Bucket). get c k) same ∙ get-batch m b b' d e k;
      not_written = λ b ks vs ws e h. after-failed b (set_batch_from accepts b ks vs ws) h;
    }
