-- ===== src/InMemory/Snapshot/Codec.antt =====
-- `CodecSnapshotStore` of crates/store/src/state.rs as a snapshot store: typed state over a
-- snapshot store of bytes.
use mnesis.Base.{ℕ, ◌≡◌, ◌∙◌, refl, sym, ap, inl, inr, List, arith}
use mnesis.Base.Result.{Result, ok, err, ◌>>=◌, map_err, Result-cases}
use mnesis.Kernel.Version.{Version}
use mnesis.Store.Value.{FromUtf8}
use mnesis.Store.Codec.{Codec, Failure, of_store, encode, decoded, IsCodec}
use mnesis.InMemory.Snapshot.{SnapshotStore, Hydrated, absent, stale, found}
use mnesis.InMemory.Snapshot.Sound.{IsSlotStore}

module _ (u : FromUtf8) {State : Type 0} (codec : Codec State)
    (bytes : SnapshotStore (List ℕ)) where
  abbrev Fault : Type 0
  Fault = Failure u codec bytes.Error

  -- `hydrate`, behind the reading of the bytes.
  abbrev pub decoded_snapshot : List ℕ → Hydrated (List ℕ) → Result Fault (Hydrated State)
  decoded_snapshot id absent = ok absent
  decoded_snapshot id (stale stored) = ok (stale stored)
  decoded_snapshot id (found position payload) = do
    state ← decoded u codec bytes.Error id payload
    ok (found position state)

  -- `impl SnapshotStore for CodecSnapshotStore`
  abbrev pub codec_snapshots : SnapshotStore State
  codec_snapshots = record {
    World = bytes.World;
    Error = Fault;
    hydrate =
        λ id schema world. map_err of_store (bytes.hydrate id schema world) >>= decoded_snapshot id;
    commit = λ id schema position state world. elim (codec.encode state) [
      | err e ↦ (world, err (encode e))
      | ok payload ↦
          let (world', r) = bytes.commit id schema position payload world in
          (world', map_err of_store r)
    ];
  }

  abbrev answered : List ℕ → Result bytes.Error (Hydrated (List ℕ)) → Result Fault (Hydrated State)
  answered id r = map_err of_store r >>= decoded_snapshot id

  ok_inj : (a b : State) → ◌≡◌ {A = Result Fault State} (ok a) (ok b) → a ≡ b
  ok_inj a b h = ground (arith, h)

  found_inj :
      (v at : Version) (a s : State)
      → ◌≡◌ {A = Result Fault (Hydrated State)} (ok (found v a)) (ok (found at s))
      → a ≡ s
  found_inj v at a s h = ground (arith, h)

  rebuilt :
      (id : List ℕ) (at v : Version) (s : State) (payload : List ℕ) (r : Result Fault State)
      → (r >>= λ state. ok (found v state)) ≡ ok (found at s)
      → (v ≡ at) × (r ≡ ok s)
  rebuilt id at v s payload (ok a) h = (ground (arith, h), ap (λ x. ok x) (found_inj v at a s h))
  rebuilt id at v s payload (err e) h = absurd (ground (arith, h))

  -- What the bridge finds, it has found in the bytes.
  found_in :
      (id : List ℕ) (at : Version) (s : State) (r : Result bytes.Error (Hydrated (List ℕ)))
      → answered id r ≡ ok (found at s)
      → (payload : List ℕ) × (r ≡ ok (found at payload))
        × (decoded u codec bytes.Error id payload ≡ ok s)
  found_in id at s (err e) h = ground (arith, h)
  found_in id at s (ok absent) h = ground (arith, h)
  found_in id at s (ok (stale stored)) h = ground (arith, h)
  found_in id at s (ok (found v payload)) h =
      let (same, d) = rebuilt id at v s payload (decoded u codec bytes.Error id payload) h in
      (payload, ap (λ x. ok (found x payload)) same, d)

  unwritten :
      (id j : List ℕ) (schema : ℕ) (version : Version) (state : State) (world : bytes.World)
      (e : codec.EncodeError)
      → codec.encode state ≡ err e
      → codec_snapshots.hydrate j schema (codec_snapshots.commit id schema version state world).0
        ≡ codec_snapshots.hydrate j schema world
  unwritten id j schema version state world e q = rw q refl

  written :
      (id j : List ℕ) (schema : ℕ) (version : Version) (state : State) (world : bytes.World)
      (payload : List ℕ)
      → codec.encode state ≡ ok payload
      → codec_snapshots.hydrate j schema (codec_snapshots.commit id schema version state world).0
        ≡ answered j (bytes.hydrate j schema (bytes.commit id schema version payload world).0)
  written id j schema version state world payload q = rw q refl

  reread :
      (j : List ℕ) (at : Version) (s : State) (stored : List ℕ)
      → decoded u codec bytes.Error j stored ≡ ok s
      → answered j (ok (found at stored)) ≡ ok (found at s)
  reread j at s stored d = rw d refl

  module _ (laws : IsCodec u codec bytes.Error) where
    -- Over a store of slots of bytes, with a codec that decodes what it has encoded, the bridge is
    -- a store of slots of typed state: what is found behind a commit, failed or not, is the state
    -- committed, or was found before.
    pub codec_snapshots-IsSlotStore : IsSlotStore bytes → IsSlotStore codec_snapshots
    codec_snapshots-IsSlotStore slots = record {
      replaces = λ id j schema version at state s world h.
          elim (Result-cases (codec.encode state)) [
            | inr (e, q) ↦ inr (sym (unwritten id j schema version state world e q) ∙ h)
            | inl (payload, q) ↦
                let (stored, r, d) =
                  found_in j at s
                    (bytes.hydrate j schema (bytes.commit id schema version payload world).0)
                    (sym (written id j schema version state world payload q) ∙ h) in
                elim (slots.replaces id j schema version at payload stored world r) [
                  | inl (same, v, t) ↦ inl (
                    same,
                    v,
                    ok_inj state s (
                        sym (laws.restores j state payload q)
                        ∙ ap (decoded u codec bytes.Error j) t
                        ∙ d),
                  )
                  | inr before ↦ inr (ap (answered j) before ∙ reread j at s stored d)
                ]
          ];
    }
