-- ===== src/Store/Projection/Codec.antt =====
-- `CodecSnapshotStore` of crates/store/src/state.rs as a checkpoint store: typed state over a
-- checkpoint store of bytes.
use mnesis.Base.{
  ℕ, ◌≡◌, ◌≢◌, ◌∙◌, refl, sym, ap, inl, inr, Option, none, some, List, arith, ◌==◌, true, false,
  Bool-cases,
}
use mathlib.Core.Option
use mnesis.Base.Result.{Result, ok, err, ◌>>=◌, map_err, Result-cases}
use mnesis.Store.Value.{FromUtf8}
use mnesis.Store.Codec.{Codec, Failure, of_store, encode, decoded, IsCodec}
use mnesis.Store.Checkpoint.{
  Positions, CheckpointHydrated, absent, stale, found, CheckpointWrite, check_mode, next_revision,
}
use mnesis.Store.Projection.{
  CheckpointStore, CheckpointError, store, rejected, Ending, returned, panicked, dropped,
}
use mnesis.Store.Projection.Contract.{
  Kept, reading, facts_of, IsCommitted, IsUncertain, IsWritten, IsLawful,
}

module _ (u : FromUtf8) {𝓟 : Positions} {State : Type 0} (codec : Codec State)
    (bytes : CheckpointStore 𝓟 (List ℕ)) where
  abbrev Fault : Type 0
  Fault = Failure u codec bytes.Error

  -- `hydrate_checkpoint`, behind the reading of the bytes.
  abbrev pub hydrated_state :
      List ℕ → CheckpointHydrated 𝓟 (List ℕ) → Result Fault (CheckpointHydrated 𝓟 State)
  hydrated_state id absent = ok absent
  hydrated_state id (stale revision stored) = ok (stale revision stored)
  hydrated_state id (found revision position payload) = do
    state ← decoded u codec bytes.Error id payload
    ok (found revision position state)

  abbrev pub store_error : CheckpointError bytes.Error → CheckpointError Fault
  store_error (store e) = store (of_store e)
  store_error (rejected e) = rejected e

  abbrev pub committed_ending :
      Ending (Result (CheckpointError bytes.Error) ℕ) → Ending (Result (CheckpointError Fault) ℕ)
  committed_ending (returned r) = returned (map_err store_error r)
  committed_ending panicked = panicked
  committed_ending dropped = dropped

  abbrev pub write_bytes : CheckpointWrite 𝓟 State → List ℕ → CheckpointWrite 𝓟 (List ℕ)
  write_bytes write payload = record {
    expected = write.expected;
    schema_version = write.schema_version;
    position = write.position;
    state = payload;
    mode = write.mode;
  }

  -- `impl CheckpointStore for CodecSnapshotStore`
  abbrev pub codec_store : CheckpointStore 𝓟 State
  codec_store = record {
    World = bytes.World;
    Error = Fault;
    hydrate_checkpoint = λ id schema world.
        map_err of_store (bytes.hydrate_checkpoint id schema world) >>= hydrated_state id;
    commit_checkpoint = λ id write world. elim (codec.encode write.state) [
      | err e ↦ (world, returned (err (store (encode e))))
      | ok payload ↦
          let (world', ending) = bytes.commit_checkpoint id (write_bytes write payload) world in
          (world', committed_ending ending)
    ];
  }

  module _ (kept : bytes.World → List ℕ → Option (Kept 𝓟 (List ℕ))) (fallback : State) where
    abbrev read_or : Result Fault State → State
    read_or (ok state) = state
    read_or (err e) = fallback

    abbrev read_kept : List ℕ → Kept 𝓟 (List ℕ) → Kept 𝓟 State
    read_kept id r = record {
      revision = r.revision;
      schema_version = r.schema_version;
      position = r.position;
      state = read_or (decoded u codec bytes.Error id r.state);
    }

    -- The checkpoint that the stored bytes stand for; bytes that do not decode, which no reading
    -- returns, stand for `fallback`.
    abbrev pub kept_state : bytes.World → List ℕ → Option (Kept 𝓟 State)
    kept_state world id = Option.map (read_kept id) (kept world id)

    module _ (laws : IsCodec u codec bytes.Error) where
      next_revision-bytes :
          (id payload : List ℕ) (write : CheckpointWrite 𝓟 State) (o : Option (Kept 𝓟 (List ℕ)))
          → next_revision 𝓟
              (List ℕ)
              (write_bytes write payload)
              (Option.map (facts_of 𝓟 (List ℕ)) o)
            ≡ next_revision 𝓟 State write
                (Option.map (facts_of 𝓟 State) (Option.map (read_kept id) o))
      unfolding next_revision check_mode
      next_revision-bytes id payload write none = refl
      next_revision-bytes id payload write (some r) = refl

      written :
          (id payload : List ℕ) (write : CheckpointWrite 𝓟 State)
          (before after : Option (Kept 𝓟 (List ℕ))) (revision : ℕ)
          → codec.encode write.state ≡ ok payload
          → IsCommitted 𝓟 (List ℕ) (write_bytes write payload) before after revision
          → IsCommitted 𝓟 State write
              (Option.map (read_kept id) before)
              (Option.map (read_kept id) after)
              revision
      written id payload write before after revision h (admitted, stored) = (
        sym (next_revision-bytes id payload write before) ∙ admitted,
        rw (stored, laws.restores id write.state payload h) refl,
      )

      doubted :
          (id payload : List ℕ) (write : CheckpointWrite 𝓟 State)
          (before after : Option (Kept 𝓟 (List ℕ)))
          → codec.encode write.state ≡ ok payload
          → IsUncertain 𝓟 (List ℕ) (write_bytes write payload) before after
          → IsUncertain 𝓟 State write
              (Option.map (read_kept id) before)
              (Option.map (read_kept id) after)
      doubted id payload write before after h (inl same) = inl (rw same refl)
      doubted id payload write before after h (inr (revision, done)) =
          inr (revision, written id payload write before after revision h done)

      committed_ending-IsWritten :
          (id payload : List ℕ) (write : CheckpointWrite 𝓟 State)
          (before after : Option (Kept 𝓟 (List ℕ)))
          (ending : Ending (Result (CheckpointError bytes.Error) ℕ))
          → codec.encode write.state ≡ ok payload
          → IsWritten 𝓟 (List ℕ) (write_bytes write payload) before after ending
          → IsWritten 𝓟 State write
              (Option.map (read_kept id) before)
              (Option.map (read_kept id) after)
              (committed_ending ending)
      committed_ending-IsWritten id payload write before after (returned (ok revision)) h done =
          written id payload write before after revision h done
      committed_ending-IsWritten id payload write before after (returned (err (rejected e))) h
            (refused, same) =
          (sym (next_revision-bytes id payload write before) ∙ refused, rw same refl)
      committed_ending-IsWritten id payload write before after (returned (err (store e))) h done =
          doubted id payload write before after h done
      committed_ending-IsWritten id payload write before after panicked h done =
          doubted id payload write before after h done
      committed_ending-IsWritten id payload write before after dropped h done =
          doubted id payload write before after h done

      abbrev the_ok : CheckpointHydrated 𝓟 State → Result Fault (CheckpointHydrated 𝓟 State)
      the_ok a = ok a

      abbrev failed : Fault → Result Fault (CheckpointHydrated 𝓟 State)
      failed e = err e

      ok-injective : (a b : CheckpointHydrated 𝓟 State) → the_ok a ≡ ok b → a ≡ b
      ok-injective a b h = ground (arith, h)

      not_ok : (e : Fault) (hydrated : CheckpointHydrated 𝓟 State) → failed e ≢ ok hydrated
      not_ok e hydrated h = ground (arith, h)

      map_err-ok :
          (id : List ℕ) (answer : CheckpointHydrated 𝓟 (List ℕ))
          (r : Result bytes.Error (CheckpointHydrated 𝓟 (List ℕ)))
          → r ≡ ok answer
          → (map_err of_store r >>= hydrated_state id) ≡ hydrated_state id answer
      map_err-ok id answer r q = rw q refl

      map_err-err :
          (id : List ℕ) (e : bytes.Error) (r : Result bytes.Error (CheckpointHydrated 𝓟 (List ℕ)))
          → r ≡ err e
          → (map_err of_store r >>= hydrated_state id) ≡ failed (of_store e)
      map_err-err id e r q = rw q refl

      module _ (id : List ℕ) (schema : ℕ) (r : Kept 𝓟 (List ℕ)) where
        unread :
            r.schema_version == schema ≡ false
            → hydrated_state id (reading 𝓟 (List ℕ) schema (some r))
              ≡ ok (stale r.revision r.schema_version)
        unread other = rw other refl

        decodes :
            (state : State)
            → r.schema_version == schema ≡ true
            → decoded u codec bytes.Error id r.state ≡ ok state
            → hydrated_state id (reading 𝓟 (List ℕ) schema (some r))
              ≡ ok (found r.revision r.position state)
        decodes state same d = rw (same, d) refl

        fails :
            (e : Fault)
            → r.schema_version == schema ≡ true
            → decoded u codec bytes.Error id r.state ≡ err e
            → hydrated_state id (reading 𝓟 (List ℕ) schema (some r)) ≡ err e
        fails e same d = rw (same, d) refl

      hydrated-reading :
          (id : List ℕ) (schema : ℕ) (o : Option (Kept 𝓟 (List ℕ)))
          (hydrated : CheckpointHydrated 𝓟 State)
          → hydrated_state id (reading 𝓟 (List ℕ) schema o) ≡ ok hydrated
          → hydrated ≡ reading 𝓟 State schema (Option.map (read_kept id) o)
      hydrated-reading id schema none hydrated h = sym (ok-injective absent hydrated h)
      hydrated-reading id schema (some r) hydrated h =
          elim (Bool-cases (r.schema_version == schema)) [
            | inr other ↦ rw other (
                sym (
                  ok-injective (stale r.revision r.schema_version) hydrated
                    (sym (unread id schema r other) ∙ h)))
            | inl same ↦ elim (Result-cases (decoded u codec bytes.Error id r.state)) [
              | inl (state, d) ↦
                  rw (same, d)
                    (sym (
                      ok-injective (found r.revision r.position state) hydrated
                        (sym (decodes id schema r state same d) ∙ h)))
              | inr (e, d) ↦ absurd (not_ok e hydrated (sym (fails id schema r e same d) ∙ h))
            ]
          ]

      module _ (lawful : IsLawful 𝓟 (List ℕ) bytes kept) where
        -- Over a lawful checkpoint store of bytes, with a codec that decodes what it has encoded,
        -- the bridge is a lawful checkpoint store of typed state: it returns a checkpoint only as
        -- the stored bytes decode, and a write is admitted, rejected or in doubt just as the write
        -- of the encoded bytes is.
        pub codec_store-IsLawful : IsLawful 𝓟 State codec_store kept_state
        codec_store-IsLawful = record {
          reads = λ id schema world hydrated h.
              elim (Result-cases (bytes.hydrate_checkpoint id schema world)) [
                | inr (e, q) ↦ absurd (
                    not_ok (of_store e) hydrated
                      (sym (map_err-err id e (bytes.hydrate_checkpoint id schema world) q) ∙ h))
                | inl (answer, q) ↦ hydrated-reading id schema (kept world id) hydrated (
                    sym (ap (hydrated_state id) (lawful.reads id schema world answer q))
                    ∙ sym (map_err-ok id answer (bytes.hydrate_checkpoint id schema world) q)
                    ∙ h)
              ];
          writes = λ id write world. elim (Result-cases (codec.encode write.state)) [
            | inr (e, h) ↦ rw h (inl refl)
            | inl (payload, h) ↦ rw h (
                committed_ending-IsWritten id payload write (kept world id)
                  (kept (bytes.commit_checkpoint id (write_bytes write payload) world).0 id)
                  (bytes.commit_checkpoint id (write_bytes write payload) world).1 h
                  (lawful.writes id (write_bytes write payload) world))
          ];
        }
