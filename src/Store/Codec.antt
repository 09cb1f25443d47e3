-- ===== src/Store/Codec.antt =====
-- `CodecSnapshotStore` of crates/store/src/state.rs, which keeps typed state in a store of bytes:
-- its error, and how it reads the bytes. The codec and the labels of the ids are the application's.
use mnesis.Base.{ℕ, ◌≡◌, List}
use mnesis.Base.Result.{Result, ok, ◌>>=◌, map_err}
use mnesis.Store.Value.{FromUtf8}
use mnesis.Store.Envelope.Persisted.{PersistedEnvelope, ForDecodeError, for_decode}

-- `Encode` and `Decode`, with `Id::to_label`.
pub record Codec (State : Type 0) : Type 1 where
  pub EncodeError : Type 0
  pub DecodeError : Type 0
  pub encode : State → Result EncodeError (List ℕ)
  pub decode : PersistedEnvelope → Result DecodeError State
  pub label : List ℕ → List ℕ

pub data CodecSnapshotStoreError (S E D : Type 0) : Type 0 where
  of_store : S → CodecSnapshotStoreError S E D
  encode : E → CodecSnapshotStoreError S E D
  decode : D → CodecSnapshotStoreError S E D
  envelope_synthesis : ForDecodeError → CodecSnapshotStoreError S E D

module _ (u : FromUtf8) {State : Type 0} (codec : Codec State) (Error : Type 0) where
  abbrev pub Failure : Type 0
  Failure = CodecSnapshotStoreError Error codec.EncodeError codec.DecodeError

  -- The bytes, read in a synthetic envelope.
  unfoldable pub decoded : List ℕ → List ℕ → Result Failure State
  decoded id payload = do
    env ← map_err envelope_synthesis (for_decode u (codec.label id) payload)
    map_err decode (codec.decode env)

  -- What the codec is documented to do: what it has encoded, it decodes.
  pub record IsCodec : Type 0 where
    pub restores :
        (id : List ℕ) (state : State) (payload : List ℕ)
        → codec.encode state ≡ ok payload
        → decoded id payload ≡ ok state
