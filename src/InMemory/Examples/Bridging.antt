-- ===== src/InMemory/Examples/Bridging.antt =====
-- Typed state over stores of bytes: a number is encoded as one byte.
use mnesis.Base.{ℕ, ◌≡◌, refl, List, [], ◌∷◌, arith}
use mnesis.Base.Result.{Result, ok, err}
use mnesis.Store.Envelope.Persisted.{payload_value, for_decode}
use mnesis.Store.Projection.Contract.{IsLawful}
use mnesis.Store.Codec.{Codec, decoded, IsCodec}
use mnesis.Store.Projection.Codec.{codec_store, kept_state, codec_store-IsLawful}
use mnesis.InMemory.Checkpoint.Contract.{in_memory, kept_in, in_memory-IsLawful}
use mnesis.Store.Value.{event_type_from_bytes, payload_from_bytes}
use mnesis.Store.Wire.Layout.{align_padding, metadata_range, compute}
use mnesis.Store.Wire.Header.{from_validated_lengths, write_into}
use mnesis.Store.Wire.{plan, execute, encode_frame}
use mnesis.Base.Words.{to_le_bytes}
use mnesis.Store.Envelope.Persisted.{
  check_range, check_metadata_range, check_event_type_len, check_metadata_len, try_new,
}
use mathlib.Core.Path.{subst}
use mnesis.InMemory.Snapshot.{in_memory_snapshots}
use mnesis.InMemory.Snapshot.Sound.{IsSlotStore, in_memory_snapshots-IsSlotStore}
use mnesis.InMemory.Snapshot.Codec.{codec_snapshots, codec_snapshots-IsSlotStore}
use mnesis.InMemory.Examples.{any_utf8}
use mnesis.InMemory.Examples.Projecting.{sequence}

abbrev head_of : List ℕ → Result (Unit {0}) ℕ
head_of [] = err tt
head_of (n ∷ ns) = ok n

abbrev numbers : Codec ℕ
numbers = record {
  EncodeError = Unit;
  DecodeError = Unit;
  encode = λ n. ok (n ∷ []);
  decode = λ env. head_of (payload_value env).bytes;
  label = λ id. 67 ∷ [];
}

reads_back :
    (n : ℕ) (Error : Type 0) (id : List ℕ) → decoded any_utf8 numbers Error id (n ∷ []) ≡ ok n
unfolding decoded for_decode event_type_from_bytes payload_from_bytes encode_frame plan compute
    align_padding metadata_range execute from_validated_lengths write_into to_le_bytes try_new
    check_range check_metadata_range check_event_type_len check_metadata_len
reads_back n Error id = refl

abbrev encoded : ℕ → Result (Unit {0}) (List ℕ)
encoded n = ok (n ∷ [])

encoded_inj : (n : ℕ) (payload : List ℕ) → encoded n ≡ ok payload → n ∷ [] ≡ payload
encoded_inj n payload h = ground (arith, h)

numbers-IsCodec : (Error : Type 0) → IsCodec any_utf8 numbers Error
numbers-IsCodec Error = record {
  restores = λ id n payload h.
      subst (λ l. decoded any_utf8 numbers Error id l ≡ ok n) (encoded_inj n payload h)
        (reads_back n Error id);
}

codec_store-IsLawful_example :
    IsLawful sequence ℕ
      (codec_store any_utf8 numbers (in_memory sequence (List ℕ)))
      (kept_state any_utf8 numbers (in_memory sequence (List ℕ)) (kept_in sequence (List ℕ)) 0)
codec_store-IsLawful_example =
    codec_store-IsLawful any_utf8 numbers (in_memory sequence (List ℕ)) (kept_in sequence (List ℕ))
      0 (numbers-IsCodec (in_memory sequence (List ℕ)).Error) (in_memory-IsLawful sequence (List ℕ))

number_snapshots-IsSlotStore :
    IsSlotStore (codec_snapshots any_utf8 numbers (in_memory_snapshots (List ℕ)))
number_snapshots-IsSlotStore =
    codec_snapshots-IsSlotStore any_utf8 numbers (in_memory_snapshots (List ℕ))
      (numbers-IsCodec (in_memory_snapshots (List ℕ)).Error)
      (in_memory_snapshots-IsSlotStore (List ℕ))
