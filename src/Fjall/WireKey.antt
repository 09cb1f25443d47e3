-- ===== src/Fjall/WireKey.antt =====
-- adapters/fjall/src/wire_key.rs: the keys of the event partitions and the value of a stream's
-- version.
mod RoundTrip
use mnesis.Base.{
  ℕ, zero, suc, ◌+◌, ◌-◌, ◌*◌, ◌/◌, ◌%◌, Option, none, some, List, [], ◌∷◌, ◌++◌, ltb, leb, ◌==◌,
  if◌then◌else◌, length, take, drop,
}
use mnesis.Base.Words.{u16_max, usize_max, try_from, checked_add, to_le_bytes, from_le_bytes}
use mnesis.Base.Chain.{◌>>=◌ as and_then}
use mnesis.Base.Result.{Result, ok, err, ◌>>=◌, ok_or}

pub data DecodeError : Type 0 where
  invalid_size value_too_short : ℕ → ℕ → DecodeError

pub data EncodeError : Type 0 where
  id_too_long : ℕ → ℕ → EncodeError

abbrev pub max_key_len : ℕ
max_key_len = 65535

abbrev pub max_stream_id_len : ℕ
max_stream_id_len = 65517

-- `n.to_be_bytes()` at a width of `k` bytes.
unfoldable pub to_be_bytes : ℕ → ℕ → List ℕ
to_be_bytes zero n = []
to_be_bytes (suc k) n = to_be_bytes k (n / 256) ++ ((n % 256) ∷ [])

unfoldable pub be_bytes_onto : ℕ → List ℕ → ℕ
be_bytes_onto acc [] = acc
be_bytes_onto acc (b ∷ bs) = be_bytes_onto (256 * acc + b) bs

abbrev pub from_be_bytes : List ℕ → ℕ
from_be_bytes = be_bytes_onto 0

abbrev pub event_key_size : ℕ → ℕ
event_key_size id_len = 2 + id_len + 8

unfoldable pub checked_id_len : ℕ → ℕ → Result EncodeError ℕ
checked_id_len len max =
    if ltb max len
    then err (id_too_long len max)
    else ok_or (try_from u16_max len) (id_too_long len max)

unfoldable pub encode_event_key : List ℕ → ℕ → Result EncodeError (List ℕ)
encode_event_key id version = do
  id_len ← checked_id_len (length id) (max_key_len - 2 - 8)
  ok (to_be_bytes 2 id_len ++ (id ++ to_be_bytes 8 version))

unfoldable pub decode_event_key : List ℕ → Result DecodeError (List ℕ × ℕ)
decode_event_key key =
    if ltb (length key) 2
    then err (value_too_short 2 (length key))
    else let id_len = from_be_bytes (take 2 key) in
      if length key == event_key_size id_len
      then ok (take id_len (drop 2 key), from_be_bytes (take 8 (drop (2 + id_len) key)))
      else err (invalid_size (event_key_size id_len) (length key))

abbrev pub global_key_prefix_size : ℕ
global_key_prefix_size = 8 + 2

unfoldable pub encode_global_key : ℕ → List ℕ → ℕ → Result EncodeError (List ℕ)
encode_global_key global_seq id version = do
  id_len ← checked_id_len (length id) max_stream_id_len
  ok (to_be_bytes 8 global_seq ++ (to_be_bytes 2 id_len ++ (id ++ to_be_bytes 8 version)))

-- The checked sums of `decode_global_key`.
abbrev pub global_key_size : ℕ → Option ℕ
global_key_size id_len =
    and_then (checked_add usize_max global_key_prefix_size id_len) (λ n. checked_add usize_max n 8)

unfoldable pub decode_global_key : List ℕ → Result DecodeError (ℕ × (List ℕ × ℕ))
decode_global_key key =
    if ltb (length key) (global_key_prefix_size + 8)
    then err (value_too_short (global_key_prefix_size + 8) (length key))
    else let id_len = from_be_bytes (take 2 (drop 8 key)) in
      (do
        expected_total ← ok_or (global_key_size id_len) (invalid_size usize_max (length key))
        if length key == expected_total
            then ok (
              from_be_bytes (take 8 key),
              (take id_len (drop 10 key), from_be_bytes (take 8 (drop (10 + id_len) key))),
            )
            else err (invalid_size expected_total (length key)))

abbrev pub encode_stream_version : ℕ → List ℕ
encode_stream_version version = to_le_bytes 8 version

unfoldable pub decode_stream_version : List ℕ → Result DecodeError ℕ
decode_stream_version value =
    if length value == 8 then ok (from_le_bytes value) else err (invalid_size 8 (length value))
