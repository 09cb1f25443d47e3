-- ===== src/Fjall/WireKey/RoundTrip.antt =====
-- The keys read back what was written in them.
use mnesis.Base.{
  ℕ, zero, suc, ◌+◌, ◌*◌, ◌/◌, ◌%◌, ◌≤◌, ◌≡◌, ◌∙◌, refl, sym, ap, List, [], ◌∷◌, ◌++◌, arith,
  length, take, drop, length-append, take-append, drop-append, drop-drop, take-all, ◌-◌,
}
use mnesis.Base.Words.{u16_max, u64_max, to_le_bytes, from_le_bytes, length-to_le_bytes}
use mnesis.Base.Result.{ok}
use mnesis.Fjall.WireKey.{
  max_key_len, max_stream_id_len, to_be_bytes, from_be_bytes, be_bytes_onto, checked_id_len,
  encode_event_key, decode_event_key, encode_global_key, decode_global_key, encode_stream_version,
  decode_stream_version,
}

-- A number of `k` bytes.
abbrev Fits : ℕ → ℕ → Type 0
Fits zero n = n ≡ 0
Fits (suc k) n = Fits k (n / 256)

length-to_be_bytes : (k n : ℕ) → length (to_be_bytes k n) ≡ k
unfolding to_be_bytes
length-to_be_bytes zero n = refl
length-to_be_bytes (suc k) n = omega (
  arith,
  length-append (to_be_bytes k (n / 256)) ((n % 256) ∷ []),
  length-to_be_bytes k (n / 256),
)

be_bytes_onto-append :
    (acc b : ℕ) (xs : List ℕ) → be_bytes_onto acc (xs ++ (b ∷ [])) ≡ 256 * be_bytes_onto acc xs + b
unfolding be_bytes_onto
be_bytes_onto-append acc b [] = refl
be_bytes_onto-append acc b (x ∷ xs) = be_bytes_onto-append (256 * acc + x) b xs

from-to_be_bytes : (k n : ℕ) → Fits k n → from_be_bytes (to_be_bytes k n) ≡ n
unfolding to_be_bytes be_bytes_onto
from-to_be_bytes zero n h = omega (arith, h)
from-to_be_bytes (suc k) n h = omega (
  arith,
  be_bytes_onto-append 0 (n % 256) (to_be_bytes k (n / 256)),
  from-to_be_bytes k (n / 256) h,
)

two_bytes-Fits : (n : ℕ) → n ≤ u16_max → Fits 2 n
two_bytes-Fits n h = omega arith

eight_bytes-Fits : (n : ℕ) → n ≤ u64_max → Fits 8 n
eight_bytes-Fits n h = omega arith

decode_parts :
    (key : List ℕ) (id_len : ℕ)
    → from_be_bytes (take 2 key) ≡ id_len
    → length key ≡ 2 + id_len + 8
    → decode_event_key key
      ≡ ok (take id_len (drop 2 key), from_be_bytes (take 8 (drop (2 + id_len) key)))
unfolding decode_event_key
decode_parts key id_len e l = rw (e, decode_event_key) (ground (arith, l))

encode_parts :
    (id : List ℕ) (version : ℕ)
    → length id ≤ 65525
    → encode_event_key id version ≡ ok (to_be_bytes 2 (length id) ++ (id ++ to_be_bytes 8 version))
unfolding encode_event_key checked_id_len
encode_parts id version h = ground arith

-- Where a field ends that stands behind `n` bytes.
drop_past :
    (n m : ℕ) (xs ys zs : List ℕ)
    → length xs ≡ n
    → length ys ≡ m
    → drop (n + m) (xs ++ (ys ++ zs)) ≡ zs
drop_past n m xs ys zs a b =
    sym (drop-drop m n (n + m) (xs ++ (ys ++ zs)) refl)
    ∙ ap (drop m) (drop-append n xs (ys ++ zs) a)
    ∙ drop-append m ys zs b

-- Every id that fits an event key and every version are read back from it.
pub decode-encode_event_key :
    (id : List ℕ) (version : ℕ)
    → length id ≤ max_key_len - 2 - 8
    → version ≤ u64_max
    → (key : List ℕ) × (encode_event_key id version ≡ ok key)
      × (decode_event_key key ≡ ok (id, version))
decode-encode_event_key id version fits top =
    let n : ℕ = length id in
    let head : List ℕ = to_be_bytes 2 n in
    let tail : List ℕ = to_be_bytes 8 version in
    let key : List ℕ = head ++ (id ++ tail) in
    let len_head = length-to_be_bytes 2 n in
    let len_tail = length-to_be_bytes 8 version in
    let named : from_be_bytes (take 2 key) ≡ n =
      ap from_be_bytes (take-append 2 head (id ++ tail) len_head)
      ∙ from-to_be_bytes 2 n (two_bytes-Fits n (omega arith)) in
    let whole : length key ≡ 2 + n + 8 =
      omega (arith, length-append head (id ++ tail), length-append id tail, len_head, len_tail) in
    let the_id : take n (drop 2 key) ≡ id =
      ap (take n) (drop-append 2 head (id ++ tail) len_head) ∙ take-append n id tail refl in
    let the_version : from_be_bytes (take 8 (drop (2 + n) key)) ≡ version =
      ap (λ l. from_be_bytes (take 8 l)) (drop_past 2 n head id tail len_head refl)
      ∙ ap from_be_bytes (take-all 8 tail (omega (arith, len_tail)))
      ∙ from-to_be_bytes 8 version (eight_bytes-Fits version top) in
    (
      key,
      encode_parts id version (omega arith),
      decode_parts key n named whole ∙ (λ i. ok (the_id i, the_version i)),
    )

from-to_le_bytes_8 : (n : ℕ) → n ≤ u64_max → from_le_bytes (to_le_bytes 8 n) ≡ n
unfolding to_le_bytes from_le_bytes
from-to_le_bytes_8 n h = omega arith

-- Every version is read back from the value of its stream.
pub decode-encode_stream_version :
    (version : ℕ)
    → version ≤ u64_max
    → decode_stream_version (encode_stream_version version) ≡ ok version
unfolding decode_stream_version
decode-encode_stream_version version top =
    ground (arith, length-to_le_bytes 8 version, from-to_le_bytes_8 version top)

global_parts :
    (key : List ℕ) (id_len : ℕ)
    → from_be_bytes (take 2 (drop 8 key)) ≡ id_len
    → id_len ≤ max_stream_id_len
    → length key ≡ 18 + id_len
    → decode_global_key key
      ≡ ok (
        from_be_bytes (take 8 key),
        (take id_len (drop 10 key), from_be_bytes (take 8 (drop (10 + id_len) key))),
      )
unfolding decode_global_key
global_parts key id_len e small l = rw (e, decode_global_key) (ground (arith, l, small))

encode_global_parts :
    (seq : ℕ) (id : List ℕ) (version : ℕ)
    → length id ≤ max_stream_id_len
    → encode_global_key seq id version
      ≡ ok (to_be_bytes 8 seq ++ (to_be_bytes 2 (length id) ++ (id ++ to_be_bytes 8 version)))
unfolding encode_global_key checked_id_len
encode_global_parts seq id version h = ground arith

-- Every position, every id within the engine's limit and every version are read back from a `$all`
-- key.
pub decode-encode_global_key :
    (seq : ℕ) (id : List ℕ) (version : ℕ)
    → seq ≤ u64_max
    → length id ≤ max_stream_id_len
    → version ≤ u64_max
    → (key : List ℕ) × (encode_global_key seq id version ≡ ok key)
      × (decode_global_key key ≡ ok (seq, (id, version)))
decode-encode_global_key seq id version low fits top =
    let n : ℕ = length id in
    let front : List ℕ = to_be_bytes 8 seq in
    let head : List ℕ = to_be_bytes 2 n in
    let tail : List ℕ = to_be_bytes 8 version in
    let key : List ℕ = front ++ (head ++ (id ++ tail)) in
    let len_front = length-to_be_bytes 8 seq in
    let len_head = length-to_be_bytes 2 n in
    let len_tail = length-to_be_bytes 8 version in
    let at_head : drop 8 key ≡ head ++ (id ++ tail) =
      drop-append 8 front (head ++ (id ++ tail)) len_front in
    let at_id : drop 10 key ≡ id ++ tail =
      drop_past 8 2 front head (id ++ tail) len_front len_head in
    let named : from_be_bytes (take 2 (drop 8 key)) ≡ n =
      ap (λ l. from_be_bytes (take 2 l)) at_head
      ∙ ap from_be_bytes (take-append 2 head (id ++ tail) len_head)
      ∙ from-to_be_bytes 2 n (two_bytes-Fits n (omega arith)) in
    let whole : length key ≡ 18 + n = omega (
      arith,
      length-append front (head ++ (id ++ tail)),
      length-append head (id ++ tail),
      length-append id tail,
      len_front,
      len_head,
      len_tail,
    ) in
    let the_seq : from_be_bytes (take 8 key) ≡ seq =
      ap from_be_bytes (take-append 8 front (head ++ (id ++ tail)) len_front)
      ∙ from-to_be_bytes 8 seq (eight_bytes-Fits seq low) in
    let the_id : take n (drop 10 key) ≡ id = ap (take n) at_id ∙ take-append n id tail refl in
    let the_tail : drop (10 + n) key ≡ tail =
      sym (drop-drop n 10 (10 + n) key refl) ∙ ap (drop n) at_id ∙ drop-append n id tail refl in
    let the_version : from_be_bytes (take 8 (drop (10 + n) key)) ≡ version =
      ap (λ l. from_be_bytes (take 8 l)) the_tail
      ∙ ap from_be_bytes (take-all 8 tail (omega (arith, len_tail)))
      ∙ from-to_be_bytes 8 version (eight_bytes-Fits version top) in
    (
      key,
      encode_global_parts seq id version fits,
      global_parts key n named fits whole ∙ (λ i. ok (the_seq i, (the_id i, the_version i))),
    )
