-- ===== src/InMemory/Subscription/Growth.antt =====
-- One stream of the in-memory store as a log, and what it is for that log to grow.
use mnesis.Base.{
  ℕ, zero, suc, ◌+◌, ◌≤◌, ◌<◌, ◌≡◌, ◌∙◌, refl, sym, ap, inl, inr, true, Option, none, some, List,
  [], ◌∷◌, ◌++◌, arith, length, drop, length-append, ltb, lt→ltb, List-cases,
}
use mathlib.Core.List.{append-nil, append_assoc}
use mnesis.Base.Words.{u64_max}
use mnesis.Base.Result.{ok, err, Result-cases}
use mnesis.Kernel.Version.{Version}
use mnesis.Store.Value.{FromUtf8}
use mnesis.Store.Append.{StreamKey}
use mnesis.Store.Envelope.Persisted.{PersistedEnvelope}
use mnesis.InMemory.Streams.{rows_of}
use mnesis.InMemory.Frame.{StoredFrame, frame_to_envelope}
use mnesis.InMemory.Store.{Inner}
use mnesis.InMemory.Consistent.{AllReadable, IsConsistent}
use mnesis.InMemory.Read.{ReadState}
use mnesis.InMemory.Read.Scan.{at_least}
use mnesis.InMemory.Subscription.{wakes_of}
use mnesis.InMemory.Subscription.Scan.{IsPaging}

abbrev pub Entry : Type 0
Entry = Version × PersistedEnvelope

-- The rows as the read path opens them.
unfoldable pub log_of : FromUtf8 → List StoredFrame → List Entry
log_of u [] = []
log_of u (row ∷ rows) =
    let rest = log_of u rows in
    elim (frame_to_envelope u row) [ ok p ↦ (p.version, p) ∷ rest | err e ↦ rest ]

pub log_of-append :
    (u : FromUtf8) (xs ys : List StoredFrame) → log_of u (xs ++ ys) ≡ log_of u xs ++ log_of u ys
unfolding log_of
log_of-append u [] ys = refl
log_of-append u (x ∷ xs) ys = elim (Result-cases (frame_to_envelope u x)) [
  | inl (p, e) ↦ rw (e, log_of) (ap (λ l. (p.version, p) ∷ l) (log_of-append u xs ys))
  | inr (x', e) ↦ rw (e, log_of) (log_of-append u xs ys)
]

pub length-log_of_le :
    (u : FromUtf8) (rows : List StoredFrame) → length (log_of u rows) ≤ length rows
unfolding log_of
length-log_of_le u [] = omega arith
length-log_of_le u (x ∷ xs) = ground (arith, length-log_of_le u xs)

pub log_of-cons :
    (u : FromUtf8) (row : StoredFrame) (rows : List StoredFrame) (p : PersistedEnvelope)
    → frame_to_envelope u row ≡ ok p
    → log_of u (row ∷ rows) ≡ (p.version, p) ∷ log_of u rows
unfolding log_of
log_of-cons u row rows p e = rw (e, log_of) refl

pub drop-log_of :
    (u : FromUtf8) (n : ℕ) (rows : List StoredFrame)
    → AllReadable u rows
    → drop n (log_of u rows) ≡ log_of u (drop n rows)
drop-log_of u zero rows h = refl
drop-log_of u (suc n) [] h = unfold log_of in refl
drop-log_of u (suc n) (x ∷ xs) h =
    ap (drop (suc n)) (log_of-cons u x xs h.0.1.persisted h.0.1.readable) ∙ drop-log_of u n xs h.1

at_least-append :
    (from : ℕ) (xs ys : List StoredFrame)
    → at_least from (xs ++ ys) ≡ at_least from xs ++ at_least from ys
unfolding at_least
at_least-append from [] ys = refl
at_least-append from (x ∷ xs) ys = ground (arith, at_least-append from xs ys)

pub wakes_of-append :
    (id : StreamKey) (xs ys : List StreamKey)
    → wakes_of id (xs ++ ys) ≡ wakes_of id xs + wakes_of id ys
unfolding wakes_of
wakes_of-append id [] ys = omega arith
wakes_of-append id (x ∷ xs) ys = ground (arith, wakes_of-append id xs ys)

module _ (u : FromUtf8) (id : StreamKey) where
  -- The store is consistent, and the stream is not full.
  pub record IsSound (inner : Inner) : Type 0 where
    pub consistent : IsConsistent u inner
    pub few : length (rows_of id inner.streams) < u64_max

  -- The stream has grown, by nothing or with a wake.
  pub record IsGrown (before after : Inner) : Type 0 where
    pub new : List StoredFrame
    pub rows : rows_of id after.streams ≡ rows_of id before.streams ++ new
    pub heard : wakes_of id before.woken ≤ wakes_of id after.woken
    pub woke : 0 < length new → wakes_of id before.woken < wakes_of id after.woken
    pub sound : IsSound before → IsSound after

  pub refl-IsGrown : (inner : Inner) → IsGrown inner inner
  refl-IsGrown inner = record {
    new = [];
    rows = sym (append-nil (rows_of id inner.streams));
    heard = omega arith;
    woke = λ h. absurd (omega arith);
    sound = λ h. h;
  }

  pub trans-IsGrown : {x y z : Inner} → IsGrown x y → IsGrown y z → IsGrown x z
  trans-IsGrown {x} {y} {z} f g = record {
    new = f.new ++ g.new;
    rows = g.rows ∙ ap (λ l. l ++ g.new) f.rows ∙ append_assoc (rows_of id x.streams) f.new g.new;
    heard = omega (arith, f.heard, g.heard);
    woke = λ h. elim (List-cases f.new) [
      | inl e ↦
          omega (arith, f.heard, g.woke (omega (arith, h, length-append f.new g.new, ap length e)))
      | inr (a, b, e) ↦ omega (arith, g.heard, f.woke (omega (arith, ap length e)))
    ];
    sound = λ h. g.sound (f.sound h);
  }

  abbrev pub IsScan : Inner → ℕ → ℕ → Option ReadState → Type 0
  IsScan inner b n none = b ≤ n
  IsScan inner b n (some s) = IsPaging id (rows_of id inner.streams) b n s

  abbrev pub IsAt : Option Version → ℕ → Type 0
  IsAt none n = n ≡ 0
  IsAt (some v) n = v.as_u64 ≡ n

  pub grown_log :
      {x y : Inner}
      → IsGrown x y
      → (new : List Entry) × (log_of u (rows_of id y.streams)
          ≡ log_of u (rows_of id x.streams) ++ new)
  grown_log {x} g =
      (log_of u g.new, ap (log_of u) g.rows ∙ log_of-append u (rows_of id x.streams) g.new)

  pub grown-IsScan :
      {x y : Inner} (b n : ℕ) (s : Option ReadState) → IsGrown x y → IsScan x b n s → IsScan y b n s
  grown-IsScan b n none g h = h
  grown-IsScan {x} {y} b n (some s) g h = record {
    stream = h.stream;
    page = h.page;
    tail = h.tail ++ at_least (suc n) g.new;
    split =
        ap (at_least (suc n)) g.rows
        ∙ at_least-append (suc n) (rows_of id x.streams) g.new
        ∙ ap (λ l. l ++ at_least (suc n) g.new) h.split
        ∙ append_assoc s.buffer h.tail (at_least (suc n) g.new);
    ended = h.ended;
    next = h.next;
    opened = omega (arith, h.opened, ap length g.rows, length-append (rows_of id x.streams) g.new);
  }

  pub grown_wakes :
      {x y : Inner}
      → IsGrown x y
      → length (log_of u (rows_of id x.streams)) < length (log_of u (rows_of id y.streams))
      → ltb (wakes_of id x.woken) (wakes_of id y.woken) ≡ true
  grown_wakes {x} {y} g more =
      let e = ap (log_of u) g.rows ∙ log_of-append u (rows_of id x.streams) g.new in
      lt→ltb (wakes_of id x.woken) (wakes_of id y.woken) (
        g.woke (
          omega (
            arith,
            more,
            ap length e,
            length-append (log_of u (rows_of id x.streams)) (log_of u g.new),
            length-log_of_le u g.new,
          )))
