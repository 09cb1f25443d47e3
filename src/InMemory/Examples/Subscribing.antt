-- ===== src/InMemory/Examples/Subscribing.antt =====
-- A subscription that parks on an empty stream, and an append behind it.
use mnesis.Base.{
  ℕ, zero, suc, ◌+◌, ◌≤◌, ◌<◌, ◌≡◌, refl, sym, true, none, some, List, [], ◌++◌, arith, length,
}
use mathlib.Core.Path.{subst}
use mnesis.Base.Bytes.{bytes_eq}
use mnesis.Base.Words.{u64_max}
use mnesis.Store.Subscription.{
  Catchup, LiveState, Output, parked, live_stepped, open_scan, drain_one, open_probe, probe_one,
  step, events,
}
use mnesis.Store.Subscription.Log.{IsLog}
use mnesis.Store.Subscription.Trace.{Trace, begin, steps, grows, emitted, marks}
use mnesis.Store.Subscription.Segment.{IsSegment}
use mnesis.Store.Subscription.Delivered.{IsOpened, Trace-delivered, Trace-parked}
use mnesis.Store.Subscription.Due.{IsDue}
use mnesis.Store.Subscription.Progress.{Trace-delivers}
use mnesis.Store.Envelope.Persisted.{try_new}
use mnesis.InMemory.Streams.{rows_of}
use mnesis.InMemory.Frame.{frame_to_envelope}
use mnesis.InMemory.Store.{default, append}
use mnesis.InMemory.Append.{default-IsConsistent}
use mnesis.InMemory.Read.{
  BatchSize, batch_size_new, partition_point, scan_batch, after_refill, next_page, poll_next,
}
use mnesis.InMemory.Subscription.{wakes_of, stream_catchup}
use mnesis.InMemory.Subscription.Growth.{IsSound, IsGrown, log_of}
use mnesis.InMemory.Subscription.Log.{stream_IsLog}
use mnesis.InMemory.Subscription.Appends.{append-IsGrown, stream-IsWorking}
use mnesis.InMemory.Examples.{any_utf8, envelope-IsPending, id, batch, after, append_runs}

abbrev page : BatchSize
page = record { get = 2 }

sized : batch_size_new 2 ≡ some page
unfolding batch_size_new
sized = refl

abbrev target : Catchup
target = stream_catchup any_utf8 page id

abbrev stream : IsLog target
stream = stream_IsLog any_utf8 id 2 page sized

-- The subscription after some steps on the empty store, and what it has yielded.
abbrev idle : ℕ → LiveState target
idle zero = live_stepped target none
idle (suc k) = (step target (idle k) default).0

abbrev said : ℕ → List (Output target)
said zero = []
said (suc k) = said k ++ emitted target (step target (idle k) default).1

idles : (k : ℕ) → Trace target stream none default (idle k) default (said k)
idles zero = begin
idles (suc k) = steps (idles k)

default-IsSound : IsSound any_utf8 id default
default-IsSound = record {
  consistent = default-IsConsistent any_utf8;
  few = unfold rows_of in omega arith;
}

opens : IsOpened target stream none default 0
opens = record { valid = default-IsSound; at = refl; inside = omega arith }

append-few : length (rows_of id (append id none batch default).0.streams) < u64_max
append-few =
    subst (λ x. length (rows_of id x.0.streams) < u64_max) (sym append_runs)
      (unfold rows_of bytes_eq in omega arith)

append-IsGrown_example : IsGrown any_utf8 id default (append id none batch default).0
append-IsGrown_example =
    append-IsGrown any_utf8 id id none batch default (envelope-IsPending, tt)
      (default-IsConsistent any_utf8) append-few

after-IsGrown : IsGrown any_utf8 id default after
after-IsGrown =
    subst (λ x. IsGrown any_utf8 id default x.0) append_runs
      (append-IsGrown any_utf8 id id none batch default (envelope-IsPending, tt)
        (default-IsConsistent any_utf8) append-few)

grown : Trace target stream none default (idle 11) after (said 11)
grown = grows (idles 11) after-IsGrown

-- It is parked since before the append, with nothing yielded but the mark.
is_parked : (idle 11).phase ≡ parked 0
unfolding step open_scan drain_one open_probe probe_one poll_next next_page after_refill scan_batch
    partition_point rows_of wakes_of
is_parked = refl

silent : 0 + length (events target (said 11)) ≡ 0
unfolding step open_scan drain_one open_probe probe_one poll_next next_page after_refill scan_batch
    partition_point rows_of wakes_of
silent = refl

one_entry : length (stream.log after) ≡ 1
unfolding log_of rows_of bytes_eq frame_to_envelope try_new
one_entry = refl

unseen : 0 + length (events target (said 11)) < length (stream.log after)
unseen = omega (arith, silent, one_entry)

Trace-delivered_example : IsSegment target stream 0 after (said 11) × (marks target (said 11) ≤ 1)
Trace-delivered_example = Trace-delivered target stream 0 opens grown

Trace-parked_example : target.is_woken 0 after ≡ true
Trace-parked_example = Trace-parked target stream 0 0 opens grown is_parked unseen

Trace-delivers_example :
    IsDue target stream after (0 + length (events target (said 11))) 4 (idle 11)
Trace-delivers_example =
    Trace-delivers target stream 0 opens grown
      (stream-IsWorking any_utf8 id 2 page sized after (0 + length (events target (said 11)))
        (after-IsGrown.sound default-IsSound))
      unseen
