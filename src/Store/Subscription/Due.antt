-- ===== src/Store/Subscription/Due.antt =====
-- The first item that a subscription yields within some steps.
use mnesis.Base.{ℕ, suc, ◌≡◌, refl, sym, ap, Option, none, some, List, [], ◌∷◌, arith, drop}
use mathlib.Core.Path.{subst}
use mnesis.Base.Result.{ok, err}
use mnesis.Store.Subscription.{Catchup, event, caught_up, LiveState, Output, step, events, outputs}
use mnesis.Store.Subscription.Log.{IsLog}
use mnesis.Store.Subscription.Trace.{emitted}

module _ (C : Catchup) (L : IsLog C) (w : C.World) (n : ℕ) where
  open C use {Item, Scan, Wait}

  -- Within `fuel` steps the item behind the first `n` is the first that is yielded.
  pub record IsDue (fuel : ℕ) (s : LiveState C) : Type 0 where
    pub item : Item
    pub rest : List Item
    pub more : List Item
    pub is_next : drop n (L.log w) ≡ item ∷ rest
    pub is_first : events C (outputs C fuel s w) ≡ item ∷ more

  pub now-IsDue :
      (fuel : ℕ) (s : LiveState C) (item : Item) (rest : List Item)
      → (step C s w).1 ≡ some (ok (event item))
      → drop n (L.log w) ≡ item ∷ rest
      → IsDue (suc fuel) s
  unfolding outputs
  now-IsDue fuel s item rest h e = record {
    item = item;
    rest = rest;
    more = events C (outputs C fuel (step C s w).0 w);
    is_next = e;
    is_first = rw (h, outputs) refl;
  }

  pub behind-IsDue :
      (fuel : ℕ) (s : LiveState C) (out : Option (Output C))
      → (step C s w).1 ≡ out
      → events C (emitted C out) ≡ []
      → IsDue fuel (step C s w).0
      → IsDue (suc fuel) s
  unfolding outputs
  behind-IsDue fuel s none h e d = record {
    item = d.item;
    rest = d.rest;
    more = d.more;
    is_next = d.is_next;
    is_first = rw (h, outputs) d.is_first;
  }
  behind-IsDue fuel s (some (ok (event i))) h e d = absurd (ground arith)
  behind-IsDue fuel s (some (ok caught_up)) h e d = record {
    item = d.item;
    rest = d.rest;
    more = d.more;
    is_next = d.is_next;
    is_first = rw (h, outputs) d.is_first;
  }
  behind-IsDue fuel s (some (err x)) h e d = record {
    item = d.item;
    rest = d.rest;
    more = d.more;
    is_next = d.is_next;
    is_first = rw (h, outputs) d.is_first;
  }

  pub later-IsDue :
      (fuel : ℕ) (s s' : LiveState C) (out : Option (Output C))
      → step C s w ≡ (s', out)
      → events C (emitted C out) ≡ []
      → IsDue fuel s'
      → IsDue (suc fuel) s
  later-IsDue fuel s s' out h e d =
      behind-IsDue fuel s out (ap (λ x. x.1) h) e (subst (IsDue fuel) (sym (ap (λ x. x.0) h)) d)
