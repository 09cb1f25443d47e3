-- ===== src/Store/Subscription/Log.antt =====
-- What the loop relies on from its adapter: an append-only log, scans of it, and wakes.
use mnesis.Base.{ℕ, suc, ◌≤◌, ◌<◌, ◌≡◌, true, Option, none, some, List, ◌∷◌, ◌++◌, length, drop}
use mnesis.Base.Result.{ok}
use mnesis.Store.Subscription.{Catchup}

-- `IsAt w p n`: the position `p` stands behind the first `n` items. `IsScan w b n s`: the scan `s`
-- was opened over `b` items, and is to yield the item behind the first `n`.
pub record IsLog (C : Catchup) : Type 1 where
  pub log : C.World → List C.Item
  pub IsValid : C.World → Type 0
  pub Grows : C.World → C.World → Type 0
  pub IsAt : C.World → Option C.Position → ℕ → Type 0
  pub IsScan : C.World → ℕ → ℕ → C.Scan → Type 0
  pub grows_refl : (w : C.World) → Grows w w
  pub grows_trans : {w w' w'' : C.World} → Grows w w' → Grows w' w'' → Grows w w''
  pub grows_valid : {w w' : C.World} → Grows w w' → IsValid w → IsValid w'
  pub grows_log : {w w' : C.World} → Grows w w' → (new : List C.Item) × (log w' ≡ log w ++ new)
  pub grows_at :
      {w w' : C.World} {p : Option C.Position} {n : ℕ} → Grows w w' → IsAt w p n → IsAt w' p n
  pub grows_scan :
      {w w' : C.World} {b n : ℕ} {s : C.Scan} → Grows w w' → IsScan w b n s → IsScan w' b n s
  pub opens :
      (w : C.World) (p : Option C.Position) (n : ℕ) (s : C.Scan)
      → IsValid w
      → IsAt w p n
      → C.read_after p w ≡ ok s
      → IsScan w (length (log w)) n s
  pub yields :
      (w : C.World) (b n : ℕ) (s s' : C.Scan) (item : C.Item)
      → IsValid w
      → IsScan w b n s
      → C.next s w ≡ (some (ok item), s')
      → ((rest : List C.Item) × (drop n (log w) ≡ item ∷ rest))
        × IsScan w b (suc n) s'
        × IsAt w (some (C.position_of item)) (suc n)
  pub ends :
      (w : C.World) (b n : ℕ) (s s' : C.Scan)
      → IsValid w
      → IsScan w b n s
      → C.next s w ≡ (none, s')
      → b ≤ n
  pub wakes :
      {w w' : C.World}
      → IsValid w
      → Grows w w'
      → length (log w) < length (log w')
      → C.is_woken (C.arm w) w' ≡ true
