-- ===== src/Bulk/Run.antt =====
-- `runBulk`: frontend/src/pages/devices/bulk.ts, lines 16 to 39. Between two settling calls the
-- workers do nothing, so the state is the items not taken yet, those whose call is running (one per
-- worker), and the outcome so far.
pub mod Complete
use rmm_rxf_sys_de.Base.{ℕ, zero, suc, ◌+◌, ◌≡◌, min, List, [], ◌∷◌, ◌++◌, length, take, drop}

pub record Failure (A E : Type 0) : Type 0 where
  pub item : A
  pub error : E

pub record Bulk (A E : Type 0) : Type 0 where
  pub rest : List A
  pub running : List A
  pub ok : List A
  pub failed : List (Failure A E)

-- How the call for an item ends.
pub data Settled (E : Type 0) : Type 0 where
  resolved : Settled E
  rejected : E → Settled E

module _ {A : Type 0} where
  -- The worker whose item is `a` takes the next item, if there is one.
  abbrev taken : List A → List A → List A → List A
  taken xs [] ys = xs ++ ys
  taken xs (b ∷ rest) ys = xs ++ b ∷ ys

  abbrev left : List A → List A
  left [] = []
  left (b ∷ rest) = rest

module _ {A E : Type 0} where
  -- `Math.min(concurrency, items.length)` workers, each with its first item.
  unfoldable pub start : ℕ → List A → Bulk A E
  start concurrency items =
      let workers = min concurrency (length items) in
      record { rest = drop workers items; running = take workers items; ok = []; failed = [] }

  unfoldable pub settle : List A → A → List A → Settled E → Bulk A E → Bulk A E
  settle xs a ys resolved s = record {
    rest = left s.rest;
    running = taken xs s.rest ys;
    ok = s.ok ++ a ∷ [];
    failed = s.failed;
  }
  settle xs a ys (rejected e) s = record {
    rest = left s.rest;
    running = taken xs s.rest ys;
    ok = s.ok;
    failed = s.failed ++ record { item = a; error = e } ∷ [];
  }

  -- One of the running calls settles; which one, and how, is up to the network.
  pub data Step : Bulk A E → Bulk A E → Type 0 where
    settles :
        (s : Bulk A E) (xs ys : List A) (a : A) (r : Settled E)
        → s.running ≡ xs ++ a ∷ ys
        → Step s (settle xs a ys r s)

  -- After `n` settled calls.
  pub data Steps (s : Bulk A E) : ℕ → Bulk A E → Type 0 where
    here : Steps s zero s
    next : {n : ℕ} {t u : Bulk A E} → Steps s n t → Step t u → Steps s (suc n) u
