-- ===== src/Auth.antt =====
-- The signed-in account: frontend/src/hooks/useAuth.ts, with the event of a 401 of
-- frontend/src/api/client.ts. The record holds the state of the hook, whether the probe of the start
-- is out and may still set the state, the query cache, and the job results with what is needed to
-- reset them (frontend/src/ui/toast.tsx). Of data and results only matters to which account they
-- belong.
pub mod Private
pub mod Steps
mod Tests
use rmm_rxf_sys_de.Base.{
  ℕ, ◌+◌, ◌==◌, ◌++◌, map, if◌then◌else◌, Bool, true, false, Option, none, some, List, [], ◌∷◌,
}
use rmm_rxf_sys_de.Fleet.People.{Account}

pub data AuthStatus : Type 0 where
  loading authed anon : AuthStatus

-- An entry of the query cache, which is created for a request and filled by its answer. The serial
-- number is its identity: an entry that was cleared is not found again under the same key.
pub record Query : Type 0 where
  pub serial : ℕ
  -- Whose data it holds, once it has any.
  pub owner : Option Account

-- A request that is out, with the account whose cookie it carries.
pub record Request : Type 0 where
  pub serial : ℕ
  pub owner : Account

-- A job that is followed, with the account that started it and the generation of that moment.
pub record Follower : Type 0 where
  pub gen : ℕ
  pub owner : Account

pub record Session : Type 0 where
  pub user : Option Account
  pub status : AuthStatus
  pub probing : Bool
  pub cancelled : Bool
  pub cache : List Query
  pub serials : ℕ
  pub requests : List Request
  -- `results` and `generation` of the job results
  pub results : List Account
  pub generation : ℕ
  pub followers : List Follower

-- The hook as it mounts: the probe goes out.
abbrev pub mounted : Session
mounted = record {
  user = none;
  status = loading;
  probing = true;
  cancelled = false;
  cache = [];
  serials = 0;
  requests = [];
  results = [];
  generation = 0;
  followers = [];
}

-- `qc.clear()`: the requests stay out.
unfoldable pub clear : Session → Session
clear s = record s { cache = [] }

unfoldable pub reset_job_results : Session → Session
reset_job_results s = record s { results = []; generation = s.generation + 1 }

unfoldable pub signed_out : Session → Session
unfolding clear reset_job_results
signed_out s = record (reset_job_results (clear s)) { user = none; status = anon }

-- How the probe ends.
pub data Answer : Type 0 where
  found : Account → Answer
  refused : Answer
  broken : Answer

abbrev pub settled : Answer → Session → Session
settled (found u) s = record s { user = some u; status = authed }
settled refused s = record s { user = none; status = anon }
settled broken s = record s { user = none; status = anon }

abbrev pub unless : Bool → Session → Session → Session
unless true s t = s
unless false s t = t

-- The handlers of the probe. A 401 tells the window first, and then its own handler; a hook that
-- has left the page hears neither.
abbrev pub heard : Answer → Session → Session
heard (found u) s = settled (found u) s
heard refused s = settled refused (signed_out s)
heard broken s = settled broken s

unfoldable pub on_probe : Answer → Session → Session
unfolding signed_out
on_probe answer s = let t = record s { probing = false } in unless s.cancelled t (heard answer t)

unfoldable pub unmount : Session → Session
unmount s = record s { cancelled = true }

-- `login` after the server has accepted.
unfoldable pub on_login : Account → Session → Session
on_login u s = record s { user = some u; status = authed }

-- `logout`, whether the server answered or not.
unfoldable pub on_logout : Session → Session
unfolding signed_out
on_logout s = signed_out s

-- A request comes back with a 401, which a hook that has left the page does not hear.
unfoldable pub on_unauthorized : Session → Session
unfolding signed_out
on_unauthorized s = unless s.cancelled s (signed_out s)

-- A page asks for data: a new entry, and a request for it.
unfoldable pub on_ask : Account → Session → Session
on_ask u s = record s {
  cache = record { serial = s.serials; owner = none } ∷ s.cache;
  requests = record { serial = s.serials; owner = u } ∷ s.requests;
  serials = s.serials + 1;
}

-- An entry that is there is asked for again.
unfoldable pub on_ask_again : Account → ℕ → Session → Session
on_ask_again u serial s = record s { requests = record { serial = serial; owner = u } ∷ s.requests }

abbrev pub filled : Request → Query → Query
filled r q = record q { owner = if q.serial == r.serial then some r.owner else q.owner }

-- The answer to a request comes, however late: it fills the entry that it was made for, if that is
-- still in the cache.
unfoldable pub on_data : List Request → Request → List Request → Session → Session
on_data xs r ys s = record s { cache = map (filled r) s.cache; requests = xs ++ ys }

-- A job is started, and followed.
unfoldable pub on_follow : Account → Session → Session
on_follow u s = record s { followers = record { gen = s.generation; owner = u } ∷ s.followers }

-- Its result comes, however late: `pushResult` drops it if the generation is another one.
unfoldable pub on_result : Follower → Session → Session
on_result f s = record s {
  results = if f.gen == s.generation then f.owner ∷ s.results else s.results;
}
