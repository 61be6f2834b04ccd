-- ===== src/Auth/Private.antt =====
-- What keeps the session of an account its own, and that each handler keeps it:
-- frontend/src/hooks/useAuth.ts.
use rmm_rxf_sys_de.Base.{
  ℕ, ◌<◌, ◌≤◌, ◌≡◌, refl, sym, ◌∙◌, Bool, true, false, ◌==◌, Option, none, some, is_some, List, [],
  ◌∷◌, ◌++◌, map, any, All, All-at, All-mono, All-without, Bool-cases, inl, inr, arith,
}
use rmm_rxf_sys_de.Fleet.People.{Account}
use rmm_rxf_sys_de.Auth.{
  Query, Request, Follower, Session, on_ask, on_ask_again, on_data, filled, on_follow, on_result,
  clear, reset_job_results, signed_out,
}

-- The entry is in the cache.
abbrev pub is_kept : ℕ → List Query → Bool
is_kept serial cache = any (λ (q : Query). q.serial == serial) cache

abbrev IsOf : Account → Option Account → Type 0
IsOf u none = Unit
IsOf u (some v) = v ≡ u

-- Every entry of the cache belongs to the account that is signed in.
abbrev pub OwnCache : Option Account → List Query → Type 0
OwnCache none cache = cache ≡ []
OwnCache (some u) cache = All (λ (q : Query). IsOf u q.owner) cache

-- And so does every job result.
abbrev pub OwnResults : Option Account → List Account → Type 0
OwnResults none results = results ≡ []
OwnResults (some u) results = All (λ v. v ≡ u) results

pub record Private (user : Option Account) (cache : List Query) (serials : ℕ)
    (requests : List Request) (results : List Account) (generation : ℕ) (followers : List Follower)
    : Type 0 where
  pub own : OwnCache user cache
  pub results_own : OwnResults user results
  pub numbered : All (λ (q : Query). q.serial < serials) cache
  -- The entries that a request may fill are of the account that made it.
  pub asked :
      All
        (λ (r : Request).
          (r.serial < serials) × (is_kept r.serial cache ≡ true → user ≡ some r.owner))
        requests
  -- So are the results that a job may add.
  pub followed :
      All
        (λ (f : Follower). (f.gen ≤ generation) × (f.gen ≡ generation → user ≡ some f.owner))
        followers

abbrev pub IsPrivate : Session → Type 0
IsPrivate s = Private s.user s.cache s.serials s.requests s.results s.generation s.followers

pub signed_out-IsPrivate : (s : Session) → IsPrivate s → IsPrivate (signed_out s)
unfolding signed_out clear reset_job_results
signed_out-IsPrivate s p = record {
  own = refl;
  results_own = refl;
  numbered = tt;
  asked =
      All-mono (λ (r : Request) (h : _ × _). (h.0, λ k. absurd (ground arith))) s.requests p.asked;
  followed =
      All-mono
        (λ (f : Follower) (h : _ × _). (omega (arith, h.0), λ k. absurd (omega (arith, h.0))))
        s.followers p.followed;
}

none-some : (u : Account) → none ≡ some u → ⊥
none-some u h = ground arith

-- While nobody is signed in nothing is kept, so whoever signs in next finds nothing.
pub signed_in-Private :
    (u : Account) (user : Option Account) (cache : List Query) (serials : ℕ)
    (requests : List Request) (results : List Account) (generation : ℕ) (followers : List Follower)
    → is_some user ≡ false
    → Private user cache serials requests results generation followers
    → Private (some u) cache serials requests results generation followers
signed_in-Private u (some v) cache serials requests results generation followers e p =
    absurd (ground arith)
signed_in-Private u none cache serials requests results generation followers e p = record {
  own = rw (p.own) tt;
  results_own = rw (p.results_own) tt;
  numbered = p.numbered;
  asked =
      All-mono (λ (r : Request) (h : _ × _). (h.0, λ k. absurd (none-some _ (h.1 k)))) requests
        p.asked;
  followed =
      All-mono (λ (f : Follower) (h : _ × _). (h.0, λ k. absurd (none-some _ (h.1 k)))) followers
        p.followed;
}

-- An account that is signed out by a probe had nothing.
pub nobody-Private :
    (user : Option Account) (cache : List Query) (serials : ℕ) (requests : List Request)
    (results : List Account) (generation : ℕ) (followers : List Follower)
    → is_some user ≡ false
    → Private user cache serials requests results generation followers
    → Private none cache serials requests results generation followers
nobody-Private (some v) cache serials requests results generation followers e p =
    absurd (ground arith)
nobody-Private none cache serials requests results generation followers e p = p

pub on_ask-IsPrivate :
    (u : Account) (s : Session) → s.user ≡ some u → IsPrivate s → IsPrivate (on_ask u s)
unfolding on_ask
on_ask-IsPrivate u s e p = record {
  own = own s.user e p.own;
  results_own = p.results_own;
  numbered = (
    omega arith,
    All-mono (λ (q : Query) (h : q.serial < s.serials). omega (arith, h)) s.cache p.numbered,
  );
  asked = (
    (omega arith, λ k. e),
    All-mono (λ (r : Request) (h : _ × _). (omega (arith, h.0), λ k. h.1 (ground (arith, h.0, k))))
        s.requests p.asked,
  );
  followed = p.followed;
}
  where
    own :
        (user : Option Account)
        → user ≡ some u
        → OwnCache user s.cache
        → OwnCache user (record { serial = s.serials; owner = none } ∷ s.cache)
    own none h o = absurd (ground arith)
    own (some v) h o = (tt, o)

pub on_ask_again-IsPrivate :
    (u : Account) (serial : ℕ) (s : Session)
    → s.user ≡ some u
    → is_kept serial s.cache ≡ true
    → IsPrivate s
    → IsPrivate (on_ask_again u serial s)
unfolding on_ask_again
on_ask_again-IsPrivate u serial s e k p = record {
  own = p.own;
  results_own = p.results_own;
  numbered = p.numbered;
  asked = ((below s.cache p.numbered k, λ k. e), p.asked);
  followed = p.followed;
}
  where
    below :
        (cache : List Query)
        → All (λ (q : Query). q.serial < s.serials) cache
        → is_kept serial cache ≡ true
        → serial < s.serials
    below [] h k = absurd (ground arith)
    below (q ∷ cache) (l, h) k = ground (arith, below cache h)

module _ (r : Request) where
  is_kept-filled :
      (serial : ℕ) (cache : List Query)
      → is_kept serial (map (filled r) cache) ≡ is_kept serial cache
  is_kept-filled serial [] = refl
  is_kept-filled serial (q ∷ cache) = ground (arith, is_kept-filled serial cache)

  filled-numbered :
      (n : ℕ) (cache : List Query)
      → All (λ (q : Query). q.serial < n) cache
      → All (λ (q : Query). q.serial < n) (map (filled r) cache)
  filled-numbered n [] h = tt
  filled-numbered n (q ∷ cache) (l, h) = (l, filled-numbered n cache h)

  filled-OwnCache :
      (user : Option Account) (cache : List Query)
      → OwnCache user cache
      → (is_kept r.serial cache ≡ true → user ≡ some r.owner)
      → OwnCache user (map (filled r) cache)
  filled-OwnCache none cache h k = rw (h) refl
  filled-OwnCache (some u) [] h k = tt
  filled-OwnCache (some u) (q ∷ cache) (o, h) k = elim (Bool-cases (q.serial == r.serial)) [
    | inl same ↦
        let mine : some u ≡ some r.owner = k (ground (arith, same)) in
        let owner : r.owner ≡ u = cc (mine) in
        rw (same) (owner, filled-OwnCache (some u) cache h (λ j. mine))
    | inr other ↦ rw (other) (o, filled-OwnCache (some u) cache h (λ j. k (ground (arith, j))))
  ]

pub on_data-IsPrivate :
    (s : Session) (xs : List Request) (r : Request) (ys : List Request)
    → s.requests ≡ xs ++ r ∷ ys
    → IsPrivate s
    → IsPrivate (on_data xs r ys s)
unfolding on_data
on_data-IsPrivate s xs r ys e p =
    let Fits : Request → Type 0 = λ (r : Request).
      (r.serial < s.serials) × (is_kept r.serial s.cache ≡ true → s.user ≡ some r.owner) in
    let asked : All Fits (xs ++ r ∷ ys) = rw (e) at p.asked in
    record {
      own = filled-OwnCache r s.user s.cache p.own (All-at Fits xs r ys asked).1;
      results_own = p.results_own;
      numbered = filled-numbered r s.serials s.cache p.numbered;
      asked =
          All-mono
            (λ (x : Request) (h : Fits x).
              (h.0, λ k. h.1 (sym (is_kept-filled r x.serial s.cache) ∙ k)))
            (xs ++ ys) (All-without Fits xs r ys asked);
      followed = p.followed;
    }

pub on_follow-IsPrivate :
    (u : Account) (s : Session) → s.user ≡ some u → IsPrivate s → IsPrivate (on_follow u s)
unfolding on_follow
on_follow-IsPrivate u s e p = record {
  own = p.own;
  results_own = p.results_own;
  numbered = p.numbered;
  asked = p.asked;
  followed = ((omega arith, λ k. e), p.followed);
}

pub on_result-IsPrivate :
    (s : Session) (xs : List Follower) (f : Follower) (ys : List Follower)
    → s.followers ≡ xs ++ f ∷ ys
    → IsPrivate s
    → IsPrivate (on_result f s)
unfolding on_result
on_result-IsPrivate s xs f ys e p = elim (Bool-cases (f.gen == s.generation)) [
  | inr other ↦ rw (other) p
  | inl same ↦
      let Fits : Follower → Type 0 =
        λ (f : Follower). (f.gen ≤ s.generation) × (f.gen ≡ s.generation → s.user ≡ some f.owner) in
      let mine : s.user ≡ some f.owner =
        (All-at Fits xs f ys (rw (e) at p.followed)).1 (ground arith) in
      rw (same) (record {
        own = p.own;
        results_own = added s.user mine p.results_own;
        numbered = p.numbered;
        asked = p.asked;
        followed = p.followed;
      })
]
  where
    added :
        (user : Option Account)
        → user ≡ some f.owner
        → OwnResults user s.results
        → OwnResults user (f.owner ∷ s.results)
    added none h o = absurd (ground arith)
    added (some u) h o = (cc (h), o)
