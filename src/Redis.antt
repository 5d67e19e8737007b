-- ===== src/Redis.antt =====
-- The Redis server behind the shared queue, job store, nonce store and rate limiter. The server is
-- not part of the repository: it enters as this record, with the documented behaviour of the
-- commands that the code sends as its laws. Every command is atomic. `get` is the value of a key at
-- a moment, `lrange` a whole list, `counter` the number that INCR has left; a key is of one kind.
use app_generation_microserv.Base.{
  ℕ, ◌+◌, ◌*◌, ◌≤◌, String, ◌==◌, ◌≡◌, ◌≢◌, Bool, true, false, Option, none, some, List, [], ◌∷◌,
  ◌++◌, ltb, if◌then◌else◌, count, contains, second, arith, eq_iff,
}

-- LREM key 0 x, and LREM key 1 x
abbrev pub remove_all : String → List String → List String
remove_all x [] = []
remove_all x (y ∷ ys) = let rest = remove_all x ys in if y == x then rest else y ∷ rest

abbrev pub remove_first : String → List String → List String
remove_first x [] = []
remove_first x (y ∷ ys) = if y == x then ys else y ∷ remove_first x ys

-- A value that expires at a moment, seen at another.
abbrev pub until : {A : Type 0} → ℕ → ℕ → A → Option A
until end t v = if ltb t end then some v else none

pub record Redis : Type 1 where
  pub State : Type 0
  pub lrange : String → State → List String
  pub get : ℕ → String → State → Option String
  pub counter : ℕ → String → State → ℕ
  pub lpush : String → String → State → State
  -- LMOVE source destination RIGHT LEFT
  pub lmove : String → String → State → Option String × State
  pub lrem_all : String → String → State → ℕ × State
  pub lrem_first : String → String → State → ℕ × State
  -- SET key value EX seconds, and SET key value NX EX seconds
  pub set_ex : ℕ → String → String → ℕ → State → State
  pub set_nx_ex : ℕ → String → String → ℕ → State → Bool × State
  pub expire : ℕ → String → ℕ → State → Bool × State
  pub delete : String → State → State
  -- MULTI; INCR key; EXPIRE key seconds; EXEC
  pub incr_expire : ℕ → String → ℕ → State → ℕ × State
  pub lrange-lpush :
      (k x j : String) (s : State)
      → lrange j (lpush k x s) ≡ (if k == j then x ∷ lrange j s else lrange j s)
  pub get-lpush : (k x j : String) (t : ℕ) (s : State) → get t j (lpush k x s) ≡ get t j s
  pub lmove-empty : (a b : String) (s : State) → lrange a s ≡ [] → lmove a b s ≡ (none, s)
  pub lmove-last :
      (a b x : String) (xs : List String) (s : State)
      → lrange a s ≡ xs ++ x ∷ []
      → (lmove a b s).0 ≡ some x
  pub lrange-lmove :
      (a b x j : String) (xs : List String) (s : State)
      → a ≢ b
      → lrange a s ≡ xs ++ x ∷ []
      → lrange j (lmove a b s).1
        ≡ (if a == j then xs else if b == j then x ∷ lrange j s else lrange j s)
  pub get-lmove : (a b j : String) (t : ℕ) (s : State) → get t j (lmove a b s).1 ≡ get t j s
  pub lrange-lrem_all :
      (k x j : String) (s : State)
      → lrange j (lrem_all k x s).1 ≡ (if k == j then remove_all x (lrange j s) else lrange j s)
  pub get-lrem_all : (k x j : String) (t : ℕ) (s : State) → get t j (lrem_all k x s).1 ≡ get t j s
  pub lrem_first-count :
      (k x : String) (s : State) → (lrem_first k x s).0 ≡ (if contains x (lrange k s) then 1 else 0)
  pub lrange-lrem_first :
      (k x j : String) (s : State)
      → lrange j (lrem_first k x s).1 ≡ (if k == j then remove_first x (lrange j s) else lrange j s)
  pub get-lrem_first :
      (k x j : String) (t : ℕ) (s : State) → get t j (lrem_first k x s).1 ≡ get t j s
  pub get-set_ex :
      (now : ℕ) (k v : String) (ex t : ℕ) (j : String) (s : State)
      → now ≤ t
      → get t j (set_ex now k v ex s)
        ≡ (if k == j then until (now + ex * second) t v else get t j s)
  pub lrange-set_ex :
      (now : ℕ) (k v : String) (ex : ℕ) (j : String) (s : State)
      → lrange j (set_ex now k v ex s) ≡ lrange j s
  pub set_nx_ex-free :
      (now : ℕ) (k v : String) (ex : ℕ) (s : State)
      → get now k s ≡ none
      → set_nx_ex now k v ex s ≡ (true, set_ex now k v ex s)
  pub set_nx_ex-taken :
      (now : ℕ) (k v w : String) (ex : ℕ) (s : State)
      → get now k s ≡ some w
      → set_nx_ex now k v ex s ≡ (false, s)
  pub expire-gone :
      (now : ℕ) (k : String) (ex : ℕ) (s : State)
      → get now k s ≡ none
      → expire now k ex s ≡ (false, s)
  pub expire-live :
      (now : ℕ) (k v : String) (ex : ℕ) (s : State)
      → get now k s ≡ some v
      → expire now k ex s ≡ (true, set_ex now k v ex s)
  pub get-delete :
      (k j : String) (t : ℕ) (s : State)
      → get t j (delete k s) ≡ (if k == j then none else get t j s)
  pub lrange-delete : (k j : String) (s : State) → lrange j (delete k s) ≡ lrange j s
  pub incr_expire-count :
      (now : ℕ) (k : String) (ex : ℕ) (s : State) → (incr_expire now k ex s).0 ≡ counter now k s + 1
  pub counter-incr_expire :
      (now : ℕ) (k : String) (ex t : ℕ) (j : String) (s : State)
      → now ≤ t
      → counter t j (incr_expire now k ex s).1 ≡ (
          if k == j
          then (if ltb t (now + ex * second) then counter now k s + 1 else 0)
          else counter t j s)
  -- What has expired stays away until it is written again.
  pub get-later :
      (t t' : ℕ) (k : String) (s : State) → t ≤ t' → get t k s ≡ none → get t' k s ≡ none

pub count-remove_all :
    (x k : String) (ys : List String)
    → count k (remove_all x ys) ≡ (if x == k then 0 else count k ys)
count-remove_all x k [] = ground arith
count-remove_all x k (y ∷ ys) =
    ground (arith, eq_iff x k, eq_iff y x, eq_iff y k, count-remove_all x k ys)

pub count-remove_first :
    (x k : String) (ys : List String)
    → count k (remove_first x ys) + (if x == k then (if contains x ys then 1 else 0) else 0)
      ≡ count k ys
count-remove_first x k [] = ground arith
count-remove_first x k (y ∷ ys) =
    ground (arith, eq_iff x k, eq_iff y x, eq_iff y k, count-remove_first x k ys)
