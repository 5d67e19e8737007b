-- ===== src/Tests/FakeRedis.antt =====
-- A Redis server small enough to run: it shows that the laws of the record `Redis` can hold.
use app_generation_microserv.Base.{
  ℕ, ◌+◌, ◌*◌, ◌≤◌, String, ◌==◌, ◌≡◌, refl, Bool, true, false, Option, none, some, List, [], ◌∷◌,
  ◌++◌, ltb, if◌then◌else◌, contains, second, arith,
}
use app_generation_microserv.Redis.{Redis, remove_all, remove_first, until}

pub record Server : Type 0 where
  pub lists : String → List String
  pub values : String → Option (String × ℕ)
  pub counts : String → ℕ × ℕ

abbrev pub alive : ℕ → Option (String × ℕ) → Option String
alive t none = none
alive t (some (v, end)) = until end t v

abbrev pub fake_get : ℕ → String → Server → Option String
fake_get t k s = alive t (s.values k)

abbrev pub counted : ℕ → ℕ × ℕ → ℕ
counted t (n, end) = if ltb t end then n else 0

abbrev pub fake_counter : ℕ → String → Server → ℕ
fake_counter t k s = counted t (s.counts k)

-- all but the last item, and the last
abbrev pub unsnoc : List String → Option (List String × String)
unsnoc [] = none
unsnoc (x ∷ xs) = elim (unsnoc xs) [ none ↦ some ([], x) | some (ys, y) ↦ some (x ∷ ys, y) ]

pub unsnoc-last : (xs : List String) (x : String) → unsnoc (xs ++ x ∷ []) ≡ some (xs, x)
unsnoc-last [] x = refl
unsnoc-last (y ∷ ys) x = rw (unsnoc-last ys x) refl

abbrev pub put_list : String → List String → Server → Server
put_list k xs s = record s { lists = λ j. if k == j then xs else s.lists j }

abbrev pub fake_lpush : String → String → Server → Server
fake_lpush k x s = record s { lists = λ j. if k == j then x ∷ s.lists j else s.lists j }

abbrev pub moved : String → String → Option (List String × String) → Server → Option String × Server
moved a b none s = (none, s)
moved a b (some (xs, x)) s = (
  some x,
  record s { lists = λ j. if a == j then xs else if b == j then x ∷ s.lists j else s.lists j },
)

abbrev pub fake_lmove : String → String → Server → Option String × Server
fake_lmove a b s = moved a b (unsnoc (s.lists a)) s

abbrev pub fake_lrem_all : String → String → Server → ℕ × Server
fake_lrem_all k x s =
    (0, record s { lists = λ j. if k == j then remove_all x (s.lists j) else s.lists j })

abbrev pub fake_lrem_first : String → String → Server → ℕ × Server
fake_lrem_first k x s = (
  (if contains x (s.lists k) then 1 else 0),
  record s { lists = λ j. if k == j then remove_first x (s.lists j) else s.lists j },
)

abbrev pub fake_set_ex : ℕ → String → String → ℕ → Server → Server
fake_set_ex now k v ex s = record s {
  values = λ j. if k == j then some (v, now + ex * second) else s.values j;
}

abbrev pub set_if_free : ℕ → String → String → ℕ → Server → Option String → Bool × Server
set_if_free now k v ex s none = (true, fake_set_ex now k v ex s)
set_if_free now k v ex s (some _) = (false, s)

abbrev pub extend : ℕ → String → ℕ → Server → Option String → Bool × Server
extend now k ex s none = (false, s)
extend now k ex s (some v) = (true, fake_set_ex now k v ex s)

abbrev pub fake_delete : String → Server → Server
fake_delete k s = record s { values = λ j. if k == j then none else s.values j }

abbrev pub fake_incr : ℕ → String → ℕ → Server → ℕ × Server
fake_incr now k ex s = (
  fake_counter now k s + 1,
  record s {
    counts = λ j. if k == j then (fake_counter now k s + 1, now + ex * second) else s.counts j;
  },
)

pub set_ex-law :
    (now : ℕ) (k v : String) (ex t : ℕ) (j : String) (s : Server)
    → fake_get t j (fake_set_ex now k v ex s)
      ≡ (if k == j then until (now + ex * second) t v else fake_get t j s)
set_ex-law now k v ex t j s = split (k == j)
  where
    split :
        (b : Bool)
        → alive t (if b then some (v, now + ex * second) else s.values j)
          ≡ (if b then until (now + ex * second) t v else fake_get t j s)
    split true = refl
    split false = refl

pub delete-law :
    (k j : String) (t : ℕ) (s : Server)
    → fake_get t j (fake_delete k s) ≡ (if k == j then none else fake_get t j s)
delete-law k j t s = split (k == j)
  where
    split :
        (b : Bool) → alive t (if b then none else s.values j) ≡ (if b then none else fake_get t j s)
    split true = refl
    split false = refl

pub incr-law :
    (now : ℕ) (k : String) (ex t : ℕ) (j : String) (s : Server)
    → fake_counter t j (fake_incr now k ex s).1 ≡ (
        if k == j
        then (if ltb t (now + ex * second) then fake_counter now k s + 1 else 0)
        else fake_counter t j s)
incr-law now k ex t j s = split (k == j)
  where
    split :
        (b : Bool)
        → counted t (if b then (fake_counter now k s + 1, now + ex * second) else s.counts j) ≡ (
            if b
            then (if ltb t (now + ex * second) then fake_counter now k s + 1 else 0)
            else fake_counter t j s)
    split true = refl
    split false = refl

pub get_moved :
    (a b j : String) (t : ℕ) (o : Option (List String × String)) (s : Server)
    → fake_get t j (moved a b o s).1 ≡ fake_get t j s
get_moved a b j t none s = refl
get_moved a b j t (some _) s = refl

pub later-law : (t t' : ℕ) (o : Option (String × ℕ)) → t ≤ t' → alive t o ≡ none → alive t' o ≡ none
later-law t t' none le h = refl
later-law t t' (some (v, end)) le h = ground (arith, le, h)

abbrev pub fake : Redis
fake = record {
  State = Server;
  lrange = λ k s. s.lists k;
  get = fake_get;
  counter = fake_counter;
  lpush = fake_lpush;
  lmove = fake_lmove;
  lrem_all = fake_lrem_all;
  lrem_first = fake_lrem_first;
  set_ex = fake_set_ex;
  set_nx_ex = λ now k v ex s. set_if_free now k v ex s (fake_get now k s);
  expire = λ now k ex s. extend now k ex s (fake_get now k s);
  delete = fake_delete;
  incr_expire = fake_incr;
  lrange-lpush = λ k x j s. refl;
  get-lpush = λ k x j t s. refl;
  lmove-empty = λ a b s e. rw e refl;
  lmove-last = λ a b x xs s e. rw (e, unsnoc-last xs x) refl;
  lrange-lmove = λ a b x j xs s apart e. rw (e, unsnoc-last xs x) refl;
  get-lmove = λ a b j t s. get_moved a b j t (unsnoc (s.lists a)) s;
  lrange-lrem_all = λ k x j s. refl;
  get-lrem_all = λ k x j t s. refl;
  lrem_first-count = λ k x s. refl;
  lrange-lrem_first = λ k x j s. refl;
  get-lrem_first = λ k x j t s. refl;
  get-set_ex = λ now k v ex t j s le. set_ex-law now k v ex t j s;
  lrange-set_ex = λ now k v ex j s. refl;
  set_nx_ex-free = λ now k v ex s e. rw e refl;
  set_nx_ex-taken = λ now k v w ex s e. rw e refl;
  expire-gone = λ now k ex s e. rw e refl;
  expire-live = λ now k v ex s e. rw e refl;
  get-delete = λ k j t s. delete-law k j t s;
  lrange-delete = λ k j s. refl;
  incr_expire-count = λ now k ex s. refl;
  counter-incr_expire = λ now k ex t j s le. incr-law now k ex t j s;
  get-later = λ t t' k s le e. later-law t t' (s.values k) le e;
}

abbrev pub empty_server : Server
empty_server = record { lists = λ j. []; values = λ j. none; counts = λ j. (0, 0) }
