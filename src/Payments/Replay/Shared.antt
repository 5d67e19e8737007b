-- ===== src/Payments/Replay/Shared.antt =====
-- src/payments/replay.py: what the shared nonce store promises, over any Redis.
use Prim.Native.Nat.{◌/◌}
use app_generation_microserv.Base.{
  ℕ, ◌+◌, ◌-◌, ◌≤◌, ◌<◌, ◌*◌, String, ◌≡◌, refl, inl, inr, true, false, Option, none, some, List,
  [], ◌∷◌, leb, second, arith, is_some, eq_iff, Bool-cases, Option-cases,
}
use app_generation_microserv.Base.Text.{decimal}
use app_generation_microserv.Redis.{Redis}
use app_generation_microserv.Payments.Replay.{
  RedisNonceStore, nonce_key, Line, answers, raises, sent, remaining, claim_shared,
}

module _ (R : Redis) (c : RedisNonceStore) where
  open R use {State, set_nx_ex, set_ex, get, get-set_ex, set_nx_ex-free, set_nx_ex-taken}

  -- a call of `claim`, by any process
  pub record SharedCall : Type 0 where
    pub line : Line R c
    pub key : String
    pub expires_at : ℕ
    pub now : ℕ

  pub shared_claims : List SharedCall → State → State
  shared_claims [] s = s
  shared_claims (a ∷ as') s =
      shared_claims as' (claim_shared R c a.line a.key a.expires_at a.now s).1

  -- The calls come in the order of their times, none before `from`, and then the moment `now`.
  abbrev pub InOrder : ℕ → List SharedCall → ℕ → Type 0
  InOrder from [] now = from ≤ now
  InOrder from (a ∷ as') now = (from ≤ a.now) × InOrder a.now as' now

  from_now : (from now : ℕ) (calls : List SharedCall) → InOrder from calls now → from ≤ now
  from_now from now [] h = h
  from_now from now (a ∷ as') (h, hs) = omega (arith, h, from_now a.now now as' hs)

  -- the key is set from one moment to another
  abbrev Held : String → ℕ → ℕ → State → Type 0
  Held key from end s = (t : ℕ) → from ≤ t → t < end → is_some (get t (nonce_key c key) s) ≡ true

  set_nx_ex-Held :
      (key k v : String) (from now end ex : ℕ) (s : State)
      → from ≤ now
      → now < end
      → Held key from end s
      → Held key now end (set_nx_ex now k v ex s).1
  set_nx_ex-Held key k v from now end ex s le lt held t le' lt' =
      elim (Option-cases (get now k s)) [
        | inr (w, taken) ↦
            rw (set_nx_ex-taken now k v w ex s taken) (held t (omega (arith, le, le')) lt')
        | inl free ↦
            let old : is_some (get t (nonce_key c key) s) ≡ true =
              held t (omega (arith, le, le')) lt' in
            let here : is_some (get now (nonce_key c key) s) ≡ true = held now le lt in
            rw (set_nx_ex-free now k v ex s free) (
              ground (
                arith,
                eq_iff k (nonce_key c key),
                get-set_ex now k v ex t (nonce_key c key) s le',
                old,
                here,
                free,
              ))
      ]

  claim_shared-Held :
      (key : String) (from end : ℕ) (a : SharedCall) (s : State)
      → from ≤ a.now
      → a.now < end
      → Held key from end s
      → Held key a.now end (claim_shared R c a.line a.key a.expires_at a.now s).1
  unfolding claim_shared sent
  claim_shared-Held key from end a s le lt held =
      elim (Bool-cases (leb (remaining R c a.expires_at a.now) 0)) [
        | inl lapsed ↦ rw lapsed (λ t le' lt'. held t (omega (arith, le, le')) lt')
        | inr live ↦ rw live (go a.line)
      ]
    where
      go :
          (l : Line R c)
          → Held key a.now end
              (sent R c l a.now a.key (remaining R c a.expires_at a.now + c.grace) s).1
      go answers = set_nx_ex-Held key _ _ from a.now end _ s le lt held
      go (raises true) = set_nx_ex-Held key _ _ from a.now end _ s le lt held
      go (raises false) = λ t le' lt'. held t (omega (arith, le, le')) lt'

  shared_claims-Held :
      (key : String) (from end now : ℕ) (calls : List SharedCall) (s : State)
      → InOrder from calls now
      → now < end
      → Held key from end s
      → is_some (get now (nonce_key c key) (shared_claims calls s)) ≡ true
  unfolding shared_claims
  shared_claims-Held key from end now [] s o lt h = h now o lt
  shared_claims-Held key from end now (a ∷ as') s (o, os) lt h =
      shared_claims-Held key a.now end now as' _ os lt
        (claim_shared-Held key from end a s o (omega (arith, lt, from_now a.now now as' os)) h)

  refused :
      (line : Line R c) (key : String) (expires_at now : ℕ) (s : State)
      → is_some (get now (nonce_key c key) s) ≡ true
      → (claim_shared R c line key expires_at now s).0 ≡ false
  unfolding claim_shared sent
  refused line key expires_at now s h = elim (Bool-cases (leb (remaining R c expires_at now) 0)) [
    | inl lapsed ↦ rw lapsed refl
    | inr live ↦ rw live (go line)
  ]
    where
      taken :
          (o : Option String)
          → get now (nonce_key c key) s ≡ o
          → is_some o ≡ true
          → (set_nx_ex now
              (nonce_key c key)
              (decimal (now / second))
              (remaining R c expires_at now + c.grace)
              s).0
            ≡ false
      taken (some w) e i = rw (set_nx_ex-taken now _ _ w _ s e) refl
      taken none e i = cc

      go :
          (l : Line R c) → (sent R c l now key (remaining R c expires_at now + c.grace) s).0 ≡ false
      go answers = taken (get now (nonce_key c key) s) refl h
      go (raises true) = refl
      go (raises false) = refl

  claimed-Held :
      (line : Line R c) (key : String) (end first : ℕ) (s : State)
      → 1 ≤ c.grace
      → (claim_shared R c line key end first s).0 ≡ true
      → Held key first (end * second) (claim_shared R c line key end first s).1
  unfolding claim_shared sent remaining
  claimed-Held line key end first s grace ok =
      elim (Bool-cases (leb ((end * second - first) / second) 0)) [
        | inl lapsed ↦ absurd (ground (arith, lapsed, ok))
        | inr live ↦ rw live (go line (rw live at ok))
      ]
    where
      stored :
          (v : String) (ex t : ℕ)
          → first ≤ t
          → t < first + ex * second
          → is_some (get t (nonce_key c key) (set_ex first (nonce_key c key) v ex s)) ≡ true
      stored v ex t le lt = ground (
        arith,
        lt,
        eq_iff (nonce_key c key) (nonce_key c key),
        get-set_ex first (nonce_key c key) v ex t (nonce_key c key) s le,
      )

      go :
          (l : Line R c)
          → (sent R c l first key ((end * second - first) / second + c.grace) s).0 ≡ true
          → Held key first
              (end * second)
              (sent R c l first key ((end * second - first) / second + c.grace) s).1
      go answers ok t le lt = elim (Option-cases (get first (nonce_key c key) s)) [
        | inr (w, taken) ↦ absurd (
            ground (
              arith,
              set_nx_ex-taken first (nonce_key c key) (decimal (first / second)) w
                  ((end * second - first) / second + c.grace) s taken,
              ok,
            ))
        | inl free ↦
            rw (set_nx_ex-free first _ _ _ s free) (stored _ _ t le (omega (arith, le, lt, grace)))
      ]
      go (raises true) ok t le lt = cc
      go (raises false) ok t le lt = cc

  -- Once Redis has answered that a key was claimed, every further claim of it before its expiry is
  -- refused, whatever calls came in between, of this key or of others, from any process, and
  -- whichever of them the client lost; the grace is at least a second.
  pub claim_shared_once :
      (line line' : Line R c) (key : String) (end expires_at first now : ℕ)
      (between : List SharedCall) (s : State)
      → 1 ≤ c.grace
      → (claim_shared R c line key end first s).0 ≡ true
      → InOrder first between now
      → now < end * second
      → (claim_shared R c line' key expires_at now
          (shared_claims between (claim_shared R c line key end first s).1)).0
        ≡ false
  claim_shared_once line line' key end expires_at first now between s grace ok o before =
      refused line' key expires_at now _ (
        shared_claims-Held key first (end * second) now between _ o before
          (claimed-Held line key end first s grace ok))
