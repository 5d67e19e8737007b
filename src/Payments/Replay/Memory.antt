-- ===== src/Payments/Replay/Memory.antt =====
-- src/payments/replay.py: what the in-memory nonce store promises.
use Prim.Native.Nat.{◌/◌}
use app_generation_microserv.Base.{
  ℕ, ◌≤◌, ◌<◌, String, ◌≡◌, inl, inr, true, false, some, List, [], ◌∷◌, leb, not, second, arith,
  eq_iff, Bool-cases,
}
use app_generation_microserv.Base.Dict.{
  lookup, has, IsDict, lookup-insert, insert-IsDict, lookup-select, select-IsDict,
}
use app_generation_microserv.Payments.Replay.{NonceStore, evict_expired, claim}

-- a call of `claim`, by any caller
pub record Call : Type 0 where
  pub key : String
  pub expires_at : ℕ
  pub now : ℕ

unfoldable pub claims : List Call → NonceStore → NonceStore
claims [] n = n
claims (c ∷ cs) n = claims cs (claim c.key c.expires_at c.now n).1

-- every call comes before the moment, in seconds
abbrev pub AllBefore : ℕ → List Call → Type 0
AllBefore end [] = Unit
AllBefore end (c ∷ cs) = (c.now / second < end) × AllBefore end cs

-- `key` is claimed until `end`
abbrev Held : String → ℕ → NonceStore → Type 0
Held key end n = IsDict n × (lookup key n ≡ some end)

evict_expired-Held :
    (key : String) (end moment : ℕ) (n : NonceStore)
    → moment < end
    → Held key end n
    → Held key end (evict_expired moment n)
unfolding evict_expired
evict_expired-Held key end moment n before (d, held) = (
  select-IsDict (λ _ exp. not (leb exp moment)) n d,
  ground (arith, before, held, lookup-select (λ _ exp. not (leb exp moment)) key n d),
)

claim-Held :
    (key : String) (end : ℕ) (c : Call) (n : NonceStore)
    → c.now / second < end
    → Held key end n
    → Held key end (claim c.key c.expires_at c.now n).1
unfolding claim
claim-Held key end c n before held =
    let (d, l) = evict_expired-Held key end (c.now / second) n before held in
    elim (Bool-cases (has c.key (evict_expired (c.now / second) n))) [
      | inl taken ↦ rw taken (d, l)
      | inr free ↦ rw free (
        insert-IsDict c.key c.expires_at (evict_expired (c.now / second) n) d,
        ground (
          arith,
          eq_iff c.key key,
          free,
          l,
          lookup-insert c.key key c.expires_at (evict_expired (c.now / second) n),
        ),
      )
    ]

claims-Held :
    (key : String) (end : ℕ) (cs : List Call) (n : NonceStore)
    → AllBefore end cs
    → Held key end n
    → Held key end (claims cs n)
unfolding claims
claims-Held key end [] n b h = h
claims-Held key end (c ∷ cs) n (b, bs) h = claims-Held key end cs _ bs (claim-Held key end c n b h)

claimed-Held :
    (key : String) (end now : ℕ) (n : NonceStore)
    → IsDict n
    → (claim key end now n).0 ≡ true
    → Held key end (claim key end now n).1
unfolding claim evict_expired
claimed-Held key end now n d h =
    let d' = select-IsDict (λ _ exp. not (leb exp (now / second))) n d in
    elim (Bool-cases (has key (evict_expired (now / second) n))) [
      | inl taken ↦ absurd (ground (arith, taken, h))
      | inr free ↦ rw free (
        insert-IsDict key end (evict_expired (now / second) n) d',
        ground (arith, eq_iff key key, lookup-insert key key end (evict_expired (now / second) n)),
      )
    ]

refused :
    (key : String) (end expires_at now : ℕ) (n : NonceStore)
    → now / second < end
    → Held key end n
    → (claim key expires_at now n).0 ≡ false
unfolding claim
refused key end expires_at now n before held =
    let (d, l) = evict_expired-Held key end (now / second) n before held in ground (arith, l)

-- Once a key has been claimed, every further claim of it that comes before its expiry is refused,
-- whatever claims came in between, of this key or of others.
pub claim_once :
    (key : String) (end expires_at first now : ℕ) (between : List Call) (n : NonceStore)
    → IsDict n
    → (claim key end first n).0 ≡ true
    → AllBefore end between
    → now / second < end
    → (claim key expires_at now (claims between (claim key end first n).1)).0 ≡ false
claim_once key end expires_at first now between n d ok bs before =
    refused key end expires_at now _ before
      (claims-Held key end between _ bs (claimed-Held key end first n d ok))

-- From the moment of its expiry on, a claimed key is claimed again, if nothing came in between.
pub claim_again :
    (key : String) (end expires_at first now : ℕ) (n : NonceStore)
    → IsDict n
    → (claim key end first n).0 ≡ true
    → end ≤ now / second
    → (claim key expires_at now (claim key end first n).1).0 ≡ true
unfolding claim evict_expired
claim_again key end expires_at first now n d ok past =
    again (claim key end first n).1 (claimed-Held key end first n d ok)
  where
    again : (m : NonceStore) → Held key end m → (claim key expires_at now m).0 ≡ true
    again m (d', l) =
        ground (arith, l, past, lookup-select (λ _ exp. not (leb exp (now / second))) key m d')
