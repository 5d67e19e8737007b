-- ===== src/Queue/Memory/Custody/Places.antt =====
-- src/service/queue.py: what each call does to the place of one job.
use app_generation_microserv.Base.{
  ℕ, zero, suc, ◌+◌, ◌≤◌, String, ◌==◌, ◌≡◌, refl, ap, subst, inl, inr, Bool, true, false, Option,
  none, some, arith, if◌then◌else◌, is_some, Bool-cases, leb,
}
use app_generation_microserv.Base.Dict.{when}
use app_generation_microserv.Queue.Memory.{Lease, refused, reserved, renewed, acked, requeued}
use app_generation_microserv.Queue.Memory.Requeue.{live, lapses}
use app_generation_microserv.Queue.Memory.Custody.{
  Custody, absent, waiting, held, custody_of, lease, Moves,
}

-- What each call does, in terms of the count and the lease of the job alone. Whether the call is
-- about the job is a Boolean.
pub pushed_places :
    (b : Bool) (n : ℕ) (o : Option Lease)
    → n + (if is_some o then 1 else 0) + (if b then 1 else 0) ≤ 1
    → custody_of (n + ((if b then 1 else 0) + 0)) o ≡ (if b then waiting else custody_of n o)
pushed_places true zero none h = refl
pushed_places true zero (some l) h = absurd (omega (arith, h))
pushed_places true (suc n) o h = absurd (omega (arith, h))
pushed_places false n o h = let e : n + 0 ≡ n = omega arith in ap (λ m. custody_of m o) e

pub reserved_idle :
    (k owner : String) (seconds now : ℕ) (c : Custody) → Moves k (reserved owner seconds now) c c
reserved_idle k owner seconds now absent = refl
reserved_idle k owner seconds now waiting = inl refl
reserved_idle k owner seconds now (held l) = refl

pub reserved_places :
    (k owner : String) (seconds now : ℕ) (b : Bool) (n : ℕ) (o : Option Lease)
    → (if b then 1 else 0) + n + (if is_some o then 1 else 0) ≤ 1
    → Moves k
        (reserved owner seconds now)
        (custody_of ((if b then 1 else 0) + n) o)
        (custody_of n (if b then some (lease owner seconds now) else o))
reserved_places k owner seconds now true zero none h = inr refl
reserved_places k owner seconds now true zero (some l) h = absurd (omega (arith, h))
reserved_places k owner seconds now true (suc n) o h = absurd (omega (arith, h))
reserved_places k owner seconds now false n o h =
    let e : n ≡ 0 + n = omega arith in
    subst (λ m. Moves k (reserved owner seconds now) (custody_of m o) (custody_of n o)) e
      (reserved_idle k owner seconds now (custody_of n o))

pub foreign :
    (l : Lease) (owner : String) → refused (some l) owner ≡ true → (l.owner == owner) ≡ false
unfolding refused
foreign l owner h = ground (arith, h)

pub own : (l : Lease) (owner : String) → refused (some l) owner ≡ false → (l.owner == owner) ≡ true
unfolding refused
own l owner h = ground (arith, h)

pub renewed_places :
    (j k owner : String) (seconds now : ℕ) (b r : Bool) (n : ℕ) (o : Option Lease)
    → (j == k) ≡ b
    → (b ≡ true → refused o owner ≡ r)
    → Moves k
        (renewed j owner seconds now)
        (custody_of n o)
        (custody_of n (if r then o else if b then some (lease owner seconds now) else o))
unfolding refused
renewed_places j k owner seconds now b true zero none e h = refl
renewed_places j k owner seconds now b true (suc n) none e h = refl
renewed_places j k owner seconds now true true zero (some l) e h =
    rw (e, foreign l owner (h refl)) refl
renewed_places j k owner seconds now true true (suc n) (some l) e h =
    rw (e, foreign l owner (h refl)) refl
renewed_places j k owner seconds now false true zero (some l) e h = rw e refl
renewed_places j k owner seconds now false true (suc n) (some l) e h = rw e refl
renewed_places j k owner seconds now true false n none e h = let c : true ≡ false = h refl in cc
renewed_places j k owner seconds now false false zero none e h = refl
renewed_places j k owner seconds now false false (suc n) none e h = refl
renewed_places j k owner seconds now true false zero (some l) e h =
    rw (e, own l owner (h refl)) refl
renewed_places j k owner seconds now true false (suc n) (some l) e h =
    rw (e, own l owner (h refl)) refl
renewed_places j k owner seconds now false false zero (some l) e h = rw e refl
renewed_places j k owner seconds now false false (suc n) (some l) e h = rw e refl

pub acked_places :
    (j k : String) (b : Bool) (n : ℕ) (o : Option Lease)
    → (j == k) ≡ b
    → n + (if is_some o then 1 else 0) ≤ 1
    → Moves k (acked j) (custody_of n o) (custody_of n (if b then none else o))
acked_places j k true zero none e h = refl
acked_places j k true (suc n) none e h = refl
acked_places j k false zero none e h = refl
acked_places j k false (suc n) none e h = refl
acked_places j k true zero (some l) e h = rw e refl
acked_places j k true (suc n) (some l) e h = absurd (omega (arith, h))
acked_places j k false zero (some l) e h = rw e refl
acked_places j k false (suc n) (some l) e h = rw e refl

pub requeued_places :
    (moment : ℕ) (k : String) (n : ℕ) (o : Option Lease)
    → Moves k
        (requeued moment)
        (custody_of n o)
        (custody_of (n + lapses moment o) (when (live moment) k o))
requeued_places moment k zero none = refl
requeued_places moment k (suc n) none =
    let e : suc n + 0 ≡ suc n = omega arith in ap (λ m. custody_of m none) e
requeued_places moment k n (some l) = elim (Bool-cases (leb l.expires moment)) [
  | inl over ↦ (let e : n + 1 ≡ suc n = omega arith in rw over (ap (λ m. custody_of m none) e))
  | inr still ↦ rw still refl
]
