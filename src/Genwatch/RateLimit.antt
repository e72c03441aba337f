-- ===== src/Genwatch/RateLimit.antt =====
-- The token buckets in front of the login (GenWatch-main/backend/genwatch/services/ratelimit.py).
-- Tokens are counted in fractions of a token, `unit` of them to one, and time in milliseconds, so that
-- `refill` fractions come in each millisecond; the arithmetic is exact where the code's is in floats.
-- A key is a number, and the lock makes each operation one step.
pub mod Bound
use complete_gen_project.Base.{
  ℕ, ◌+◌, ◌-◌, ◌*◌, ◌/◌, Bool, true, false, Option, none, some, List, [], ◌∷◌, leb, ◌==◌, ◌&&◌,
  int_of_bool, if◌then◌else◌, min,
}

pub record Bucket : Type 0 where
  pub tokens : ℕ
  pub last : ℕ

pub record RateLimiter : Type 0 where
  pub capacity : ℕ
  pub refill : ℕ
  pub unit : ℕ

abbrev pub Buckets : Type 0
Buckets = ℕ → Option Bucket

abbrev pub set_bucket : ℕ → Option Bucket → Buckets → Buckets
set_bucket key b bs k = if k == key then b else bs k

-- What `check` does to the bucket of its key.
unfoldable pub check_bucket : RateLimiter → ℕ → Option Bucket → Bool × Bucket
check_bucket l now none = (true, record { tokens = l.capacity - l.unit; last = now })
check_bucket l now (some b) =
    let tokens = min l.capacity (b.tokens + (now - b.last) * l.refill) in
    if leb l.unit tokens
    then (true, record { tokens = tokens - l.unit; last = now })
    else (false, record { tokens = tokens; last = now })

unfoldable pub check : RateLimiter → ℕ → ℕ → Buckets → Bool × Buckets
check l now key bs =
    let (allowed, b) = check_bucket l now (bs key) in (allowed, set_bucket key (some b) bs)

unfoldable pub reset : ℕ → Buckets → Buckets
reset key bs = set_bucket key none bs

-- The attempts on the buckets, each at a time and on a key, with the number that are allowed for `key`.
unfoldable pub allowed_for : RateLimiter → ℕ → List (ℕ × ℕ) → Buckets → ℕ
allowed_for l key [] bs = 0
allowed_for l key ((now, k) ∷ es) bs =
    let (allowed, bs') = check l now k bs in
    int_of_bool (k == key && allowed) + allowed_for l key es bs'
