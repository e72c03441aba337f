-- ===== src/Companion/Persistence.antt =====
-- The state file (ats-pi-companion-main/src/atspi/persistence.py): what is saved, and how a file that
-- is missing, damaged or of another shape is read back. `json` is the standard library's; a file is
-- the document that it parses to. The temporary file, the rename and the two fsyncs are one step,
-- which replaces the document or leaves it. Negative numbers in a
-- document are left out.
pub mod Recovery
use complete_gen_project.Base.{ℕ, Bool, true, false, Option, none, some, List, [], ◌∷◌}

pub record PersistedState : Type 0 where
  pub transfer_count_lifetime : ℕ
  pub last_transfer_to_gen_ts : ℕ
  pub last_retransfer_to_util_ts : ℕ
  pub recent_transfer_wallclocks : List ℕ

-- `PersistedState()`
abbrev pub zeros : PersistedState
zeros = record {
  transfer_count_lifetime = 0;
  last_transfer_to_gen_ts = 0;
  last_retransfer_to_util_ts = 0;
  recent_transfer_wallclocks = [];
}

-- A scalar of a JSON document, by what `int()` makes of it: `text` carries what `int(str)` gives,
-- `infinity` is the number on which `int()` raises OverflowError, and `other` is an object or a nested
-- array, on which it raises TypeError.
pub data Scalar : Type 0 where
  number : ℕ → Scalar
  infinity : Scalar
  text : Option ℕ → Scalar
  null : Scalar
  other : Scalar

-- A field of the document, as `data.get(name)` finds it.
pub data Field : Type 0 where
  missing : Field
  scalar : Scalar → Field
  array : List Scalar → Field

pub record Fields : Type 0 where
  pub lifetime : Field
  pub to_gen : Field
  pub to_util : Field
  pub wallclocks : Field

-- What stands at the path. `unreadable` is an OSError or a document that does not parse;
-- `not_object` is a document that parses, to a list or a scalar.
pub data Contents : Type 0 where
  no_file unreadable not_object : Contents
  object : Fields → Contents

pub data Loaded : Type 0 where
  loaded : PersistedState → Loaded
  attribute_error overflow_error : Loaded

-- A conversion: `invalid` is a TypeError or a ValueError, `overflow` an OverflowError.
pub data Conversion (A : Type 0) : Type 0 where
  converted : A → Conversion A
  invalid overflow : Conversion A

abbrev int_text : Option ℕ → Conversion ℕ
int_text none = invalid
int_text (some n) = converted n

unfoldable pub int_scalar : Scalar → Conversion ℕ
int_scalar (number n) = converted n
int_scalar infinity = overflow
int_scalar (text n) = int_text n
int_scalar null = invalid
int_scalar other = invalid

-- `int(data.get(name, 0))`
unfoldable pub int_field : Field → Conversion ℕ
unfolding int_scalar
int_field missing = converted 0
int_field (scalar s) = int_scalar s
int_field (array _) = invalid

infixl 5 ◌>>=◌
abbrev ◌>>=◌ : {A B : Type 0} → Conversion A → (A → Conversion B) → Conversion B
invalid >>= f = invalid
overflow >>= f = overflow
converted a >>= f = f a

unfoldable pub int_all : List Scalar → Conversion (List ℕ)
unfolding int_scalar
int_all [] = converted []
int_all (s ∷ ss) = do n ← int_scalar s; ns ← int_all ss; converted (n ∷ ns)

-- `data.get("recent_transfer_wallclocks") or []`, replaced by `[]` where that is no list.
unfoldable pub wallclock_items : Field → List Scalar
wallclock_items (array ss) = ss
wallclock_items _ = []

unfoldable pub parse_fields : Fields → Conversion PersistedState
unfolding int_field int_all wallclock_items
parse_fields d = do
  recent ← int_all (wallclock_items d.wallclocks)
  count ← int_field d.lifetime
  gen ← int_field d.to_gen
  util ← int_field d.to_util
  converted (record {
    transfer_count_lifetime = count;
    last_transfer_to_gen_ts = gen;
    last_retransfer_to_util_ts = util;
    recent_transfer_wallclocks = recent;
  })

-- The handler of `(OSError, JSONDecodeError, ValueError, TypeError)`, which does not name OverflowError.
abbrev pub or_zeros : Conversion PersistedState → Loaded
or_zeros invalid = loaded zeros
or_zeros overflow = overflow_error
or_zeros (converted p) = loaded p

-- `StateFile.load`. `data.get` on a document that is no object raises AttributeError, which the
-- handler does not name either.
unfoldable pub load : Contents → Loaded
unfolding parse_fields
load no_file = loaded zeros
load unreadable = loaded zeros
load not_object = attribute_error
load (object d) = or_zeros (parse_fields d)

abbrev numbers : List ℕ → List Scalar
numbers [] = []
numbers (n ∷ ns) = number n ∷ numbers ns

-- `asdict(state)`, as `json.dump` writes it.
unfoldable pub asdict : PersistedState → Fields
asdict p = record {
  lifetime = scalar (number p.transfer_count_lifetime);
  to_gen = scalar (number p.last_transfer_to_gen_ts);
  to_util = scalar (number p.last_retransfer_to_util_ts);
  wallclocks = array (numbers p.recent_transfer_wallclocks);
}

-- `StateFile.save`, with whether the disk takes the write; an OSError leaves the old document.
unfoldable pub save : Bool → PersistedState → Contents → Contents
unfolding asdict
save true p _ = object (asdict p)
save false _ old = old
