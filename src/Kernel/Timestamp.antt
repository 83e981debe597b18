-- ===== src/Kernel/Timestamp.antt =====
-- `parse_rfc3339` of src/connect_governance_kernel/types.py, over the code points of the text.
-- `datetime.fromisoformat` is a parameter: it returns a naive value, an aware one, or raises.
pub mod Zulu
use Prim.Native.Char.{code}
use Prim.Native.String.{String}
use mathlib.Core.List.{reverse}
use connect_governance.Prelude.{
  ℕ, Bool, ◌||◌, ◌&&◌, Option, none, some, List, [], ◌∷◌, leb, ◌=ℕ◌, if◌then◌else◌, Error, Result,
  ok, err,
}

-- What `fromisoformat` returns: with no `tzinfo`, or with one and so an instant, counted in
-- microseconds of UTC from an early origin. Aware values compare by their instants.
pub data Datetime : Type 0 where
  naive : (wall : ℕ) → Datetime
  aware : (instant : ℕ) → Datetime

abbrev pub codes : String → List ℕ
codes String.[] = []
codes (String.◌∷◌ c s) = code c ∷ codes s

-- str.isspace
unfoldable pub is_space : ℕ → Bool
is_space c =
    (leb 9 c && leb c 13)
    || (leb 28 c && leb c 32)
    || c =ℕ 0x85
    || c =ℕ 0xa0
    || c =ℕ 0x1680
    || (leb 0x2000 c && leb c 0x200a)
    || c =ℕ 0x2028
    || c =ℕ 0x2029
    || c =ℕ 0x202f
    || c =ℕ 0x205f
    || c =ℕ 0x3000

unfoldable pub lstrip : List ℕ → List ℕ
lstrip [] = []
lstrip (c ∷ s) = if is_space c then lstrip s else c ∷ s

unfoldable pub strip : List ℕ → List ℕ
unfolding lstrip
strip s = reverse (lstrip (reverse (lstrip s)))

abbrev pub zulu : ℕ → Bool
zulu c = c =ℕ b'z' || c =ℕ b'Z'

-- "+00:00"
abbrev pub utc_offset : List ℕ
utc_offset = codes "+00:00"

-- if text.endswith(("z", "Z")): text = text[:-1] + "+00:00"
unfoldable pub normalize_zulu : List ℕ → List ℕ
normalize_zulu [] = []
normalize_zulu (c ∷ []) = if zulu c then utc_offset else c ∷ []
normalize_zulu (c ∷ d ∷ s) = c ∷ normalize_zulu (d ∷ s)

unfoldable pub require_offset : Option Datetime → Result ℕ
require_offset none = err Error.value_error
require_offset (some (naive wall)) = err Error.value_error
require_offset (some (aware instant)) = ok instant

-- The instant of a timestamp; ValueError for a text that is no timestamp or carries no offset.
unfoldable pub parse_rfc3339 : (List ℕ → Option Datetime) → String → Result ℕ
parse_rfc3339 fromisoformat value =
    require_offset (fromisoformat (normalize_zulu (strip (codes value))))
