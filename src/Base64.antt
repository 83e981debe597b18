-- ===== src/Base64.antt =====
-- `_b64e` and `_b64d` of src/connect_governance_grants/signing.py, with what they use of Python's
-- `base64`: the URL-safe alphabet, the padding, and the decoder of `binascii` in its lenient mode.
pub mod RoundTrip
pub mod Errors
use Prim.Native.Nat.{◌*◌, ◌/◌, ◌%◌}
use Prim.Native.Char.{Char, code, nul}
use Prim.Native.String.{String}
use connect_governance.Prelude.{
  ℕ, zero, suc, ◌+◌, ◌-◌, Bool, true, false, ◌&&◌, Option, none, some, List, [], ◌∷◌, ◌++◌, all,
  ltb, leb, ◌=ℕ◌, if◌then◌else◌, Error, Result, ok, err, ◌>>=◌,
}
use connect_governance.Kernel.Timestamp.{codes}

abbrev pub length {ℓ} : {A : Type ℓ} → List A → ℕ
length [] = 0
length (x ∷ xs) = suc (length xs)

abbrev pub alphabet : String
alphabet = "ABCDEFGHIJKLMNOPQRSTUVWXYZabcdefghijklmnopqrstuvwxyz0123456789-_"

-- text[i]
unfoldable pub nth_char : String → ℕ → Char
nth_char String.[] i = nul
nth_char (String.◌∷◌ c s) zero = c
nth_char (String.◌∷◌ c s) (suc i) = nth_char s i

unfoldable pub symbol : ℕ → Char
unfolding nth_char
symbol v = nth_char alphabet v

-- base64.urlsafe_b64encode: three bytes make four symbols, and the last group is padded.
unfoldable pub urlsafe_b64encode : List ℕ → String
urlsafe_b64encode [] = ""
urlsafe_b64encode (a ∷ []) = String.◌∷◌ (symbol (a / 4)) (String.◌∷◌ (symbol (a % 4 * 16)) "==")
urlsafe_b64encode (a ∷ b ∷ []) =
    String.◌∷◌ (symbol (a / 4))
      (String.◌∷◌ (symbol (a % 4 * 16 + b / 16)) (String.◌∷◌ (symbol (b % 16 * 4)) "="))
urlsafe_b64encode (a ∷ b ∷ c ∷ raw) = String.◌∷◌ (symbol (a / 4)) (
    String.◌∷◌ (symbol (a % 4 * 16 + b / 16)) (
      String.◌∷◌ (symbol (b % 16 * 4 + c / 64))
        (String.◌∷◌ (symbol (c % 64)) (urlsafe_b64encode raw))))

-- One step of `rstrip` from the right.
unfoldable pub drop_padding : Char → String → String
drop_padding c String.[] = if code c =ℕ b'=' then String.[] else String.◌∷◌ c String.[]
drop_padding c (String.◌∷◌ d s) = String.◌∷◌ c (String.◌∷◌ d s)

-- text.rstrip("=")
unfoldable pub rstrip_padding : String → String
rstrip_padding String.[] = String.[]
rstrip_padding (String.◌∷◌ c s) = drop_padding c (rstrip_padding s)

unfoldable pub b64e : List ℕ → String
b64e raw = rstrip_padding (urlsafe_b64encode raw)

-- The value of a symbol: `-` and `_` are translated to `+` and `/` first.
unfoldable pub symbol_value : ℕ → Option ℕ
symbol_value c =
    if leb b'A' c && leb c b'Z'
    then some (c - b'A')
    else if leb b'a' c && leb c b'z'
    then some (c - b'a' + 26)
    else if leb b'0' c && leb c b'9'
    then some (c - b'0' + 52)
    else if c =ℕ b'-'
    then some 62
    else if c =ℕ b'+'
    then some 62
    else if c =ℕ b'_'
    then some 63
    else if c =ℕ b'/'
    then some 63
    else none

-- `quad_pos` with the bits that are left over.
pub data Quad : Type 0 where
  at_start : Quad
  after_one after_two after_three : (left : ℕ) → Quad

abbrev pub quad_pos : Quad → ℕ
quad_pos at_start = 0
quad_pos (after_one left) = 1
quad_pos (after_two left) = 2
quad_pos (after_three left) = 3

abbrev pub next_quad : Quad → ℕ → Quad
next_quad at_start v = after_one v
next_quad (after_one left) v = after_two (v % 16)
next_quad (after_two left) v = after_three (v % 4)
next_quad (after_three left) v = at_start

-- The byte that a symbol completes.
abbrev pub completed : Quad → ℕ → List ℕ
completed at_start v = []
completed (after_one left) v = (left * 4 + v / 16) ∷ []
completed (after_two left) v = (left * 16 + v / 4) ∷ []
completed (after_three left) v = (left * 64 + v) ∷ []

-- binascii.a2b_base64: a completed pad sequence ends the input, and characters that are no symbols
-- are passed over.
unfoldable pub a2b_base64 : Quad → (pads : ℕ) → List ℕ → Result (List ℕ)
a2b_base64 at_start pads [] = ok []
a2b_base64 (after_one left) pads [] = err Error.value_error
a2b_base64 (after_two left) pads [] = err Error.value_error
a2b_base64 (after_three left) pads [] = err Error.value_error
a2b_base64 q pads (c ∷ cs) = elim (c =ℕ b'=') [
  | true ↦ elim (leb 2 (quad_pos q)) [
    | true ↦ elim (leb 4 (quad_pos q + suc pads)) [
      | true ↦ ok []
      | false ↦ a2b_base64 q (suc pads) cs
    ]
    | false ↦ a2b_base64 q pads cs
  ]
  | false ↦ elim (symbol_value c) [
    | none ↦ a2b_base64 q pads cs
    | some v ↦ do rest ← a2b_base64 (next_quad q v) 0 cs; ok (completed q v ++ rest)
  ]
]

abbrev pub padding : ℕ → List ℕ
padding zero = []
padding (suc n) = b'=' ∷ padding n

-- base64.urlsafe_b64decode(text + "=" * (-len(text) % 4)); a text that is not ASCII is refused.
unfoldable pub b64d : String → Result (List ℕ)
b64d text =
    if all (λ c. ltb c 128) (codes text)
    then a2b_base64 at_start 0 (codes text ++ padding ((4 - length (codes text) % 4) % 4))
    else err Error.value_error
