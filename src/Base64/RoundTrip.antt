-- ===== src/Base64/RoundTrip.antt =====
-- Decoding gives back the bytes that were encoded.
use Prim.Native.Nat.{◌*◌, ◌/◌, ◌%◌}
use Prim.Native.Char.{code}
use Prim.Native.String.{String}
use connect_governance.Prelude.{
  ℕ, zero, suc, ◌+◌, ◌-◌, ◌<◌, ◌≡◌, refl, ap, ◌∙◌, Bool, true, false, ◌&&◌, Option, none, some,
  List, [], ◌∷◌, ◌++◌, arith, All, all, ltb, ◌=ℕ◌, if◌then◌else◌, ok, ◌>>=◌,
}
use connect_governance.Kernel.Timestamp.{codes}
use connect_governance.Base64.{
  length, nth_char, symbol, urlsafe_b64encode, drop_padding, rstrip_padding, b64e, symbol_value,
  Quad, at_start, after_one, after_two, after_three, next_quad, completed, a2b_base64, padding,
  b64d,
}

abbrev pub IsByte : ℕ → Type 0
IsByte b = b < 256

abbrev all_below : ℕ → (ℕ → Bool) → Bool
all_below zero p = true
all_below (suc n) p = p n && all_below n p

all_below_holds : (n : ℕ) (p : ℕ → Bool) (x : ℕ) → all_below n p ≡ true → x < n → p x ≡ true
all_below_holds zero p x h below = absurd (omega arith)
all_below_holds (suc n) p x h below = ground (arith, all_below_holds n p x)

is_value : ℕ → Option ℕ → Bool
is_value v none = false
is_value v (some w) = v =ℕ w

is_value-eq : (v : ℕ) (o : Option ℕ) → is_value v o ≡ true → o ≡ some v
unfolding is_value
is_value-eq v none h = cc
is_value-eq v (some w) h = ap some (ground arith)

-- What is true of the symbol of each value, and tested for all of them.
symbol_test : ℕ → Bool
unfolding is_value symbol_value symbol nth_char
symbol_test v =
    is_value v (symbol_value (code (symbol v)))
    && ltb (code (symbol v)) 128
    && (if code (symbol v) =ℕ b'=' then false else true)

symbol_tests : all_below 64 symbol_test ≡ true
unfolding symbol_test is_value symbol_value symbol nth_char
symbol_tests = refl

record IsSymbol (v c : ℕ) : Type 0 where
  value : symbol_value c ≡ some v
  ascii : ltb c 128 ≡ true
  no_padding : (c =ℕ b'=') ≡ false

symbol-IsSymbol : (v : ℕ) → v < 64 → IsSymbol v (code (symbol v))
unfolding symbol_test
symbol-IsSymbol v h =
    let passed = all_below_holds 64 symbol_test v symbol_tests h in
    record {
      value = is_value-eq v (symbol_value (code (symbol v))) (ground arith);
      ascii = ground arith;
      no_padding = ground arith;
    }

-- The symbols of the groups, without the padding.
abbrev symbols : List ℕ → List ℕ
symbols [] = []
symbols (a ∷ []) = code (symbol (a / 4)) ∷ code (symbol (a % 4 * 16)) ∷ []
symbols (a ∷ b ∷ []) =
    code (symbol (a / 4)) ∷ code (symbol (a % 4 * 16 + b / 16)) ∷ code (symbol (b % 16 * 4)) ∷ []
symbols (a ∷ b ∷ c ∷ raw) =
    code (symbol (a / 4))
    ∷ code (symbol (a % 4 * 16 + b / 16))
    ∷ code (symbol (b % 16 * 4 + c / 64))
    ∷ code (symbol (c % 64))
    ∷ symbols raw

-- A symbol in front is no padding, and stays.
codes-drop_padding :
    (v : ℕ) (s : String) → v < 64 → codes (drop_padding (symbol v) s) ≡ code (symbol v) ∷ codes s
unfolding drop_padding
codes-drop_padding v String.[] h = rw (symbol-IsSymbol v h).no_padding
codes-drop_padding v (String.◌∷◌ d s) h = refl

codes-b64e : (raw : List ℕ) → All IsByte raw → codes (b64e raw) ≡ symbols raw
unfolding b64e urlsafe_b64encode rstrip_padding drop_padding
codes-b64e [] h = refl
codes-b64e (a ∷ []) h =
    rw (codes-drop_padding (a / 4) _ (omega arith), codes-drop_padding (a % 4 * 16) _ (omega arith))
codes-b64e (a ∷ b ∷ []) h = rw (
  codes-drop_padding (a / 4) _ (omega arith),
  codes-drop_padding (a % 4 * 16 + b / 16) _ (omega arith),
  codes-drop_padding (b % 16 * 4) _ (omega arith),
)
codes-b64e (a ∷ b ∷ c ∷ raw) h = rw (
  codes-drop_padding (a / 4) _ (omega arith),
  codes-drop_padding (a % 4 * 16 + b / 16) _ (omega arith),
  codes-drop_padding (b % 16 * 4 + c / 64) _ (omega arith),
  codes-drop_padding (c % 64) _ (omega arith),
  codes-b64e raw h.1.1.1,
)

symbols-ascii : (raw : List ℕ) → All IsByte raw → all (λ c. ltb c 128) (symbols raw) ≡ true
symbols-ascii [] h = refl
symbols-ascii (a ∷ []) h = ground (
  arith,
  (symbol-IsSymbol (a / 4) (omega arith)).ascii,
  (symbol-IsSymbol (a % 4 * 16) (omega arith)).ascii,
)
symbols-ascii (a ∷ b ∷ []) h = ground (
  arith,
  (symbol-IsSymbol (a / 4) (omega arith)).ascii,
  (symbol-IsSymbol (a % 4 * 16 + b / 16) (omega arith)).ascii,
  (symbol-IsSymbol (b % 16 * 4) (omega arith)).ascii,
)
symbols-ascii (a ∷ b ∷ c ∷ raw) h = ground (
  arith,
  (symbol-IsSymbol (a / 4) (omega arith)).ascii,
  (symbol-IsSymbol (a % 4 * 16 + b / 16) (omega arith)).ascii,
  (symbol-IsSymbol (b % 16 * 4 + c / 64) (omega arith)).ascii,
  (symbol-IsSymbol (c % 64) (omega arith)).ascii,
  symbols-ascii raw h.1.1.1,
)

-- The decoder takes a symbol for its value.
a2b-symbol :
    (q : Quad) (pads v : ℕ) (cs : List ℕ)
    → v < 64
    → a2b_base64 q pads (code (symbol v) ∷ cs)
      ≡ (a2b_base64 (next_quad q v) 0 cs >>= λ rest. ok (completed q v ++ rest))
unfolding a2b_base64
a2b-symbol at_start pads v cs h =
    let s = symbol-IsSymbol v h in rw (a2b_base64, s.no_padding, s.value)
a2b-symbol (after_one l) pads v cs h =
    let s = symbol-IsSymbol v h in rw (a2b_base64, s.no_padding, s.value)
a2b-symbol (after_two l) pads v cs h =
    let s = symbol-IsSymbol v h in rw (a2b_base64, s.no_padding, s.value)
a2b-symbol (after_three l) pads v cs h =
    let s = symbol-IsSymbol v h in rw (a2b_base64, s.no_padding, s.value)

abbrev pad_count : List ℕ → ℕ
pad_count [] = 0
pad_count (a ∷ []) = 2
pad_count (a ∷ b ∷ []) = 1
pad_count (a ∷ b ∷ c ∷ raw) = pad_count raw

padded : (raw : List ℕ) → (4 - length (symbols raw) % 4) % 4 ≡ pad_count raw
padded [] = omega arith
padded (a ∷ []) = omega arith
padded (a ∷ b ∷ []) = omega arith
padded (a ∷ b ∷ c ∷ raw) = omega (arith, padded raw)

two_pads : (l : ℕ) → a2b_base64 (after_two l) 0 (b'=' ∷ b'=' ∷ []) ≡ ok []
unfolding a2b_base64
two_pads l = refl

one_pad : (l : ℕ) → a2b_base64 (after_three l) 0 (b'=' ∷ []) ≡ ok []
unfolding a2b_base64
one_pad l = refl

no_symbols : (pads : ℕ) → a2b_base64 at_start pads [] ≡ ok []
unfolding a2b_base64
no_symbols pads = refl

-- The bytes of a group, put together from the values of its symbols.
first_byte : (a b : ℕ) → b < 256 → a / 4 * 4 + (a % 4 * 16 + b / 16) / 16 ≡ a
first_byte a b h = omega arith

second_byte :
    (a b c : ℕ)
    → b < 256
    → c < 256
    → (a % 4 * 16 + b / 16) % 16 * 16 + (b % 16 * 4 + c / 64) / 4 ≡ b
second_byte a b c h k = omega arith

last_byte : (a b : ℕ) → b < 256 → (a % 4 * 16 + b / 16) % 16 * 16 + b % 16 * 4 / 4 ≡ b
last_byte a b h = omega arith

third_byte : (b c : ℕ) → c < 256 → (b % 16 * 4 + c / 64) % 4 * 64 + c % 64 ≡ c
third_byte b c h = omega arith

a2b-symbols :
    (raw : List ℕ) (pads : ℕ)
    → All IsByte raw
    → a2b_base64 at_start pads (symbols raw ++ padding (pad_count raw)) ≡ ok raw
a2b-symbols [] pads h = no_symbols pads
a2b-symbols (a ∷ []) pads h =
    rw
      (
        a2b-symbol at_start pads (a / 4) _ (omega arith),
        a2b-symbol (after_one (a / 4)) 0 (a % 4 * 16) _ (omega arith),
        two_pads (a % 4 * 16 % 16),
      )
      (ap (λ x. ok (x ∷ [])) (omega arith))
a2b-symbols (a ∷ b ∷ []) pads h =
    rw
      (
        a2b-symbol at_start pads (a / 4) _ (omega arith),
        a2b-symbol (after_one (a / 4)) 0 (a % 4 * 16 + b / 16) _ (omega arith),
        a2b-symbol (after_two ((a % 4 * 16 + b / 16) % 16)) 0 (b % 16 * 4) _ (omega arith),
        one_pad (b % 16 * 4 % 4),
      )
      (rw (first_byte a b h.1.0, last_byte a b h.1.0))
a2b-symbols (a ∷ b ∷ c ∷ raw) pads h =
    rw
      (
        a2b-symbol at_start pads (a / 4) _ (omega arith),
        a2b-symbol (after_one (a / 4)) 0 (a % 4 * 16 + b / 16) _ (omega arith),
        a2b-symbol (after_two ((a % 4 * 16 + b / 16) % 16)) 0 (b % 16 * 4 + c / 64) _ (omega arith),
        a2b-symbol (after_three ((b % 16 * 4 + c / 64) % 4)) 0 (c % 64) _ (omega arith),
        a2b-symbols raw 0 h.1.1.1,
      )
      (rw (first_byte a b h.1.0, second_byte a b c h.1.0 h.1.1.0, third_byte b c h.1.1.0))

-- Every list of bytes is decoded from its encoding, whatever its length.
pub b64d-b64e : (raw : List ℕ) → All IsByte raw → b64d (b64e raw) ≡ ok raw
unfolding b64d
b64d-b64e raw h = rw (codes-b64e raw h, symbols-ascii raw h, padded raw) (a2b-symbols raw 0 h)

-- n bytes are encoded in ceil(4n / 3) characters: 86 for a signature of 64 bytes.
pub length-b64e :
    (raw : List ℕ) → All IsByte raw → length (codes (b64e raw)) ≡ (length raw * 4 + 2) / 3
length-b64e raw h = ap length (codes-b64e raw h) ∙ groups raw
  where
    groups : (raw : List ℕ) → length (symbols raw) ≡ (length raw * 4 + 2) / 3
    groups [] = omega arith
    groups (a ∷ []) = omega arith
    groups (a ∷ b ∷ []) = omega arith
    groups (a ∷ b ∷ c ∷ raw) = omega (arith, groups raw)
