-- ===== src/Kernel/Timestamp/Zulu.antt =====
-- `Z`, `z` and `+00:00` denote the same instant.
use Prim.Native.String.{◌++◌ as text_append}
use text.Mathlib.TextLemmas.{nil-append, cons-append}
use mathlib.Core.List.{reverse, reverse-append, reverse-cons, reverse-reverse}
use connect_governance.Prelude.{
  ℕ, String, ◌≡◌, refl, ◌∙◌, sym, ap, true, false, Option, List, [], ◌∷◌, ◌++◌, append_assoc, arith,
  if◌then◌else◌,
}
use connect_governance.Kernel.Timestamp.{
  codes, is_space, lstrip, strip, zulu, utc_offset, normalize_zulu, require_offset, parse_rfc3339,
  Datetime,
}

lstrip-append :
    (xs : List ℕ) (c : ℕ) (ys : List ℕ)
    → is_space c ≡ false
    → lstrip (xs ++ c ∷ ys) ≡ lstrip xs ++ c ∷ ys
unfolding lstrip
lstrip-append [] c ys h = rw h
lstrip-append (x ∷ xs) c ys h = ground (arith, lstrip-append xs c ys h)

-- A text that ends in no space is stripped on the left only.
strip-append_one :
    (xs : List ℕ) (c : ℕ) → is_space c ≡ false → strip (xs ++ c ∷ []) ≡ lstrip xs ++ c ∷ []
unfolding strip
strip-append_one xs c h =
    rw (lstrip-append xs c [] h, reverse-append, h)
      (reverse-cons c (reverse (lstrip xs)) ∙ ap (λ l. l ++ c ∷ []) (reverse-reverse (lstrip xs)))

normalize_zulu-append_one :
    (xs : List ℕ) (c : ℕ)
    → normalize_zulu (xs ++ c ∷ []) ≡ (if zulu c then xs ++ utc_offset else xs ++ c ∷ [])
unfolding normalize_zulu
normalize_zulu-append_one [] c = refl
normalize_zulu-append_one (x ∷ []) c = ground arith
normalize_zulu-append_one (x ∷ y ∷ xs) c = ground (arith, normalize_zulu-append_one (y ∷ xs) c)

codes-append : (s t : String) → codes (text_append s t) ≡ codes s ++ codes t
codes-append String.[] t = ap codes (nil-append t)
codes-append (String.◌∷◌ c s) t = ap codes (cons-append c s t) ∙ rw (codes-append s t)

-- What the parser hands to `fromisoformat` for a text that ends in `Z` or in the offset.
normalized-zulu :
    (s : String) (c : ℕ)
    → is_space c ≡ false
    → zulu c ≡ true
    → normalize_zulu (strip (codes s ++ c ∷ [])) ≡ lstrip (codes s) ++ utc_offset
normalized-zulu s c h z = rw (strip-append_one (codes s) c h, normalize_zulu-append_one, z)

normalized-offset :
    (s : String) → normalize_zulu (strip (codes s ++ utc_offset)) ≡ lstrip (codes s) ++ utc_offset
unfolding is_space
normalized-offset s =
    let before = codes "+00:0" in
    rw
      (
        ← append_assoc (codes s) before (b'0' ∷ []),
        strip-append_one (codes s ++ before) b'0' refl,
        normalize_zulu-append_one,
        lstrip-append (codes s) b'+' (codes "00:0") refl,
      )
      (append_assoc (lstrip (codes s)) before (b'0' ∷ []))

-- For every text, `Z`, `z` and `+00:00` behind it denote the same instant, or are all rejected,
-- whatever dates and times `datetime.fromisoformat` accepts.
pub parse_rfc3339-zulu :
    (fromisoformat : List ℕ → Option Datetime) (s : String)
    → (parse_rfc3339 fromisoformat (text_append s "Z")
        ≡ parse_rfc3339 fromisoformat (text_append s "+00:00"))
      × (parse_rfc3339 fromisoformat (text_append s "z")
          ≡ parse_rfc3339 fromisoformat (text_append s "+00:00"))
unfolding is_space parse_rfc3339
parse_rfc3339-zulu fromisoformat s =
    let offset =
      ap (λ l. normalize_zulu (strip l)) (codes-append s "+00:00") ∙ normalized-offset s in
    let upper =
      ap (λ l. normalize_zulu (strip l)) (codes-append s "Z") ∙ normalized-zulu s b'Z' refl refl in
    let lower =
      ap (λ l. normalize_zulu (strip l)) (codes-append s "z") ∙ normalized-zulu s b'z' refl refl in
    let read = λ (l : List ℕ). require_offset (fromisoformat l) in
    (ap read (upper ∙ sym offset), ap read (lower ∙ sym offset))
