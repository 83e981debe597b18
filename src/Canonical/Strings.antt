-- ===== src/Canonical/Strings.antt =====
-- What `quote` writes is read back.
use Prim.Native.Nat.{◌*◌, ◌/◌, ◌%◌}
use connect_governance.Prelude.{
  ℕ, ◌≡◌, ◌<◌, refl, ap, subst, ◌∙◌, ◌+◌, false, [], ◌∷◌, ◌++◌, append-nil, append_assoc, ltb, ◌=ℕ◌,
  arith, inl, inr, Bool-cases, some,
}
use connect_governance.Canonical.{Text}
use connect_governance.Canonical.Dumps.{escape_char, escape, hex_digit}
use connect_governance.Canonical.Loads.{plain, read_step, read_string, hex_value, emits}

pub hex_value-hex_digit : (d : ℕ) → d < 16 → hex_value (hex_digit d) ≡ d
hex_value-hex_digit d h = ground arith

hex_pair :
    (c : ℕ)
    → c < 32
    → 16 * (16 * (16 * (16 * 0 + 0) + 0) + hex_value (hex_digit (c / 16)))
        + hex_value (hex_digit (c % 16))
      ≡ c
hex_pair c h =
    rw (hex_value-hex_digit (c / 16) (omega arith), hex_value-hex_digit (c % 16) (omega arith))
      (omega arith)

-- The reader takes what is written for `c` for `c`.
abbrev IsRead : ℕ → Type 0
IsRead c =
    (acc rest : Text)
    → read_string plain acc (escape_char c ++ rest) ≡ read_string plain (acc ++ c ∷ []) rest

-- A property of `d` holds of `c` if `c` is `d`.
known : (c d : ℕ) (P : ℕ → Type 0) → P d → ((c =ℕ d) ≡ false → P c) → P c
known c d P p k = elim (Bool-cases (c =ℕ d)) [
  | inl e ↦ let same : d ≡ c = ground arith in subst P same p
  | inr e ↦ k e
]

escape_char-IsRead : (c : ℕ) → IsRead c
unfolding read_string read_step escape_char
escape_char-IsRead c =
    known c b'"' IsRead (λ a r. refl)
      λ e1.
        known c b'\\' IsRead (λ a r. refl)
          λ e2.
            known c 8 IsRead (λ a r. refl)
              λ e3.
                known c 9 IsRead (λ a r. refl)
                  λ e4.
                    known c 10 IsRead (λ a r. refl)
                      λ e5.
                        known c 12 IsRead (λ a r. refl)
                          λ e6.
                            known c 13 IsRead (λ a r. refl)
                              λ e7. λ acc rest. elim (Bool-cases (ltb c 32)) [
                                | inl e ↦
                                    simp (e1, e2, e3, e4, e5, e6, e7, e, hex_pair c (ground arith))
                                | inr e ↦
                                    let shown : escape_char c ≡ c ∷ [] =
                                      simp (e1, e2, e3, e4, e5, e6, e7, e) in
                                    let step : read_step plain c ≡ emits c = simp (e1, e2, e) in
                                    rw shown (rw (step, read_string) refl)
                              ]

pub read_string-escape :
    (s acc rest : Text) → read_string plain acc (escape s ++ b'"' ∷ rest) ≡ some (acc ++ s, rest)
unfolding read_string read_step escape
read_string-escape [] acc rest = rw append-nil refl
read_string-escape (c ∷ s) acc rest =
    ap (read_string plain acc) (append_assoc (escape_char c) (escape s) (b'"' ∷ rest))
    ∙ escape_char-IsRead c acc (escape s ++ b'"' ∷ rest)
    ∙ read_string-escape s (acc ++ c ∷ []) rest
    ∙ ap (λ x. some (x, rest)) (append_assoc acc (c ∷ []) s)
