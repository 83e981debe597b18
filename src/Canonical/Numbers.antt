-- ===== src/Canonical/Numbers.antt =====
-- What `int_repr` writes is read back.
use Prim.Native.Nat.{◌*◌, ◌/◌, ◌%◌}
use connect_governance.Prelude.{
  ℕ, ◌≡◌, ◌<◌, refl, ap, ◌∙◌, zero, suc, ◌+◌, ◌-◌, Bool, true, false, [], ◌∷◌, ◌++◌, ltb, ◌=ℕ◌,
  arith, inl, inr, Bool-cases, some, all, any, not, is_nil, is_nil-append,
}
use connect_governance.Prelude.Int.{ℤ, pos, negsuc}
use connect_governance.Canonical.{Text}
use connect_governance.Canonical.Dumps.{digits, decimal, int_repr}
use connect_governance.Canonical.Loads.{
  read_digits, read_int, is_digit, is_point, is_number, span, map_some, negate,
}

read_digits-append :
    (m : ℕ) (s t : Text) {n : ℕ}
    → read_digits m s ≡ some n
    → read_digits m (s ++ t) ≡ read_digits n t
unfolding read_digits
read_digits-append m [] t h = cc
read_digits-append m (c ∷ s) t h = elim (Bool-cases (is_digit c)) [
  | inl e ↦ rw e (read_digits-append (10 * m + (c - b'0')) s t (rw e at h))
  | inr e ↦ cc (rw e at h)
]

read_digit : (m d : ℕ) → d < 10 → read_digits m ((b'0' + d) ∷ []) ≡ some (10 * m + d)
unfolding read_digits
read_digit m d h = ground arith

all-append : (p : ℕ → Bool) (s t : Text) → all p s ≡ true → all p t ≡ true → all p (s ++ t) ≡ true
all-append p [] t h g = g
all-append p (c ∷ s) t h g = ground (arith, all-append p s t)

read_digits-digits : (f n : ℕ) → n < f → read_digits 0 (digits f n) ≡ some n
unfolding read_digits digits
read_digits-digits zero n h = absurd (omega arith)
read_digits-digits (suc f) n h = elim (Bool-cases (ltb n 10)) [
  | inl e ↦ rw e (read_digit 0 n (ground arith) ∙ ap some (omega arith))
  | inr e ↦ rw e (
      read_digits-append 0 (digits f (n / 10)) ((b'0' + n % 10) ∷ [])
        (read_digits-digits f (n / 10) (ground arith))
      ∙ read_digit (n / 10) (n % 10) (omega arith)
      ∙ ap some (omega arith))
]

-- The digits are digits, and there is a first one.
all-digits : (f n : ℕ) → all is_digit (digits f n) ≡ true
unfolding digits
all-digits zero n = refl
all-digits (suc f) n = elim (Bool-cases (ltb n 10)) [
  | inl e ↦ rw e (ground arith)
  | inr e ↦ rw e (all-append is_digit (digits f (n / 10)) _ (all-digits f (n / 10)) (ground arith))
]

digits-is_nil : (f n : ℕ) → is_nil (digits (suc f) n) ≡ false
unfolding digits
digits-is_nil f n = elim (Bool-cases (ltb n 10)) [
  | inl e ↦ rw e refl
  | inr e ↦ rw e (is_nil-append (digits f (n / 10)) _ ∙ ground arith)
]

read_int_digits :
    (t : Text)
    → is_nil t ≡ false
    → all is_digit t ≡ true
    → read_int t ≡ map_some pos (read_digits 0 t)
unfolding read_int
read_int_digits [] h d = cc
read_int_digits (c ∷ t) h d = let digit : (c =ℕ b'-') ≡ false = ground arith in rw digit refl

pub read_int-int_repr : (n : ℤ) → read_int (int_repr n) ≡ some n
unfolding int_repr decimal read_int
read_int-int_repr (pos n) =
    read_int_digits (digits (suc n) n) (digits-is_nil n n) (all-digits (suc n) n)
    ∙ ap (map_some pos) (read_digits-digits (suc n) n (omega arith))
read_int-int_repr (negsuc n) =
    ap (map_some negate) (read_digits-digits (suc (suc n)) (suc n) (omega arith))

-- A text of a number: characters of numbers only, and at least one.
abbrev pub IsNumber : Text → Type 0
IsNumber t = (is_nil t ≡ false) × (all is_number t ≡ true)

digits-number :
    (t : Text) → all is_digit t ≡ true → (all is_number t ≡ true) × (any is_point t ≡ false)
digits-number [] h = (refl, refl)
digits-number (c ∷ t) h =
    let (n, p) = digits-number t (ground arith) in (ground arith, ground arith)

pub int_repr-IsNumber : (n : ℤ) → IsNumber (int_repr n) × (any is_point (int_repr n) ≡ false)
unfolding int_repr decimal
int_repr-IsNumber (pos n) =
    let (number, point) = digits-number (digits (suc n) n) (all-digits (suc n) n) in
    ((digits-is_nil n n, number), point)
int_repr-IsNumber (negsuc n) =
    let (number, point) =
      digits-number (digits (suc (suc n)) (suc n)) (all-digits (suc (suc n)) (suc n)) in
    ((refl, number), point)

abbrev pub ends : Text → Bool
ends [] = true
ends (c ∷ rest) = not (is_number c)

pub span-append :
    (t rest : Text) → all is_number t ≡ true → ends rest ≡ true → span (t ++ rest) ≡ (t, rest)
unfolding span
span-append [] [] h e = refl
span-append [] (c ∷ rest) h e = let stop : is_number c ≡ false = ground arith in rw stop refl
span-append (c ∷ t) rest h e =
    let go : is_number c ≡ true = ground arith in
    rw go (ap (λ x. (c ∷ x.0, x.1)) (span-append t rest (ground arith) e))
