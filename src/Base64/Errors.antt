-- ===== src/Base64/Errors.antt =====
-- A text that is no encoding is refused with ValueError, and with nothing else.
use Prim.Native.String.{String}
use connect_governance.Prelude.{
  ℕ, suc, ◌+◌, Bool, true, false, Option, none, some, List, [], ◌∷◌, ltb, leb, all, ◌=ℕ◌, Error,
  Result, ok, err, ◌>>=◌, inl, inr, Bool-cases,
}
use connect_governance.Kernel.Timestamp.{codes}
use connect_governance.Base64.{
  symbol_value, Quad, at_start, after_one, after_two, after_three, quad_pos, next_quad, a2b_base64,
  b64d,
}

-- The call returned, or raised ValueError.
abbrev pub IsOkOrValueError : {A : Type 0} → Result A → Type 0
IsOkOrValueError (ok a) = Unit
IsOkOrValueError (err Error.value_error) = Unit
IsOkOrValueError (err e) = ⊥

then_ok :
    {A B : Type 0} (r : Result A) (f : A → B)
    → IsOkOrValueError r
    → IsOkOrValueError (r >>= λ a. ok (f a))
then_ok (ok a) f h = tt
then_ok (err Error.value_error) f h = tt
then_ok (err e) f h = absurd h

-- Whatever the tests of a step say, what it goes on with is of the kind.
whichever :
    (padding_char late complete : Bool) (value : Option ℕ) (x y z : Result (List ℕ))
    (k : ℕ → Result (List ℕ))
    → IsOkOrValueError x
    → IsOkOrValueError y
    → IsOkOrValueError z
    → ((v : ℕ) → IsOkOrValueError (k v))
    → IsOkOrValueError (elim padding_char [
      | true ↦ elim late [ true ↦ elim complete [ true ↦ ok [] | false ↦ x ] | false ↦ y ]
      | false ↦ elim value [ none ↦ z | some v ↦ k v ]
    ])
whichever true true true o x y z k hx hy hz hk = tt
whichever true true false o x y z k hx hy hz hk = hx
whichever true false c o x y z k hx hy hz hk = hy
whichever false b c none x y z k hx hy hz hk = hz
whichever false b c (some v) x y z k hx hy hz hk = hk v

a2b-IsOkOrValueError : (cs : List ℕ) (q : Quad) (pads : ℕ) → IsOkOrValueError (a2b_base64 q pads cs)
unfolding a2b_base64
a2b-IsOkOrValueError [] at_start pads = tt
a2b-IsOkOrValueError [] (after_one l) pads = tt
a2b-IsOkOrValueError [] (after_two l) pads = tt
a2b-IsOkOrValueError [] (after_three l) pads = tt
a2b-IsOkOrValueError (c ∷ cs) at_start pads =
    whichever (c =ℕ b'=') (leb 2 (quad_pos at_start)) (leb 4 (quad_pos at_start + suc pads))
      (symbol_value c) _ _ _ _ (a2b-IsOkOrValueError cs at_start (suc pads))
      (a2b-IsOkOrValueError cs at_start pads) (a2b-IsOkOrValueError cs at_start pads)
      (λ v.
        then_ok (a2b_base64 (next_quad at_start v) 0 cs) _
          (a2b-IsOkOrValueError cs (next_quad at_start v) 0))
a2b-IsOkOrValueError (c ∷ cs) (after_one l) pads =
    whichever (c =ℕ b'=') (leb 2 (quad_pos (after_one l)))
      (leb 4 (quad_pos (after_one l) + suc pads)) (symbol_value c) _ _ _ _
      (a2b-IsOkOrValueError cs (after_one l) (suc pads))
      (a2b-IsOkOrValueError cs (after_one l) pads) (a2b-IsOkOrValueError cs (after_one l) pads)
      (λ v.
        then_ok (a2b_base64 (next_quad (after_one l) v) 0 cs) _
          (a2b-IsOkOrValueError cs (next_quad (after_one l) v) 0))
a2b-IsOkOrValueError (c ∷ cs) (after_two l) pads =
    whichever (c =ℕ b'=') (leb 2 (quad_pos (after_two l)))
      (leb 4 (quad_pos (after_two l) + suc pads)) (symbol_value c) _ _ _ _
      (a2b-IsOkOrValueError cs (after_two l) (suc pads))
      (a2b-IsOkOrValueError cs (after_two l) pads) (a2b-IsOkOrValueError cs (after_two l) pads)
      (λ v.
        then_ok (a2b_base64 (next_quad (after_two l) v) 0 cs) _
          (a2b-IsOkOrValueError cs (next_quad (after_two l) v) 0))
a2b-IsOkOrValueError (c ∷ cs) (after_three l) pads =
    whichever (c =ℕ b'=') (leb 2 (quad_pos (after_three l)))
      (leb 4 (quad_pos (after_three l) + suc pads)) (symbol_value c) _ _ _ _
      (a2b-IsOkOrValueError cs (after_three l) (suc pads))
      (a2b-IsOkOrValueError cs (after_three l) pads) (a2b-IsOkOrValueError cs (after_three l) pads)
      (λ v.
        then_ok (a2b_base64 (next_quad (after_three l) v) 0 cs) _
          (a2b-IsOkOrValueError cs (next_quad (after_three l) v) 0))

pub b64d-IsOkOrValueError : (text : String) → IsOkOrValueError (b64d text)
unfolding b64d
b64d-IsOkOrValueError text = elim (Bool-cases (all (λ c. ltb c 128) (codes text))) [
  | inl e ↦ rw e (a2b-IsOkOrValueError _ at_start 0)
  | inr e ↦ rw e tt
]
