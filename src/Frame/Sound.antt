-- ===== src/Frame/Sound.antt =====
-- The steps of the parsers of src/format/frame.c, and what they may do to memory.
use openquic.Common.{
  ℕ, zero, suc, ◌≤◌, ◌≡◌, refl, sym, arith, Bool, true, false, List, [], ◌∷◌, ◌++◌, append_assoc,
  take, take-append-drop, length, ltb, Bool-cases, inl, inr, if◌then◌else◌,
}
use openquic.Frame.Parse.{remaining, require, len_byte, ranges_parse, ect_parse}
use openquic.Frame.Wire.{
  Result, ok, err, over_read, fault, Parser, ◌>>=◌, pure, first_byte, varint, copy_data, alloc,
}
use openquic.Varint.{varint_len}

-- No access outside of memory but a read of the byte behind the input, and what is left of the
-- input is a rear part of it.
abbrev pub Outcome : {A : Type 0} → List ℕ → Result (A × List ℕ) → Type 0
Outcome bs (ok (a, rest)) = (used : List ℕ) × (bs ≡ used ++ rest)
Outcome bs (err e) = Unit
Outcome bs over_read = Unit
Outcome bs fault = ⊥

pub record Sound {A : Type 0} (p : Parser A) : Type 0 where
  pub run : (bs : List ℕ) → Outcome bs (p bs)

Outcome-rest :
    {B : Type 0} (bs used rest : List ℕ) (r : Result (B × List ℕ))
    → bs ≡ used ++ rest
    → Outcome rest r
    → Outcome bs r
Outcome-rest bs used rest (ok (c, left)) e (more, e') =
    (used ++ more, rw (e, e', append_assoc used more left))
Outcome-rest bs used rest (err x) e h = tt
Outcome-rest bs used rest over_read e h = tt
Outcome-rest bs used rest fault e h = h

varint_outcome : (b : ℕ) (bs : List ℕ) → Outcome (b ∷ bs) (varint (b ∷ bs))
unfolding varint
varint_outcome b bs = elim (Bool-cases (ltb (length (b ∷ bs)) (varint_len b))) [
  | inl short ↦ rw short tt
  | inr long ↦ rw long (take n (b ∷ bs), sym (take-append-drop n (b ∷ bs)))
]
  where
    n : ℕ
    n = varint_len b

copy_outcome : (room len : ℕ) (bs : List ℕ) → len ≤ room → Outcome bs (copy_data room len bs)
unfolding copy_data
copy_outcome room len bs h =
    let fits : ltb room len ≡ false = ground arith in
    elim (Bool-cases (ltb (length bs) len)) [
      | inl short ↦ rw short tt
      | inr long ↦ rw (long, fits) (take len bs, sym (take-append-drop len bs))
    ]

pub Outcome-bind :
    {A B : Type 0} (bs : List ℕ) (r : Result (A × List ℕ)) (k : A → Parser B)
    → Outcome bs r
    → ((a : A) → Sound (k a))
    → Outcome bs
        (elim r [ ok (a, rest) ↦ k a rest | err e ↦ err e | over_read ↦ over_read | fault ↦ fault ])
Outcome-bind bs (ok (a, rest)) k (used, e) h =
    Outcome-rest bs used rest (k a rest) e ((h a).run rest)
Outcome-bind bs (err e) k h hk = tt
Outcome-bind bs over_read k h hk = tt
Outcome-bind bs fault k h hk = h

pub >>=-Sound :
    {A B : Type 0} (p : Parser A) (k : A → Parser B)
    → Sound p
    → ((a : A) → Sound (k a))
    → Sound (p >>= k)
>>=-Sound p k u v = record { run = λ bs. Outcome-bind bs (p bs) k (u.run bs) v }

pub pure-Sound : {A : Type 0} (a : A) → Sound (pure a)
pure-Sound a = record { run = λ bs. ([], refl) }

pub if-Sound :
    {A : Type 0} (b : Bool) (p q : Parser A) → Sound p → Sound q → Sound (if b then p else q)
if-Sound true p q u v = u
if-Sound false p q u v = v

pub varint-Sound : Sound varint
unfolding varint
varint-Sound = record { run = go }
  where
    go : (bs : List ℕ) → Outcome bs (varint bs)
    go [] = tt
    go (b ∷ bs) = varint_outcome b bs

pub copy_data-Sound : (room len : ℕ) → len ≤ room → Sound (copy_data room len)
unfolding copy_data
copy_data-Sound room len h = record { run = λ bs. copy_outcome room len bs h }

pub alloc-Sound : (granted : Bool) (n : ℕ) → Sound (alloc granted n n)
unfolding alloc
alloc-Sound true n = record {
  run = λ bs. let e : ltb n n ≡ false = ground arith in rw e ([], refl);
}
alloc-Sound false n = record { run = λ bs. tt }

pub remaining-Sound : Sound remaining
unfolding remaining
remaining-Sound = record { run = λ bs. ([], refl) }

pub require-Sound : (test : Bool) → Sound (require test)
unfolding require
require-Sound true = record { run = λ bs. ([], refl) }
require-Sound false = record { run = λ bs. tt }

pub len_byte-Sound : Sound len_byte
unfolding len_byte
len_byte-Sound = record { run = go }
  where
    go : (bs : List ℕ) → Outcome bs (len_byte bs)
    go [] = tt
    go (b ∷ bs) = (b ∷ [], refl)

pub ranges_parse-Sound : (n : ℕ) → Sound (ranges_parse n)
unfolding ranges_parse
ranges_parse-Sound zero = pure-Sound []
ranges_parse-Sound (suc n) = >>=-Sound _ _ varint-Sound λ gap.
    >>=-Sound _ _ varint-Sound λ len. >>=-Sound _ _ (ranges_parse-Sound n) λ more. pure-Sound _

pub ect_parse-Sound : Sound ect_parse
unfolding ect_parse
ect_parse-Sound =
    >>=-Sound _ _ varint-Sound
      λ a. >>=-Sound _ _ varint-Sound λ b. >>=-Sound _ _ varint-Sound λ c. pure-Sound _

-- A frame's parser behind its first byte.
pub after_first :
    {A : Type 0} (k : ℕ → Parser A) (b : ℕ) (bs : List ℕ)
    → Sound (k b)
    → Outcome (b ∷ bs) ((first_byte >>= k) (b ∷ bs))
unfolding first_byte
after_first k b bs u = Outcome-rest (b ∷ bs) (b ∷ []) bs (k b bs) refl (u.run bs)
