-- ===== src/TransportParameter/Items.antt =====
-- The loop of quic_transport_parameter_parse, one parameter at a time.
use openquic.Common.{
  ℕ, zero, suc, ◌+◌, ◌*◌, ◌/◌, ◌%◌, ◌^◌, ◌≤◌, ◌<◌, ◌≡◌, refl, inl, inr, arith, Bool, true, false,
  List, [], ◌∷◌, ◌++◌, Option, some, length, length-append, drop, take-append, drop-append, ltb,
  lt→ltb, ◌==◌, if◌then◌else◌, Bool-cases,
}
use openquic.Varint.{varint_format_len, be_bytes, varint_bytes}
use openquic.Varint.RoundTrip.{IsVarint, Encodes, varint_bytes-Encodes}
use openquic.Frame.Wire.{Parser, Result, ok, err, over_read, fault, ◌>>=◌, pure}
use openquic.TransportParameter.{
  TransportParameter, u16, skip_len, load_varint, varint_parse, string_body, string_parse,
  bool_parse, param_parse, params_parse,
}

-- What a parser leaves is no longer than what it was given.
abbrev pub Shrinks : {A : Type 0} → Parser A → Type 0
Shrinks {A} p =
    (bs : List ℕ) (a : A) (rest : List ℕ) → p bs ≡ ok (a, rest) → length rest ≤ length bs

Shrinks-bind :
    {A B : Type 0} (p : Parser A) (k : A → Parser B)
    → Shrinks p
    → ((a : A) → Shrinks (k a))
    → Shrinks (p >>= k)
Shrinks-bind {A} {B} p k h g bs b rest e = go (p bs) refl e
  where
    go :
        (r : Result (A × List ℕ))
        → p bs ≡ r
        → elim r [
          | ok (a, rest') ↦ k a rest'
          | err c ↦ err c
          | over_read ↦ over_read
          | fault ↦ fault
        ]
          ≡ ok (b, rest)
        → length rest ≤ length bs
    go (ok (a, rest')) d e' = omega (arith, h bs a rest' d, g a rest' b rest e')
    go (err c) d e' = cc
    go over_read d e' = cc
    go fault d e' = cc

Shrinks-pure : {A : Type 0} (a : A) → Shrinks (pure a)
Shrinks-pure a bs a' rest e = ground arith

Shrinks-if :
    {A : Type 0} (t : Bool) (p q : Parser A) → Shrinks p → Shrinks q → Shrinks (if t then p else q)
Shrinks-if true p q h g = h
Shrinks-if false p q h g = g

drop_le : {A : Type 0} (n : ℕ) (xs : List A) → length (drop n xs) ≤ length xs
drop_le zero xs = omega arith
drop_le (suc n) [] = omega arith
drop_le (suc n) (x ∷ xs) = omega (arith, drop_le n xs)

Shrinks-skip_len : Shrinks skip_len
unfolding skip_len
Shrinks-skip_len bs a rest e = ground (arith, drop_le 2 bs)

Shrinks-load_varint : Shrinks load_varint
unfolding load_varint
Shrinks-load_varint [] a rest e = cc
Shrinks-load_varint (b ∷ bs) a rest e =
    ground (arith, drop_le (openquic.Varint.varint_len b) (b ∷ bs))

Shrinks-u16 : Shrinks u16
unfolding u16
Shrinks-u16 [] a rest e = cc
Shrinks-u16 (b ∷ []) a rest e = cc
Shrinks-u16 (b ∷ c ∷ bs) a rest e = ground arith

Shrinks-string_body : (granted : ℕ → Bool) (len : ℕ) → Shrinks (string_body granted len)
unfolding string_body
Shrinks-string_body granted len bs a rest e = ground (arith, drop_le len bs)

Shrinks-varint_parse : Shrinks varint_parse
unfolding varint_parse
Shrinks-varint_parse = Shrinks-bind skip_len _ Shrinks-skip_len (λ a. Shrinks-load_varint)

Shrinks-string_parse : (granted : ℕ → Bool) → Shrinks (string_parse granted)
unfolding string_parse
Shrinks-string_parse granted = Shrinks-bind u16 _ Shrinks-u16 (Shrinks-string_body granted)

Shrinks-bool_parse : Shrinks bool_parse
unfolding bool_parse
Shrinks-bool_parse = Shrinks-bind skip_len _ Shrinks-skip_len (λ a. Shrinks-pure true)

Shrinks-number : {A : Type 0} (f : ℕ → A) → Shrinks (varint_parse >>= λ v. pure (f v))
Shrinks-number f = Shrinks-bind varint_parse _ Shrinks-varint_parse (λ v. Shrinks-pure (f v))

Shrinks-text :
    {A : Type 0} (granted : ℕ → Bool) (f : Option (List ℕ) → A)
    → Shrinks (string_parse granted >>= λ v. pure (f v))
Shrinks-text granted f =
    Shrinks-bind (string_parse granted) _ (Shrinks-string_parse granted) (λ v. Shrinks-pure (f v))

Shrinks-param_parse :
    (granted : ℕ → Bool) (p : TransportParameter) (id : ℕ) → Shrinks (param_parse granted p id)
unfolding param_parse
Shrinks-param_parse granted p id = Shrinks-if (id == 0x00) _ _ (Shrinks-text granted _) (
    Shrinks-if (id == 0x01) _ _ (Shrinks-number _) (
      Shrinks-if (id == 0x02) _ _ (Shrinks-text granted _) (
        Shrinks-if (id == 0x03) _ _ (Shrinks-number _) (
          Shrinks-if (id == 0x04) _ _ (Shrinks-number _) (
            Shrinks-if (id == 0x05) _ _ (Shrinks-number _) (
              Shrinks-if (id == 0x06) _ _ (Shrinks-number _) (
                Shrinks-if (id == 0x07) _ _ (Shrinks-number _) (
                  Shrinks-if (id == 0x08) _ _ (Shrinks-number _) (
                    Shrinks-if (id == 0x09) _ _ (Shrinks-number _) (
                      Shrinks-if (id == 0x0a) _ _ (Shrinks-number _) (
                        Shrinks-if (id == 0x0b) _ _ (Shrinks-number _) (
                          Shrinks-if (id == 0x0c) _ _
                            (Shrinks-bind bool_parse _ Shrinks-bool_parse
                              (λ v. Shrinks-pure (record p { disable_migration = v })))
                            (Shrinks-if (id == 0x0e) _ _
                              (Shrinks-number (λ v. record p { active_connid = v }))
                              (Shrinks-pure p))))))))))))))

-- One round reads two bytes at least.
round_shrinks :
    (granted : ℕ → Bool) (p q : TransportParameter) (bs rest : List ℕ)
    → (u16 >>= param_parse granted p) bs ≡ ok (q, rest)
    → length rest + 2 ≤ length bs
unfolding u16
round_shrinks granted p q [] rest e = cc
round_shrinks granted p q (a ∷ []) rest e = cc
round_shrinks granted p q (a ∷ b ∷ bs) rest e =
    omega (arith, Shrinks-param_parse granted p (a * 256 + b) bs q rest e)

-- With as much fuel as bytes, the loop of quic_transport_parameter_parse ends by its own test:
-- any more fuel changes nothing.
pub params_parse_enough :
    (granted : ℕ → Bool) (f g : ℕ) (p : TransportParameter) (bs : List ℕ)
    → length bs ≤ f
    → length bs ≤ g
    → params_parse granted f p bs ≡ params_parse granted g p bs
unfolding params_parse
params_parse_enough granted zero zero p bs h k = refl
params_parse_enough granted zero (suc g) p bs h k = ground arith
params_parse_enough granted (suc f) zero p bs h k = ground arith
params_parse_enough granted (suc f) (suc g) p bs h k = elim (Bool-cases (ltb (length bs) 4)) [
  | inl short ↦ rw (short, params_parse)
  | inr more ↦
      rw (more, params_parse)
        (go ((u16 >>= param_parse granted p) bs) refl (params_parse_enough granted f g))
]
  where
    go :
        (r : Result (TransportParameter × List ℕ))
        → (u16 >>= param_parse granted p) bs ≡ r
        → ((p' : TransportParameter) (rest : List ℕ)
            → length rest ≤ f
            → length rest ≤ g
            → params_parse granted f p' rest ≡ params_parse granted g p' rest)
        → elim r [
          | ok (p', rest) ↦ params_parse granted f p' rest
          | err e ↦ err e
          | over_read ↦ over_read
          | fault ↦ fault
        ]
          ≡ elim r [
            | ok (p', rest) ↦ params_parse granted g p' rest
            | err e ↦ err e
            | over_read ↦ over_read
            | fault ↦ fault
          ]
    go (ok (p', rest)) e same =
        same p' rest (omega (arith, round_shrinks granted p p' bs rest e))
          (omega (arith, round_shrinks granted p p' bs rest e))
    go (err e) d same = refl
    go over_read d same = refl
    go fault d same = refl

-- The loop with the fuel that quic_transport_parameter_parse is given.
abbrev pub parsed : (ℕ → Bool) → TransportParameter → Parser TransportParameter
parsed granted p bs = params_parse granted (length bs) p bs

pub round :
    (granted : ℕ → Bool) (p q : TransportParameter) (id : ℕ) (a b : ℕ) (bs rest : List ℕ)
    → a * 256 + b ≡ id
    → 2 ≤ length bs
    → param_parse granted p id bs ≡ ok (q, rest)
    → parsed granted p (a ∷ b ∷ bs) ≡ parsed granted q rest
unfolding params_parse u16
round granted p q id a b bs rest i l e =
    let e' : param_parse granted p (a * 256 + b) bs ≡ ok (q, rest) = rw i e in
    let n : ltb (length (a ∷ b ∷ bs)) 4 ≡ false = ground arith in
    let s = Shrinks-param_parse granted p id bs q rest e in
    rw (n, params_parse)
      (rw e' (
        params_parse_enough granted (suc (length bs)) (length rest) q rest (omega arith)
          (omega arith)))

pub round-fault :
    (granted : ℕ → Bool) (p : TransportParameter) (id a b : ℕ) (bs : List ℕ)
    → a * 256 + b ≡ id
    → 2 ≤ length bs
    → param_parse granted p id bs ≡ fault
    → parsed granted p (a ∷ b ∷ bs) ≡ fault
unfolding params_parse u16
round-fault granted p id a b bs i l e =
    let e' : param_parse granted p (a * 256 + b) bs ≡ fault = rw i e in
    let n : ltb (length (a ∷ b ∷ bs)) 4 ≡ false = ground arith in rw (n, params_parse) (rw e')

-- Two bytes and what they were made of.
pub u16_bytes : (v : ℕ) → v < 2 ^ 16 → v / 256 ^ 1 % 256 * 256 + v / 256 ^ 0 % 256 ≡ v
u16_bytes v h = ground arith

pub load_varint-varint_bytes :
    (v : ℕ) (rest : List ℕ) → IsVarint v → load_varint (varint_bytes v ++ rest) ≡ ok (v, rest)
unfolding load_varint
load_varint-varint_bytes v rest h = go (varint_bytes-Encodes v h)
  where
    go : Encodes v (varint_bytes v) → load_varint (varint_bytes v ++ rest) ≡ ok (v, rest)
    go e = rw (e.shape) (
        ground (
          arith,
          e.announced,
          e.value rest,
          length-append e.others rest,
          drop-append (length e.others) e.others rest refl,
        ))

pub read_number :
    (v : ℕ) (x y : ℕ) (rest : List ℕ)
    → IsVarint v
    → varint_parse (x ∷ y ∷ (varint_bytes v ++ rest)) ≡ ok (v, rest)
unfolding varint_parse skip_len
read_number v x y rest h = load_varint-varint_bytes v rest h

pub read_text :
    (granted : ℕ → Bool) (v rest : List ℕ)
    → ((n : ℕ) → granted n ≡ true)
    → length v < 2 ^ 16
    → string_parse granted (be_bytes 2 (length v) ++ (v ++ rest)) ≡ ok (some v, rest)
unfolding string_parse u16 string_body be_bytes
read_text granted v rest g h = rw (u16_bytes (length v) h) (
    ground (
      arith,
      g (length (v ++ rest)),
      length-append v rest,
      take-append (length v) v rest refl,
      drop-append (length v) v rest refl,
    ))

-- The loop ends where fewer than 4 bytes are left.
pub parsed_short :
    (granted : ℕ → Bool) (p : TransportParameter) (bs : List ℕ)
    → length bs < 4
    → parsed granted p bs ≡ ok (p, bs)
unfolding params_parse
parsed_short granted p [] h = refl
parsed_short granted p (x ∷ xs) h = rw (lt→ltb (length (x ∷ xs)) 4 h, params_parse)
