-- ===== src/Header/Offset.antt =====
-- quic_header_packet_number_off, which the sealer uses, against the parsers of headers, which the
-- receiver uses.
use openquic.Common.{ℕ, ◌≡◌, refl, ap, sym, ◌∙◌, List, ◌∷◌, some}
use openquic.Frame.Wire.{Parser, Result, ok, err, over_read, fault, ◌>>=◌, pure, first_byte}
use openquic.TransportParameter.{load_varint}
use openquic.Header.{
  step, conn, LongHeader, long_header, packet_number, Payload, initial_header, plain_header,
  short_header, initial_off, handshake_off, short_off, packet_number_off,
}

-- Where a chain succeeds, its first part does, and then the rest.
bind-ok :
    {A B C : Type 0} (p : Parser A) (k : A → Parser B) (bs rest : List ℕ) (b : B)
    → (p >>= k) bs ≡ ok (b, rest)
    → ((a : A) (mid : List ℕ) → p bs ≡ ok (a, mid) → k a mid ≡ ok (b, rest) → C)
    → C
bind-ok {A} {B} {C} p k bs rest b e next = go (p bs) refl e
  where
    go :
        (r : Result (A × List ℕ))
        → p bs ≡ r
        → elim r [
          | ok (a, rest') ↦ k a rest'
          | err c ↦ err c
          | over_read ↦ over_read
          | fault ↦ fault
        ]
          ≡ ok (b, rest)
        → C
    go (ok (a, mid)) d e' = next a mid d e'
    go (err c) d e' = cc
    go over_read d e' = cc
    go fault d e' = cc

pub bind-lem :
    {A B : Type 0} (p : Parser A) (k : A → Parser B) (bs mid : List ℕ) (a : A)
    → p bs ≡ ok (a, mid)
    → (p >>= k) bs ≡ k a mid
bind-lem p k bs mid a d = rw (d, ◌>>=◌)

pure-ok :
    {A : Type 0} (a b : A) (bs rest : List ℕ) → pure a bs ≡ ok (b, rest) → (a ≡ b) × (bs ≡ rest)
pure-ok a b bs rest e = (cc, cc)

first_lem :
    (first : ℕ) (bs rest : List ℕ) (h : LongHeader)
    → long_header (first ∷ bs) ≡ ok (h, rest)
    → h.first_byte ≡ first
unfolding long_header first_byte
first_lem first bs rest h e = bind-ok (step 4) _ bs rest h e (λ version a d e1.
    bind-ok conn _ a rest h e1 (λ dst b d' e2.
      bind-ok conn _ b rest h e2
        (λ src c d'' e3. ap (λ x. x.first_byte) (sym (pure-ok _ h c rest e3).0))))

-- The number at a pointer, and the parser that ends with it.
number_lem :
    (f : ℕ → Payload) (first first' : ℕ) (at rest : List ℕ) (p : Payload)
    → ((n : ℕ) → (f n).p_num ≡ n)
    → first' ≡ first
    → (packet_number first' >>= λ num. pure (f num)) at ≡ ok (p, rest)
    → packet_number first at ≡ ok (p.p_num, rest)
number_lem f first first' at rest p num_lem same e =
    bind-ok (packet_number first') _ at rest p e (λ num left d e1.
      let (u, v) = pure-ok (f num) p left rest e1 in
      ap (λ x. packet_number x at) (sym same)
      ∙ d
      ∙ ap (λ x. ok (x, left)) (sym (num_lem num) ∙ ap (λ x. x.p_num) u)
      ∙ ap (λ x. ok (p.p_num, x)) v)

-- Where a packet's number is found by a parser and by quic_header_packet_number_off.
abbrev pub Found : ℕ → ℕ → List ℕ → Payload → List ℕ → Type 0
Found src_len first bs p rest =
    (at : List ℕ) × (packet_number_off src_len (first ∷ bs) ≡ ok (some first, at))
    × (packet_number first at ≡ ok (p.p_num, rest))

pub initial_lem :
    (first : ℕ) (bs rest : List ℕ) (p : Payload)
    → initial_header (first ∷ bs) ≡ ok (p, rest)
    → (at : List ℕ) × (initial_off (first ∷ bs) ≡ ok (some first, at))
      × (packet_number first at ≡ ok (p.p_num, rest))
unfolding initial_off initial_header
initial_lem first bs rest p e = bind-ok long_header _ (first ∷ bs) rest p e (λ h a d1 e1.
    bind-ok load_varint _ a rest p e1 (λ n b d2 e2. bind-ok (step n) _ b rest p e2 (λ token c d3 e3.
      bind-ok load_varint _ c rest p e3 (λ len at d4 e4. (
        at,
        bind-lem long_header _ (first ∷ bs) a h d1
            ∙ bind-lem load_varint _ a b n d2
            ∙ bind-lem (step n) _ b c token d3
            ∙ bind-lem load_varint _ c at len d4
            ∙ ap (λ x. ok (some x, at)) (first_lem first bs a h d1),
        number_lem _ first h.first_byte at rest p (λ num. refl) (first_lem first bs a h d1) e4,
      )))))

pub plain_lem :
    (kind first : ℕ) (bs rest : List ℕ) (p : Payload)
    → plain_header kind (first ∷ bs) ≡ ok (p, rest)
    → (at : List ℕ) × (handshake_off (first ∷ bs) ≡ ok (some first, at))
      × (packet_number first at ≡ ok (p.p_num, rest))
unfolding handshake_off plain_header
plain_lem kind first bs rest p e = bind-ok long_header _ (first ∷ bs) rest p e (λ h a d1 e1.
    bind-ok load_varint _ a rest p e1 (λ len at d2 e2. (
      at,
      bind-lem long_header _ (first ∷ bs) a h d1
          ∙ bind-lem load_varint _ a at len d2
          ∙ ap (λ x. ok (some x, at)) (first_lem first bs a h d1),
      number_lem _ first h.first_byte at rest p (λ num. refl) (first_lem first bs a h d1) e2,
    )))

pub short_lem :
    (src_len first : ℕ) (bs rest : List ℕ) (p : Payload)
    → short_header src_len (first ∷ bs) ≡ ok (p, rest)
    → (at : List ℕ) × (short_off src_len (first ∷ bs) ≡ ok (some first, at))
      × (packet_number first at ≡ ok (p.p_num, rest))
unfolding short_off short_header first_byte
short_lem src_len first bs rest p e = bind-ok (step src_len) _ bs rest p e (λ id at d1 e1. (
  at,
  bind-lem (step src_len) _ bs at id d1,
  number_lem _ first first at rest p (λ num. refl) refl e1,
))
