-- ===== src/Frame/Carry.antt =====
-- A writer and a parser that undo each other, put together step by step as the frames of
-- src/format/frame.c are.
use openquic.Common.{
  ℕ, suc, ◌+◌, ◌≤◌, ◌<◌, ◌≡◌, refl, ap, ◌∙◌, inl, inr, arith, true, List, [], ◌∷◌, ◌++◌, append-nil,
  append_assoc, length, length-append, take_all, take-append, drop-append, ltb, Bool-cases, Err,
  bad_format,
}
use openquic.Frame.Wire.{
  Parser, ok, ◌>>=◌, pure, first_byte, varint, copy_data, alloc, Buf, done, failed, Writer, ◌>>◌,
  skip, push, put_byte, put_varint, put_data,
}
use openquic.Varint.{varint_format_len, varint_bytes}
use openquic.Varint.RoundTrip.{IsVarint, Encodes, varint_bytes-Encodes, length-varint_bytes}

-- Given room for `bs` a writer appends just them; given less it fails with `bad_format`.
pub record Writes (w : Writer) (bs : List ℕ) : Type 0 where
  pub fits : (b : Buf) → length bs ≤ b.room → w b ≡ done (push bs b)
  pub full : (b : Buf) → b.room < length bs → (b' : Buf) × (w b ≡ failed bad_format b')

-- A parser takes `bs` from the front of its input, whatever follows.
abbrev pub Reads : {A : Type 0} → Parser A → List ℕ → A → Type 0
Reads p bs a = (rest : List ℕ) → p (bs ++ rest) ≡ ok (a, rest)

pub record Carries {A : Type 0} (w : Writer) (p : Parser A) (a : A) (n : ℕ) : Type 0 where
  pub bytes : List ℕ
  pub writes : Writes w bytes
  pub reads : Reads p bytes a
  pub size : length bytes ≡ n

pub push-push : (bs cs : List ℕ) (b : Buf) → push cs (push bs b) ≡ push (bs ++ cs) b
push-push bs cs b = ground (arith, append_assoc b.out bs cs, length-append bs cs)

pub >>-done : (w k : Writer) {b b' : Buf} → w b ≡ done b' → (w >> k) b ≡ k b'
>>-done w k h = rw (h, ◌>>◌)

pub >>-failed : (w k : Writer) {e : Err} {b b' : Buf} → w b ≡ failed e b' → (w >> k) b ≡ failed e b'
>>-failed w k h = rw (h, ◌>>◌)

Writes-seq :
    (w k : Writer) (bs cs : List ℕ) → Writes w bs → Writes k cs → Writes (w >> k) (bs ++ cs)
Writes-seq w k bs cs u v = record {
  fits = λ b h.
      >>-done w k (u.fits b (omega (arith, length-append bs cs)))
      ∙ v.fits (push bs b) (omega (arith, length-append bs cs))
      ∙ ap done (push-push bs cs b);
  full = λ b h. elim (Bool-cases (ltb b.room (length bs))) [
    | inl short ↦ let (b', e) = u.full b (ground arith) in (b', >>-failed w k e)
    | inr long ↦
        let (b', e) = v.full (push bs b) (ground (arith, length-append bs cs)) in
        (b', >>-done w k (u.fits b (ground arith)) ∙ e)
  ];
}

>>=-Reads :
    {A B : Type 0} (p : Parser A) (k : A → Parser B) (bs cs : List ℕ) {a : A} {c : B}
    → Reads p bs a
    → Reads (k a) cs c
    → Reads (p >>= k) (bs ++ cs) c
>>=-Reads p k bs cs u v rest = rw (append_assoc bs cs rest) (rw (u (cs ++ rest), ◌>>=◌) (v rest))

pub Carries-seq :
    {A B : Type 0} (w w' : Writer) (p : Parser A) (k : A → Parser B) {a : A} {c : B} {n m : ℕ}
    → Carries w p a n
    → Carries w' (k a) c m
    → Carries (w >> w') (p >>= k) c (n + m)
Carries-seq w w' p k u v = record {
  bytes = u.bytes ++ v.bytes;
  writes = Writes-seq w w' u.bytes v.bytes u.writes v.writes;
  reads = >>=-Reads p k u.bytes v.bytes u.reads v.reads;
  size = omega (arith, length-append u.bytes v.bytes, u.size, v.size);
}

-- What a parser does behind the last byte that it takes.
pub Carries-last :
    {A B : Type 0} {w : Writer} {p : Parser A} (k : A → Parser B) {a : A} {c : B} {n : ℕ}
    → Carries w p a n
    → Reads (k a) [] c
    → Carries w (p >>= k) c n
Carries-last k u v = record {
  bytes = u.bytes;
  writes = u.writes;
  reads = λ rest. rw (u.reads rest, ◌>>=◌) (v rest);
  size = u.size;
}

-- A step of a parser that takes no byte.
pub Carries-quiet :
    {A B : Type 0} {w : Writer} {p : Parser A} (k : A → Parser B) {a : A} {c : B} {n : ℕ}
    → Reads p [] a
    → Carries w (k a) c n
    → Carries w (p >>= k) c n
Carries-quiet k v u = record {
  bytes = u.bytes;
  writes = u.writes;
  reads = λ rest. rw (v (u.bytes ++ rest), ◌>>=◌) (u.reads rest);
  size = u.size;
}

pub Carries-resize :
    {A : Type 0} {w : Writer} {p : Parser A} {a : A} {n m : ℕ}
    → n ≡ m
    → Carries w p a n
    → Carries w p a m
Carries-resize e u = record {
  bytes = u.bytes;
  writes = u.writes;
  reads = u.reads;
  size = u.size ∙ e;
}

pub Carries-nothing : {A : Type 0} (a : A) → Carries skip (pure a) a 0
Carries-nothing a = record {
  bytes = [];
  writes = record {
    fits = λ b h. ground (arith, append-nil b.out);
    full = λ b h. absurd (omega arith);
  };
  reads = λ rest. refl;
  size = refl;
}

Writes-put_varint : (v : ℕ) → Writes (put_varint v) (varint_bytes v)
unfolding put_varint
Writes-put_varint v = record {
  fits = λ b h. ground (arith, length-varint_bytes v);
  full = λ b h. (b, ground (arith, length-varint_bytes v));
}

pub Reads-varint : (v : ℕ) → IsVarint v → Reads varint (varint_bytes v) v
unfolding varint
Reads-varint v h rest = go (varint_bytes-Encodes v h)
  where
    go : Encodes v (varint_bytes v) → varint (varint_bytes v ++ rest) ≡ ok (v, rest)
    go e = rw (e.shape) (
        ground (
          arith,
          e.announced,
          e.value rest,
          length-append e.others rest,
          drop-append (length e.others) e.others rest refl,
        ))

pub Carries-varint : (v : ℕ) → IsVarint v → Carries (put_varint v) varint v (varint_format_len v)
Carries-varint v h = record {
  bytes = varint_bytes v;
  writes = Writes-put_varint v;
  reads = Reads-varint v h;
  size = length-varint_bytes v;
}

-- A payload of the announced length, and memory for it.
pub Carries-data :
    (len room : ℕ) (src : List ℕ)
    → length src ≡ len
    → len ≤ room
    → Carries (put_data len src) (copy_data room len) src len
unfolding put_data copy_data
Carries-data len room src e h = record {
  bytes = src;
  writes = record {
    fits = λ b f. ground (arith, take_all len src e);
    full = λ b f. (b, ground arith);
  };
  reads = λ rest.
      ground
        (arith, length-append src rest, take-append len src rest e, drop-append len src rest e);
  size = e;
}

pub Reads-alloc : (n : ℕ) → Reads (alloc true n n) [] tt
unfolding alloc
Reads-alloc n rest = ground arith

-- A frame: its first byte, and what follows that.
pub record Framed {A : Type 0} (w : Writer) (p : Parser A) (first : ℕ) (a : A) (n : ℕ)
    : Type 0 where
  pub more : List ℕ
  pub writes : Writes w (first ∷ more)
  pub reads : Reads p (first ∷ more) a
  pub size : suc (length more) ≡ n

pub Writes-put_byte : (x : ℕ) → Writes (put_byte x) (x ∷ [])
unfolding put_byte
Writes-put_byte x = record { fits = λ b h. ground arith; full = λ b h. (b, ground arith) }

pub Framed-intro :
    {A : Type 0} {w : Writer} (first : ℕ) (k : ℕ → Parser A) {a : A} {n m : ℕ}
    → Carries w (k first) a n
    → suc n ≡ m
    → Framed (put_byte first >> w) (first_byte >>= k) first a m
unfolding first_byte
Framed-intro {w = w} first k u e = record {
  more = u.bytes;
  writes = Writes-seq (put_byte first) w (first ∷ []) u.bytes (Writes-put_byte first) u.writes;
  reads = u.reads;
  size = omega (arith, u.size, e);
}

-- A frame that is its first byte alone.
pub Framed-byte :
    {A : Type 0} (first : ℕ) (k : ℕ → Parser A) {a : A}
    → Reads (k first) [] a
    → Framed (put_byte first) (first_byte >>= k) first a 1
unfolding first_byte
Framed-byte first k h = record { more = []; writes = Writes-put_byte first; reads = h; size = refl }
