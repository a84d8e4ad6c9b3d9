-- ===== src/Sender/Bytes.antt =====
-- The pieces of a header, written and read.
use openquic.Common.{
  ℕ, ◌+◌, ◌%◌, ◌≤◌, ◌<◌, ◌≡◌, refl, ap, ◌∙◌, arith, List, [], ◌∷◌, ◌++◌, append_assoc, length,
  length-append, take, take_all, take-append, drop-append, false, ltb,
}
use openquic.Varint.{be_bytes, read_be}
use openquic.Frame.Wire.{ok, Buf, done, Writer, ◌>>◌, push, first_byte}
use openquic.Frame.Carry.{push-push, >>-done}
use openquic.TransportParameter.{load_varint}
use openquic.Header.{
  step, conn, LongHeader, long_header, packet_number, initial_header, plain_header, short_header,
}
use openquic.Header.Offset.{bind-lem}
use openquic.Sender.{store, store_conn, generate_long_header}

-- Given room for them, a writer appends just `bs`.
abbrev pub Stores : Writer → List ℕ → Type 0
Stores w bs = (b : Buf) → length bs ≤ b.room → w b ≡ done (push bs b)

pub store-Stores : (bs : List ℕ) → Stores (store bs) bs
unfolding store
store-Stores bs b h = ground arith

pub Stores-seq :
    (w k : Writer) (bs cs : List ℕ) → Stores w bs → Stores k cs → Stores (w >> k) (bs ++ cs)
Stores-seq w k bs cs u v b h =
    >>-done w k (u b (omega (arith, length-append bs cs)))
    ∙ v (push bs b) (omega (arith, length-append bs cs))
    ∙ ap done (push-push bs cs b)

store_conn-Stores : (c : List ℕ) → length c < 256 → Stores (store_conn c) (length c ∷ c)
unfolding store_conn
store_conn-Stores c h b r =
    let m : length c % 256 ≡ length c = omega arith in
    let t : take (length c) c ≡ c = take_all (length c) c refl in
    let fits : ltb b.room (1 + length c) ≡ false = ground arith in
    rw (fits, m, t) (store-Stores (length c ∷ c) b r)

pub step-append : (bs rest : List ℕ) → step (length bs) (bs ++ rest) ≡ ok (bs, rest)
unfolding step
step-append bs rest = ground (
  arith,
  length-append bs rest,
  take-append (length bs) bs rest refl,
  drop-append (length bs) bs rest refl,
)

conn-append : (c rest : List ℕ) → conn (length c ∷ (c ++ rest)) ≡ ok (c, rest)
unfolding conn first_byte
conn-append c rest = step-append c rest

-- The bytes of a long header, up to its payload.
abbrev pub long_bytes : List ℕ → List ℕ → ℕ → List ℕ
long_bytes dst src first = ((first ∷ be_bytes 4 0) ++ (length dst ∷ dst)) ++ (length src ∷ src)

pub long-Stores :
    (dst src : List ℕ) (first : ℕ)
    → length dst < 256
    → length src < 256
    → Stores (generate_long_header dst src first) (long_bytes dst src first)
unfolding generate_long_header
long-Stores dst src first h h' =
    Stores-seq _ _ _ _
      (Stores-seq _ _ _ _ (store-Stores (first ∷ be_bytes 4 0)) (store_conn-Stores dst h))
      (store_conn-Stores src h')

long_chain :
    (first : ℕ) (m0 m1 m2 m3 v dst src : List ℕ)
    → step 4 m0 ≡ ok (v, m1)
    → conn m1 ≡ ok (dst, m2)
    → conn m2 ≡ ok (src, m3)
    → long_header (first ∷ m0)
      ≡ ok (record { first_byte = first; version = read_be 0 4 v; dst = dst; src = src }, m3)
unfolding long_header first_byte
long_chain first m0 m1 m2 m3 v dst src a b c =
    bind-lem (step 4) _ m0 m1 v a ∙ bind-lem conn _ m1 m2 dst b ∙ bind-lem conn _ m2 m3 src c

pub initial_chain :
    (bs m1 m2 m3 m4 rest token : List ℕ) (h : LongHeader) (n num len : ℕ)
    → long_header bs ≡ ok (h, m1)
    → load_varint m1 ≡ ok (n, m2)
    → step n m2 ≡ ok (token, m3)
    → load_varint m3 ≡ ok (len, m4)
    → packet_number h.first_byte m4 ≡ ok (num, rest)
    → initial_header bs
      ≡ ok (record { packet_type = 0xc0; token = token; payload_len = len; p_num = num }, rest)
unfolding initial_header
initial_chain bs m1 m2 m3 m4 rest token h n num len a b c d e =
    bind-lem long_header _ bs m1 h a
    ∙ bind-lem load_varint _ m1 m2 n b
    ∙ bind-lem (step n) _ m2 m3 token c
    ∙ bind-lem load_varint _ m3 m4 len d
    ∙ bind-lem (packet_number h.first_byte) _ m4 rest num e

pub plain_chain :
    (kind : ℕ) (bs m1 m2 rest : List ℕ) (h : LongHeader) (num len : ℕ)
    → long_header bs ≡ ok (h, m1)
    → load_varint m1 ≡ ok (len, m2)
    → packet_number h.first_byte m2 ≡ ok (num, rest)
    → plain_header kind bs
      ≡ ok (record { packet_type = kind; token = []; payload_len = len; p_num = num }, rest)
unfolding plain_header
plain_chain kind bs m1 m2 rest h num len a b c =
    bind-lem long_header _ bs m1 h a
    ∙ bind-lem load_varint _ m1 m2 len b
    ∙ bind-lem (packet_number h.first_byte) _ m2 rest num c

pub short_chain :
    (len first : ℕ) (m0 m1 rest id : List ℕ) (num : ℕ)
    → step len m0 ≡ ok (id, m1)
    → packet_number first m1 ≡ ok (num, rest)
    → short_header len (first ∷ m0)
      ≡ ok (record { packet_type = 0x40; token = []; payload_len = 0; p_num = num }, rest)
unfolding short_header first_byte
short_chain len first m0 m1 rest id num a b =
    bind-lem (step len) _ m0 m1 id a ∙ bind-lem (packet_number first) _ m1 rest num b

pub long-reads :
    (dst src : List ℕ) (first : ℕ) (rest : List ℕ)
    → long_header (long_bytes dst src first ++ rest)
      ≡ ok (record { first_byte = first; version = 0; dst = dst; src = src }, rest)
unfolding be_bytes read_be
long-reads dst src first rest =
    let e : long_bytes dst src first ++ rest
        ≡ first ∷ (be_bytes 4 0 ++ (length dst ∷ (dst ++ (length src ∷ (src ++ rest))))) =
      simp (append_assoc) in
    ap long_header e
    ∙ long_chain first _ _ _ rest (be_bytes 4 0) dst src
        (step-append (be_bytes 4 0) (length dst ∷ (dst ++ (length src ∷ (src ++ rest)))))
        (conn-append dst (length src ∷ (src ++ rest))) (conn-append src rest)
