-- ===== src/Retransmission/Walk.antt =====
-- Which packets the loop over the ranges of an ACK frame finds.
use openquic.Common.{
  ℕ, ◌+◌, ◌-◌, ◌^◌, ◌≤◌, ◌<◌, inl, inr, Bool-cases, ◌≡◌, refl, ap, arith, false, List, [], ◌∷◌,
  ◌++◌, leb, if◌then◌else◌, ◌&&◌, sub64,
}
use openquic.Frame.{Ack, AckRange}
use openquic.Retransmission.{hits, acked_times}

-- How many of the range from `start` to `end` and of those that follow hold a packet number.
abbrev pub held : ℕ → ℕ → ℕ → List AckRange → ℕ
held key start end [] = if leb start key && leb key end then 1 else 0
held key start end (r ∷ rs) =
    let end' = sub64 (sub64 start r.gap) 2 in
    (if leb start key && leb key end then 1 else 0) + held key (sub64 end' r.len) end' rs

hits-held :
    (key start end : ℕ) (rs : List AckRange) (last : AckRange)
    → hits key start end (rs ++ last ∷ []) ≡ held key start end rs
unfolding hits
hits-held key start end [] last = refl
hits-held key start end (r ∷ []) last = refl
hits-held key start end (r ∷ next ∷ rs) last =
    let end' : ℕ = sub64 (sub64 start r.gap) 2 in
    ap (λ n. (if leb start key && leb key end then 1 else 0) + n)
      (hits-held key (sub64 end' r.len) end' (next ∷ rs) last)

-- Of an ACK frame with further ranges, the walk of quic_retransmission_find_newly_acked finds
-- just the packet numbers in its first range and in all further ranges but the last: what only
-- the last range acknowledges stays in flight.
pub acked_times-skips_last :
    (key : ℕ) (f : Ack) (rs : List AckRange) (last : AckRange)
    → f.ranges ≡ rs ++ last ∷ []
    → acked_times key f ≡ held key (sub64 f.largest_ack f.first_range) f.largest_ack rs
unfolding acked_times
acked_times-skips_last key f rs last e =
    rw e (hits-held key (sub64 f.largest_ack f.first_range) f.largest_ack rs last)

-- Each range of the frame lies below the one before, without wrapping below 0.
abbrev pub Descending : ℕ → List AckRange → Type 0
Descending start [] = Unit
Descending start (r ∷ rs) =
    (r.gap + 2 + r.len ≤ start) × Descending (start - (r.gap + 2 + r.len)) rs

hits_above :
    (key start end : ℕ) (rs : List AckRange)
    → Descending start rs
    → start ≤ end
    → end < 2 ^ 64
    → end < key
    → hits key start end rs ≡ 0
unfolding hits
hits_above key start end [] d l w h = ground arith
hits_above key start end (r ∷ []) d l w h = ground arith
hits_above key start end (r ∷ next ∷ rs) (d0, d) l w h =
    let e : sub64 (sub64 (sub64 start r.gap) 2) r.len ≡ start - (r.gap + 2 + r.len) = omega arith in
    let rest =
      hits_above key (start - (r.gap + 2 + r.len)) (sub64 (sub64 start r.gap) 2) (next ∷ rs) d
        (omega arith) (omega arith) (omega arith) in
    let out : (leb start key && leb key end) ≡ false = ground arith in
    rw (e, out) (omega (arith, rest))

hits_le_one :
    (key start end : ℕ) (rs : List AckRange)
    → Descending start rs
    → start ≤ end
    → end < 2 ^ 64
    → hits key start end rs ≤ 1
unfolding hits
hits_le_one key start end [] d l w = ground arith
hits_le_one key start end (r ∷ []) d l w = ground arith
hits_le_one key start end (r ∷ next ∷ rs) (d0, d) l w =
    let e : sub64 (sub64 (sub64 start r.gap) 2) r.len ≡ start - (r.gap + 2 + r.len) = omega arith in
    let end' : ℕ = sub64 (sub64 start r.gap) 2 in
    elim (Bool-cases (leb start key && leb key end)) [
      | inl here ↦
          rw (e, here)
            (omega (
              arith,
              hits_above key (start - (r.gap + 2 + r.len)) end' (next ∷ rs) d (omega arith)
                  (omega arith) (ground arith),
            ))
      | inr elsewhere ↦
          rw (e, elsewhere)
            (omega (
              arith,
              hits_le_one key (start - (r.gap + 2 + r.len)) end' (next ∷ rs) d (omega arith)
                  (omega arith),
            ))
    ]

-- Where the ranges of a frame descend without wrapping, from a largest number below 2 ^ 62 on, no
-- packet number is found twice.
pub acked_times_le_one :
    (key : ℕ) (f : Ack)
    → f.first_range ≤ f.largest_ack
    → f.largest_ack < 2 ^ 62
    → Descending (f.largest_ack - f.first_range) f.ranges
    → acked_times key f ≤ 1
unfolding acked_times
acked_times_le_one key f h w d =
    let e : sub64 f.largest_ack f.first_range ≡ f.largest_ack - f.first_range = omega arith in
    rw e (
      hits_le_one key (f.largest_ack - f.first_range) f.largest_ack f.ranges d (omega arith)
        (omega arith))
