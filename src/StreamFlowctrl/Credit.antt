-- ===== src/StreamFlowctrl/Credit.antt =====
-- What src/modules/stream_flowctrl.c promises to the sender, to the receiver and to the connection.
use openquic.Common.{
  ℕ, zero, suc, ◌+◌, ◌%◌, ◌^◌, ◌≤◌, ◌≡◌, refl, sym, inl, inr, arith, Bool, true, not, ◌&&◌, ◌||◌,
  List, [], ◌∷◌, All, none, some, ltb, leb, ◌==◌, Bool-cases, add64, IsU64,
}
use mathlib.Core.Option.{none-ne-some, some-injective}
use openquic.ConnFlowctrl
use openquic.ConnFlowctrl.{ConnFlowctrl}
use mathlib.Core.Path.{subst}
use openquic.StreamFlowctrl.Unsent.{Keeps, read-Keeps}
use openquic.StreamFlowctrl
use openquic.StreamFlowctrl.{
  Config, StreamFlowctrl, init, update_rwnd, update_swnd, get_swnd, sent, newly_blocked, tune,
  adjust_rwnd, count_read, is_low,
}

-- The states that a stream which sends no more than quic_stream_flowctrl_get_swnd allows comes to,
-- whatever it receives and reads.
pub data Reached (cfg : Config) : StreamFlowctrl → Type 0 where
  start : Reached cfg (init cfg)
  sends : {f : StreamFlowctrl} (n : ℕ) → n ≤ get_swnd f → Reached cfg f → Reached cfg (sent n f)
  granted :
      {f : StreamFlowctrl} (off : ℕ) → IsU64 off → Reached cfg f → Reached cfg (update_swnd off f)
  received :
      {f : StreamFlowctrl} (off : ℕ) (fin : Bool) (c : ConnFlowctrl)
      → Reached cfg f
      → Reached cfg (update_rwnd off fin f c).0
  read :
      {f f' : StreamFlowctrl} (rtt now len : ℕ) (c c' : ConnFlowctrl) (moved : Bool)
      → StreamFlowctrl.read cfg rtt now len f c ≡ some (f', c', moved)
      → Reached cfg f
      → Reached cfg f'
  blocked : {f : StreamFlowctrl} → Reached cfg f → Reached cfg (newly_blocked f).1

pub record InCredit (f : StreamFlowctrl) : Type 0 where
  pub within : f.sent_bytes ≤ f.swnd
  pub word : IsU64 f.swnd

received-InCredit :
    (off : ℕ) (fin : Bool) (f : StreamFlowctrl) (c : ConnFlowctrl)
    → InCredit f
    → InCredit (update_rwnd off fin f c).0
unfolding update_rwnd
received-InCredit off fin f c u =
    elim (Bool-cases (f.fin_flag && ((fin && not (off == f.recv_off)) || ltb f.recv_off off))) [
      | inl refused ↦ rw refused u
      | inr taken ↦ elim (Bool-cases (leb off f.recv_off)) [
        | inl old ↦ rw (taken, old) (record { within = u.within; word = u.word })
        | inr new ↦ rw (taken, new) (record { within = u.within; word = u.word })
      ]
    ]

blocked-InCredit : (f : StreamFlowctrl) → InCredit f → InCredit (newly_blocked f).1
unfolding newly_blocked
blocked-InCredit f u = elim (Bool-cases (not (get_swnd f == 0) || f.swnd == f.last_blocked_at)) [
  | inl not_so ↦ rw not_so u
  | inr so ↦ rw so (record { within = u.within; word = u.word })
]

read-InCredit :
    (cfg : Config) (rtt now len : ℕ) (f f' : StreamFlowctrl) (c c' : ConnFlowctrl) (moved : Bool)
    → StreamFlowctrl.read cfg rtt now len f c ≡ some (f', c', moved)
    → InCredit f
    → InCredit f'
unfolding Keeps
read-InCredit cfg rtt now len f f' c c' moved e u =
    let (k, k') = subst (Keeps f) e (read-Keeps cfg rtt now len f c) in
    record { within = omega (arith, u.within); word = omega (arith, u.word) }

pub Reached-InCredit :
    {cfg : Config} {f : StreamFlowctrl} → IsU64 cfg.stream_initial_swnd → Reached cfg f → InCredit f
unfolding init sent update_swnd get_swnd
Reached-InCredit h start = record { within = omega arith; word = h }
Reached-InCredit h (sends {f} n le r) =
    let u : InCredit f = Reached-InCredit h r in
    record { within = ground (arith, u.within, u.word); word = u.word }
Reached-InCredit h (granted {f} off w r) =
    let u : InCredit f = Reached-InCredit h r in
    record { within = ground (arith, u.within); word = ground (arith, u.word) }
Reached-InCredit h (received {f} off fin c r) = received-InCredit off fin f c (Reached-InCredit h r)
Reached-InCredit {cfg} h (read {f} {f'} rtt now len c c' moved e r) =
    read-InCredit cfg rtt now len f f' c c' moved e (Reached-InCredit h r)
Reached-InCredit h (blocked {f} r) = blocked-InCredit f (Reached-InCredit h r)

-- From a fresh stream on, whose first credit has 64 bits, as long as each send is of no more than
-- quic_stream_flowctrl_get_swnd allows, and in whatever order the peer grants credit, data is
-- received and read and the stream is asked whether it is blocked, no more bytes are counted as
-- sent than the peer granted.
pub sent_le_swnd :
    (cfg : Config) (f : StreamFlowctrl)
    → IsU64 cfg.stream_initial_swnd
    → Reached cfg f
    → f.sent_bytes ≤ f.swnd
sent_le_swnd cfg f h r = let u : InCredit f = Reached-InCredit h r in u.within

again : (f : StreamFlowctrl) → (newly_blocked (record f { last_blocked_at = f.swnd })).0 ≡ none
unfolding newly_blocked
again f =
    let same : (not (get_swnd f == 0) || f.swnd == f.swnd) ≡ true = ground arith in rw same refl

-- Where a stream is reported as blocked, it has no credit left, the limit is the credit that was
-- granted, and the next call does not report it again.
pub newly_blocked_once :
    (f : StreamFlowctrl) (limit : ℕ)
    → IsU64 f.swnd
    → (newly_blocked f).0 ≡ some limit
    → (limit ≡ f.swnd) × (f.swnd ≤ f.sent_bytes) × ((newly_blocked (newly_blocked f).1).0 ≡ none)
unfolding newly_blocked get_swnd
newly_blocked_once f limit w e =
    elim (Bool-cases (not (get_swnd f == 0) || f.swnd == f.last_blocked_at)) [
      | inl not_so ↦ absurd (none-ne-some limit (rw not_so at e))
      | inr so ↦ (sym (some-injective _ _ (rw so at e)), ground arith, rw so (again f))
    ]

-- Once the final size is known, no offset that arrives changes anything, neither of the stream
-- nor of the connection.
pub update_rwnd_after_fin :
    (off : ℕ) (fin : Bool) (f : StreamFlowctrl) (c : ConnFlowctrl)
    → f.fin_flag ≡ true
    → update_rwnd off fin f c ≡ (f, c)
unfolding update_rwnd
update_rwnd_after_fin off fin f c e =
    elim (Bool-cases ((fin && not (off == f.recv_off)) || ltb f.recv_off off)) [
      | inl refused ↦ rw (e, refused) refl
      | inr old ↦ let stays : leb off f.recv_off ≡ true = ground arith in rw (e, old, stays) refl
    ]

abbrev pub Word : StreamFlowctrl → Type 0
Word f = IsU64 f.recv_off

-- The offsets that the streams of a connection have received up to.
abbrev pub received_by : List StreamFlowctrl → ℕ
received_by [] = 0
received_by (f ∷ fs) = f.recv_off + received_by fs

-- quic_stream_flowctrl_update_rwnd of one of the streams; out of range, nothing.
abbrev pub arrive :
    ℕ → ℕ → Bool → List StreamFlowctrl → ConnFlowctrl → List StreamFlowctrl × ConnFlowctrl
arrive i off fin [] c = ([], c)
arrive zero off fin (f ∷ fs) c = let (f', c') = update_rwnd off fin f c in (f' ∷ fs, c')
arrive (suc i) off fin (f ∷ fs) c = let (fs', c') = arrive i off fin fs c in (f ∷ fs', c')

-- One stream and its connection move by as much.
moves_both :
    (off : ℕ) (fin : Bool) (f : StreamFlowctrl) (c : ConnFlowctrl)
    → IsU64 off
    → IsU64 f.recv_off
    → IsU64 c.recv_off
    → let (f', c') = update_rwnd off fin f c in
      (add64 c'.recv_off f.recv_off ≡ add64 c.recv_off f'.recv_off)
      × IsU64 f'.recv_off
      × IsU64 c'.recv_off
      × (f.recv_off ≤ f'.recv_off)
unfolding update_rwnd ConnFlowctrl.increment_recv
moves_both off fin f c w0 w1 w2 =
    elim (Bool-cases (f.fin_flag && ((fin && not (off == f.recv_off)) || ltb f.recv_off off))) [
      | inl refused ↦ rw refused (refl, w1, w2, omega arith)
      | inr taken ↦ elim (Bool-cases (leb off f.recv_off)) [
        | inl old ↦ rw (taken, old) (refl, w1, w2, omega arith)
        | inr new ↦ rw (taken, new) (omega arith, w0, omega arith, ground arith)
      ]
    ]

arrive-moves :
    (i off : ℕ) (fin : Bool) (fs : List StreamFlowctrl) (c : ConnFlowctrl)
    → All Word fs
    → IsU64 off
    → IsU64 c.recv_off
    → let (fs', c') = arrive i off fin fs c in
      (add64 c'.recv_off (received_by fs) ≡ add64 c.recv_off (received_by fs'))
      × All Word fs'
      × IsU64 c'.recv_off
arrive-moves i off fin [] c ws w0 w2 = (refl, tt, w2)
arrive-moves zero off fin (f ∷ fs) c (w, ws) w0 w2 =
    let (e, w', w2', le) = moves_both off fin f c w0 w w2 in (omega arith, (w', ws), w2')
arrive-moves (suc i) off fin (f ∷ fs) c (w, ws) w0 w2 =
    let (e, ws', w2') = arrive-moves i off fin fs c ws w0 w2 in (omega arith, (w, ws'), w2')

-- Where the connection's count of received bytes is the sum of the streams' counts, as words, it
-- is so after an offset, with or without the end of the stream, arrives on any of the streams.
pub arrive-accounts :
    (i off : ℕ) (fin : Bool) (fs : List StreamFlowctrl) (c : ConnFlowctrl)
    → All Word fs
    → IsU64 off
    → IsU64 c.recv_off
    → c.recv_off ≡ received_by fs % 2 ^ 64
    → let (fs', c') = arrive i off fin fs c in
      (c'.recv_off ≡ received_by fs' % 2 ^ 64) × All Word fs' × IsU64 c'.recv_off
arrive-accounts i off fin fs c ws w0 w2 e =
    let (moved, ws', w2') = arrive-moves i off fin fs c ws w0 w2 in (omega arith, ws', w2')
