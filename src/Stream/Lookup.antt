-- ===== src/Stream/Lookup.antt =====
-- Which stream a number leads to, and when a stream that was closed is given up.
use openquic.Common.{
  ℕ, ◌+◌, ◌/◌, ◌^◌, ◌≤◌, ◌<◌, ◌≡◌, ap, sym, ◌∙◌, inl, inr, arith, Bool, true, false, List, [], ◌∷◌,
  some, ◌==◌, if◌then◌else◌, Bool-cases,
}
use openquic.Sorter.Rbt.{Tree}
use openquic.Stream.{id_transfer, id_is_bidi, id_is_cli, id_same_principal}
use openquic.Stream.Sets.{
  Settings, DestorySid, closed_cb, destoryed, Stream, StreamModule, find, insert, set_of, with_set,
  open_stream, recv_relation_stream, send_relation_stream, which_of, is_destroable, is_due,
  loop_from, loop,
}

-- What a number is made of; from 2 ^ 62 + 1 on the key is shifted out of it.
id_parts :
    (bidi cli : Bool) (key : ℕ)
    → 0 < key
    → (id_is_bidi (id_transfer bidi cli key) ≡ bidi)
      × (id_is_cli (id_transfer bidi cli key) ≡ cli)
      × (key ≤ 2 ^ 62 → key ≡ id_transfer bidi cli key / 4 + 1)
unfolding id_transfer id_is_bidi id_is_cli
id_parts true true key h = (ground arith, ground arith, λ k. omega arith)
id_parts true false key h = (ground arith, ground arith, λ k. omega arith)
id_parts false true key h = (ground arith, ground arith, λ k. omega arith)
id_parts false false key h = (ground arith, ground arith, λ k. omega arith)

-- The number of a stream whose key is from 1 to 2 ^ 62 tells its direction and the side that
-- opened it, and two streams with such keys have one number just where direction, side and key
-- are the same.
pub id_transfer_lem :
    (bidi bidi' cli cli' : Bool) (key key' : ℕ)
    → 0 < key
    → 0 < key'
    → key ≤ 2 ^ 62
    → key' ≤ 2 ^ 62
    → (id_is_bidi (id_transfer bidi cli key) ≡ bidi)
      × (id_is_cli (id_transfer bidi cli key) ≡ cli)
      × (id_transfer bidi cli key ≡ id_transfer bidi' cli' key'
          → (bidi ≡ bidi') × (cli ≡ cli') × (key ≡ key'))
id_transfer_lem bidi bidi' cli cli' key key' h h' s s' =
    let (b, c, k) = id_parts bidi cli key h in
    let (b', c', k') = id_parts bidi' cli' key' h' in
    (
      b,
      c,
      λ e. (
        sym b ∙ ap id_is_bidi e ∙ b',
        sym c ∙ ap id_is_cli e ∙ c',
        k s ∙ ap (λ (i : ℕ). i / 4 + 1) e ∙ sym (k' s'),
      ),
    )

module _ (T : Tree) where
  find-insert :
      (j : ℕ) (x : Stream T) (xs : List (Stream T))
      → find T j (insert T x xs) ≡ (if x.key == j then some x else find T j xs)
  unfolding find insert
  find-insert j x [] = ground arith
  find-insert j x (y ∷ ys) = ground (arith, find-insert j x ys)

  own :
      (cfg : Settings) (sid : ℕ)
      → id_is_cli sid ≡ cfg.is_cli
      → id_same_principal sid cfg.is_cli ≡ true
  unfolding id_same_principal
  own cfg sid e = ground arith

  -- A number of this side's streams of both directions is looked for among those.
  send_own :
      (cfg : Settings) (make : ℕ → Stream T) (sid : ℕ) (m : StreamModule T)
      → id_is_cli sid ≡ cfg.is_cli
      → id_is_bidi sid ≡ true
      → send_relation_stream T cfg make sid m ≡ (find T sid m.outbidi.streams, m, [])
  unfolding send_relation_stream
  send_own cfg make sid m c b = rw (own cfg sid c, b)

  recv_own :
      (cfg : Settings) (make : ℕ → Stream T) (sid : ℕ) (m : StreamModule T)
      → id_is_cli sid ≡ cfg.is_cli
      → id_is_bidi sid ≡ true
      → recv_relation_stream T cfg make sid m ≡ (find T sid m.outbidi.streams, m, [])
  unfolding recv_relation_stream
  recv_own cfg make sid m c b = rw (own cfg sid c, b)

  -- Where numbers are not used up and a stream is made with the number it is made for, a stream
  -- of both directions that quic_stream_open opens is the one that its number leads to, for data
  -- to send and for data that arrives.
  pub open_stream-found :
      (cfg : Settings) (make : ℕ → Stream T) (m : StreamModule T)
      → ((k : ℕ) → (make k).key ≡ k)
      → 0 < m.outbidi.next_sid
      → let (sid, m') = open_stream T cfg make true m in
        (send_relation_stream T cfg make sid m' ≡ (some (make sid), m', []))
        × (recv_relation_stream T cfg make sid m' ≡ (some (make sid), m', []))
  unfolding open_stream set_of with_set
  open_stream-found cfg make m keyed pos =
      let sid : ℕ = id_transfer true cfg.is_cli m.outbidi.next_sid in
      let (b, c, k) = id_parts true cfg.is_cli m.outbidi.next_sid pos in
      let m' : StreamModule T = (open_stream T cfg make true m).1 in
      let e : find T sid m'.outbidi.streams ≡ some (make sid) =
        find-insert sid (make sid) _ ∙ ground (arith, keyed sid) in
      (
        send_own cfg make sid m' c b ∙ ap (λ o. (o, m', [])) e,
        recv_own cfg make sid m' c b ∙ ap (λ o. (o, m', [])) e,
      )

  -- A stream of one direction that quic_stream_open opens is not found by its number, which is
  -- that of a stream of both directions: it leads where it led before.
  pub open_stream_lost :
      (cfg : Settings) (make : ℕ → Stream T) (m : StreamModule T)
      → 0 < m.outuni.next_sid
      → let (sid, m') = open_stream T cfg make false m in
        (send_relation_stream T cfg make sid m' ≡ (find T sid m.outbidi.streams, m', []))
        × (recv_relation_stream T cfg make sid m' ≡ (find T sid m.outbidi.streams, m', []))
  unfolding open_stream set_of with_set
  open_stream_lost cfg make m pos =
      let sid : ℕ = id_transfer true cfg.is_cli m.outuni.next_sid in
      let (b, c, k) = id_parts true cfg.is_cli m.outuni.next_sid pos in
      let m' : StreamModule T = (open_stream T cfg make false m).1 in
      (send_own cfg make sid m' c b, recv_own cfg make sid m' c b)

  -- The loop over one stream.
  one_due :
      (cfg : Settings) (granted : ℕ → Bool) (now : ℕ) (d : DestorySid) (x : Stream T)
      (m : StreamModule T)
      → find T d.key (set_of T (which_of T cfg d.key) m).streams ≡ some x
      → (loop_from T cfg granted now (d ∷ []) m).2
        ≡ (if is_due T cfg now d x then closed_cb d.key ∷ destoryed d.key ∷ [] else [])
  unfolding loop_from
  one_due cfg granted now d x m found = elim (Bool-cases (is_due T cfg now d x)) [
    | inl due ↦ rw (found, loop_from) (rw due)
    | inr not_due ↦ rw (found, loop_from) (rw not_due)
  ]

  -- A stream that was closed, and still waits for its end to be sent or received, is given up at once
  -- while stream_destory_timeout has not passed, and kept when it has.
  pub loop_early :
      (cfg : Settings) (granted : ℕ → Bool) (now : ℕ) (d : DestorySid) (x : Stream T)
      (m : StreamModule T)
      → m.destory_set ≡ d ∷ []
      → find T d.key (set_of T (which_of T cfg d.key) m).streams ≡ some x
      → is_destroable T x ≡ false
      → 0 < cfg.stream_destory_timeout
      → cfg.stream_destory_timeout + d.destory_time < 2 ^ 64
      → (now ≤ cfg.stream_destory_timeout + d.destory_time
          → (loop T cfg granted now m).1 ≡ closed_cb d.key ∷ destoryed d.key ∷ [])
        × (cfg.stream_destory_timeout + d.destory_time < now → (loop T cfg granted now m).1 ≡ [])
  unfolding loop is_due
  loop_early cfg granted now d x m only found waiting set fits =
      let same =
        ap (λ ds. (loop_from T cfg granted now ds m).2) only
        ∙ one_due cfg granted now d x m found in
      (
        λ early. let t : is_due T cfg now d x ≡ true = ground arith in same ∙ rw t,
        λ late. let t : is_due T cfg now d x ≡ false = ground arith in same ∙ rw t,
      )
