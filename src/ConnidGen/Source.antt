-- ===== src/ConnidGen/Source.antt =====
-- The identifiers that this side issues: quic_connid_gen_issue_src and quic_connid_gen_retire_src.
use openquic.Common.{
  ℕ, ◌+◌, ◌^◌, ◌≤◌, ◌<◌, ◌≡◌, refl, ap, ◌∙◌, ◌||◌, arith, Bool, true, false, List, [], ◌∷◌, ◌++◌,
  none, some, ltb, le→ltb, ◌==◌, if◌then◌else◌, add64, success,
}
use openquic.ConnidGen.{
  Connid, Gened, ConnidGen, World, Outcome, returned, called, free, ctrl, find, insert, remove,
  new_frame, draw, issue_src, retire_found, retire_src,
}
use openquic.ConnidGen.Trees.{
  IsOrdered, find-insert, insert-IsOrdered, find-remove, remove-IsOrdered, has,
}

-- The identifiers issued so far have the numbers up to src_hseq, each once.
pub record IsIssued (m : ConnidGen) : Type 0 where
  pub ordered : IsOrdered 0 m.srcs
  pub known : (j : ℕ) → m.src_hseq < j → find j m.srcs ≡ none

-- A retired identifier made room for a new one, with the next number and the bytes `d`.
pub record Replaced (seq : ℕ) (g : Gened) (d : List ℕ) (m : ConnidGen) (w : World) (r : Outcome)
    : Type 0 where
  pub after : ConnidGen
  pub world : World
  pub success_lem : r ≡ returned success after world
  pub issued : IsIssued after
  pub next : after.src_hseq ≡ m.src_hseq + 1
  pub fresh : Connid
  pub bytes : fresh.bytes ≡ d
  pub found :
      (j : ℕ)
      → find j after.srcs ≡ (
          if m.src_hseq + 1 == j
          then some (record { key = m.src_hseq + 1; connid = fresh })
          else if seq == j
          then none
          else find j m.srcs)
  pub told : world.ctrls ≡ w.ctrls ++ new_frame (m.src_hseq + 1) d ∷ []
  pub freed : world.freed ≡ g.connid.buf ∷ w.freed
  pub kept : (world.src ≡ w.src) × (world.dst ≡ w.dst)

abbrev fresh_gened : List ℕ → ConnidGen → World → Gened
fresh_gened d m w = record { key = m.src_hseq + 1; connid = record { buf = w.mallocs; bytes = d } }

issue_src_lem :
    (draws : List (List ℕ)) (d : List ℕ) (m : ConnidGen) (w : World)
    → draw m.new_connid draws ≡ some d
    → 0 < m.connid_len
    → m.connid_len ≤ 20
    → m.src_hseq + 1 < 2 ^ 64
    → issue_src (λ k. true) draws m w
      ≡ returned success
          (record m { src_hseq = m.src_hseq + 1; srcs = insert (fresh_gened d m w) m.srcs })
          (ctrl (new_frame (m.src_hseq + 1) d) (called (called (called w))))
unfolding issue_src
issue_src_lem draws d m w a lo hi fits =
    let e : add64 m.src_hseq 1 ≡ m.src_hseq + 1 = omega arith in
    let t : m.connid_len == 0 || ltb 20 m.connid_len ≡ false = ground arith in rw (t, a, e)

-- Where memory is granted, the identifiers are in order and numbered up to the greatest, their
-- length is one that is allowed, one of those drawn is accepted, and numbers do not wrap,
-- retiring an identifier other than the first frees it and issues another one with the next
-- number, which a NEW_CONNECTION_ID frame tells; all others stay.
pub retire_src-Replaced :
    (draws : List (List ℕ)) (d : List ℕ) (seq : ℕ) (g : Gened) (m : ConnidGen) (w : World)
    → IsIssued m
    → draw m.new_connid draws ≡ some d
    → 0 < m.connid_len
    → m.connid_len ≤ 20
    → m.src_hseq + 1 < 2 ^ 64
    → 0 < seq
    → find seq m.srcs ≡ some g
    → Replaced seq g d m w (retire_src (λ k. true) draws seq m w)
unfolding retire_src
retire_src-Replaced draws d seq g m w i a lo hi fits pos f =
    let w1 = if m.retire_connid then record w { retired = w.retired ++ g.connid ∷ [] } else w in
    let w2 : World = free g.connid.buf w1 in
    let m1 : ConnidGen = record m { srcs = remove seq m.srcs } in
    let t : ltb m.src_hseq seq ≡ false = ground (arith, i.known seq) in
    let z : seq == 0 ≡ false = ground arith in
    let kept : (w1.src ≡ w.src) × (w1.dst ≡ w.dst) × (w1.ctrls ≡ w.ctrls) × (w1.freed ≡ w.freed) =
      ground arith in
    let e = issue_src_lem draws d m1 w2 a lo hi fits in
    record {
      after = record m1 { src_hseq = m.src_hseq + 1; srcs = insert (fresh_gened d m1 w2) m1.srcs };
      world = ctrl (new_frame (m.src_hseq + 1) d) (called (called (called w2)));
      success_lem = rw (t, f, retire_src) (rw (z, retire_found) (rw e));
      issued = record {
        ordered =
            insert-IsOrdered 0 (fresh_gened d m1 w2) m1.srcs
              (remove-IsOrdered 0 seq m.srcs i.ordered) (omega arith)
              (find-remove 0 (m.src_hseq + 1) seq m.srcs i.ordered
                ∙ ground (arith, i.known (m.src_hseq + 1)));
        known = λ j h.
            find-insert j (fresh_gened d m1 w2) m1.srcs
            ∙ ground (arith, find-remove 0 j seq m.srcs i.ordered, i.known j);
      };
      next = refl;
      fresh = record { buf = w2.mallocs; bytes = d };
      bytes = refl;
      found = λ j.
          find-insert j (fresh_gened d m1 w2) m1.srcs
          ∙ ground (arith, find-remove 0 j seq m.srcs i.ordered);
      told = ap (λ l. l ++ new_frame (m.src_hseq + 1) d ∷ []) kept.2;
      freed = ap (λ l. g.connid.buf ∷ l) kept.3;
      kept = (kept.0, kept.1);
    }

-- Where the first identifier is that of the session, its retirement by the peer frees the memory
-- that the session goes on to use.
pub retire_src_dangling :
    (granted : ℕ → Bool) (draws : List (List ℕ)) (g : Gened) (m : ConnidGen) (w : World)
    → find 0 m.srcs ≡ some g
    → g.connid ≡ w.src
    → (m' : ConnidGen) × (w' : World) × (retire_src granted draws 0 m w ≡ returned success m' w')
      × (w'.src ≡ w.src)
      × (has w'.src.buf w'.freed ≡ true)
unfolding retire_src retire_found
retire_src_dangling granted draws g m w f e = (
  record m { srcs = remove 0 m.srcs },
  free g.connid.buf
      (if m.retire_connid then record w { retired = w.retired ++ g.connid ∷ [] } else w),
  rw (le→ltb m.src_hseq 0 (omega arith), f),
  ground arith,
  ground arith,
)
