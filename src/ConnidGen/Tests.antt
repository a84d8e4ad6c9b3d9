-- ===== src/ConnidGen/Tests.antt =====
-- Runs of src/modules/connid_gen.c, and witnesses.
use openquic.Common.{ℕ, ◌≡◌, refl, arith, true, false, [], ◌∷◌, none, success, not_implemented}
use openquic.Frame.{NewConnectionId}
use openquic.ConnidGen.{
  Connid, ConnidGen, World, returned, find, draw, retire_src, handle_new_connection_id,
}
use openquic.ConnidGen.Trees.{has}
use openquic.ConnidGen.Pool.{IsInUse}
use openquic.ConnidGen.Source.{IsIssued, Replaced, retire_src-Replaced}
use openquic.ConnidGen.InUse.{handle_new-IsInUse, handle_new_dangling}

abbrev connid : ℕ → Connid
connid buf = record { buf = buf; bytes = 1 ∷ 2 ∷ 3 ∷ 4 ∷ [] }

-- A server that issued the identifiers 0 and 1, and was given 0, 1 and 2.
abbrev server : ConnidGen
server = record {
  connid_len = 4;
  src_hseq = 1;
  dst_hretire = 0;
  srcs = record { key = 0; connid = connid 0 } ∷ record { key = 1; connid = connid 1 } ∷ [];
  dsts =
      record { key = 0; connid = connid 2 }
      ∷ record { key = 1; connid = connid 3 }
      ∷ record { key = 2; connid = connid 4 }
      ∷ [];
  dst_active = 0;
  new_connid = none;
  retire_connid = false;
}

abbrev world : World
world = record { src = connid 0; dst = connid 2; ctrls = []; retired = []; freed = []; mallocs = 5 }

server-IsInUse : IsInUse server world
unfolding find
server-IsInUse = record {
  pool = record { ordered = omega arith; live = ground arith; freed_lt = omega arith };
  active = refl;
}

server-IsIssued : IsIssued server
unfolding find
server-IsIssued = record { ordered = omega arith; known = λ j h. ground arith }

abbrev new : ℕ → ℕ → NewConnectionId
new seq retire = record {
  first_byte = 0x18;
  seq = seq;
  retire = retire;
  len = 4;
  conn = 5 ∷ 6 ∷ 7 ∷ 8 ∷ [];
  token = [];
}

retire_unknown : retire_src (λ i. true) [] 2 server world ≡ returned not_implemented server world
unfolding retire_src
retire_unknown = refl

retire_src-Replaced_example :
    Replaced 1
      (record { key = 1; connid = connid 1 })
      (9 ∷ 9 ∷ 9 ∷ 9 ∷ [])
      server
      world
      (retire_src (λ i. true) ((9 ∷ 9 ∷ 9 ∷ 9 ∷ []) ∷ []) 1 server world)
unfolding draw find
retire_src-Replaced_example =
    retire_src-Replaced ((9 ∷ 9 ∷ 9 ∷ 9 ∷ []) ∷ []) (9 ∷ 9 ∷ 9 ∷ 9 ∷ []) 1
      (record { key = 1; connid = connid 1 }) server world server-IsIssued refl (omega arith)
      (omega arith) (omega arith) (omega arith) refl

handle_new-IsInUse_example :
    (m' : ConnidGen) × (w' : World) × (handle_new_connection_id
        (λ i. true)
        99
        (new 3 1)
        server
        world
      ≡ returned success m' w')
    × IsInUse m' w'
handle_new-IsInUse_example =
    handle_new-IsInUse 99 (new 3 1) server world server-IsInUse (λ e. omega arith)

handle_new_dangling_example :
    (m' : ConnidGen) × (w' : World) × (handle_new_connection_id
        (λ i. true)
        99
        (new 0 1)
        server
        world
      ≡ returned success m' w')
    × (w'.dst ≡ world.dst)
    × (has w'.dst.buf w'.freed ≡ true)
handle_new_dangling_example =
    handle_new_dangling 99 (new 0 1) server world server-IsInUse refl (omega arith) (omega arith)
      (omega arith)
