-- ===== src/Stream/Tests.antt =====
-- Runs of src/modules/stream.c, and witnesses.
use openquic.Common.{
  ℕ, zero, suc, ◌+◌, ◌≤◌, ◌≡◌, refl, arith, Bool, true, false, not, [], ◌∷◌, some, length, ◌==◌,
}
use openquic.Frame
use openquic.Frame.Parse.{has_flag}
use openquic.Sorter.{Sorter, readable}
use openquic.Sorter.Window.{window}
use openquic.Sorter.Stream.{Holds}
use openquic.Sorter.Samples.{table, count_up, ready, ready-Holds}
use openquic.StreamFlowctrl
use openquic.StreamFlowctrl.{StreamFlowctrl, Config, get_swnd, tune, count_read, adjust_rwnd}
use openquic.StreamFlowctrl.Credit.{Reached}
use openquic.ConnFlowctrl
use openquic.ConnFlowctrl.{ConnFlowctrl}
use openquic.Stream.{id_transfer, id_is_bidi, id_is_cli}
use openquic.Stream.Send.{
  SendStream, header_len, frame_capacity, flags, made, made_some, offered, payload_size, generate,
}
use openquic.Stream.Generate.{Sends, generate-Sends}
use openquic.Stream.Ending.{generate_ends_early, generate-Reached, carried}
use openquic.Stream.Recv.{RecvStream, finished, handle_frame, read_start}
use openquic.Stream.Deliver.{Delivered, handle_frame-Delivered}
use openquic.Stream.Read.{read_start-reads}
use openquic.Stream.Sets.{
  Settings, Stream, StreamModule, find, open_stream, send_relation_stream, recv_relation_stream,
}
use openquic.Stream.Lookup.{id_transfer_lem, open_stream-found, open_stream_lost}

abbrev config : Config
config = record {
  stream_initial_rwnd = 100;
  stream_initial_swnd = 100;
  stream_max_rwnd_size = 800;
  conn_max_rwnd_size = 1000;
}

abbrev flow : StreamFlowctrl
flow = record {
  rwnd = 100;
  rwnd_size = 100;
  recv_off = 90;
  read_off = 0;
  fin_flag = false;
  swnd = 100;
  sent_bytes = 0;
  last_blocked_at = 0;
  epoch_off = 0;
  epoch_time = 0;
}

abbrev conn : ConnFlowctrl
conn = record {
  rwnd = 1000;
  rwnd_size = 1000;
  recv_off = 90;
  read_off = 0;
  swnd = 0;
  sent_bytes = 0;
  epoch_off = 0;
  epoch_time = 0;
  updated = false;
}

abbrev sending : SendStream
sending = record {
  reader = 1 ∷ 2 ∷ 3 ∷ 4 ∷ 5 ∷ [];
  off = 0;
  deadline = 0;
  sent_fin = false;
  is_closed = false;
  unacked_frames_count = 0;
}

abbrev ending : SendStream
ending = record sending { is_closed = true }

-- Five bytes of room hold a header of 3 bytes and 2 of the data.
abbrev two_bytes : Frame.Stream
two_bytes = record { first_byte = 0x0a; sid = 4; off = 0; len = 2; payload = 1 ∷ 2 ∷ [] }

generate_two : (generate true true 4 5 false sending flow).frame ≡ some two_bytes
unfolding generate payload_size offered frame_capacity header_len made made_some flags get_swnd
    openquic.Varint.varint_format_len
generate_two = refl

generate-Sends_example :
    Sends 5 4 false sending flow (generate true true 4 5 false sending flow) two_bytes
generate-Sends_example =
    generate-Sends true true 5 4 false sending flow two_bytes (omega arith) generate_two

generate-Reached_example :
    let r = generate true true 4 5 false sending (StreamFlowctrl.init config) in
    Reached config r.flow
    × (r.flow.sent_bytes ≤ r.flow.swnd)
    × (r.flow.sent_bytes ≡ (StreamFlowctrl.init config).sent_bytes + carried r.frame)
generate-Reached_example =
    generate-Reached config true true 5 4 false sending (StreamFlowctrl.init config) (omega arith)
      Reached.start

generate_ends_early_example :
    (fr : Frame.Stream) × ((generate true true 4 5 false ending flow).frame ≡ some fr)
    × (has_flag 0x09 fr.first_byte
        ≡ not (length (generate true true 4 5 false ending flow).send.reader == 0))
    × ((generate true true 4 5 false ending flow).empty ≡ true)
generate_ends_early_example = generate_ends_early true 5 4 false ending flow refl refl (omega arith)

abbrev drained : SendStream
drained = record ending { reader = []; off = 70000 }

abbrev receiving : RecvStream table
receiving = record {
  sorter = ready;
  read_off = 0;
  final_off = 9223372036854775807;
  fin_flag = false;
  deadline = 0;
  is_closed = false;
}

-- The bytes at 2 and 3, and the end of the stream.
abbrev last_two : Frame.Stream
last_two = record { first_byte = 0x0f; sid = 4; off = 2; len = 2; payload = 2 ∷ 3 ∷ [] }

last_two_carry : openquic.Sorter.Stream.Carries table count_up 2 (2 ∷ 3 ∷ [])
last_two_carry zero h = refl
last_two_carry (suc zero) h = refl
last_two_carry (suc (suc j)) h = absurd (omega arith)

handle_frame-Delivered_example :
    Delivered table count_up last_two receiving flow conn
      (handle_frame table true (λ k. true) last_two receiving flow conn)
handle_frame-Delivered_example =
    handle_frame-Delivered table count_up (λ k. true) last_two receiving flow conn refl ready-Holds
      refl last_two_carry (λ k. refl) (omega arith) ((λ h. tt), (λ h. omega arith), tt)

read_two :
    StreamFlowctrl.read config 10 7 2 flow conn
    ≡ some (
      record flow { read_off = 2; epoch_time = 7 },
      record conn { read_off = 2; epoch_time = 7 },
      false,
    )
unfolding StreamFlowctrl.read count_read ConnFlowctrl.read ConnFlowctrl.count_read
read_two = refl

read_start-reads_example :
    (sorter : Sorter table) × (read_start table config 10 7 9 receiving flow conn
      ≡ finished
          (window count_up 0 2)
          (record receiving { sorter = sorter })
          (record flow { read_off = 2; epoch_time = 7 })
          (record conn { read_off = 2; epoch_time = 7 })
          false)
    × (sorter.readed_size ≡ 2)
    × Holds table count_up sorter
read_start-reads_example =
    read_start-reads table count_up config 10 7 9 receiving flow
      (record flow { read_off = 2; epoch_time = 7 }) conn
      (record conn { read_off = 2; epoch_time = 7 }) false refl ready-Holds (omega arith) (λ e. cc)
      (omega arith) read_two

abbrev settings : Settings
settings = record {
  is_cli = true;
  stream_recv_timeout = 0;
  stream_destory_timeout = 1000;
  flowctrl = config;
}

abbrev stream_of : ℕ → Stream table
stream_of k = record { key = k; send = drained; recv = receiving; flow = flow }

abbrev none_open : StreamModule table
none_open = record {
  inuni = record { streams = []; next_sid = 1 };
  inbidi = record { streams = []; next_sid = 1 };
  outuni = record { streams = []; next_sid = 1 };
  outbidi = record { streams = []; next_sid = 1 };
  rwnd_updated = [];
  destory_set = [];
}

id_transfer_lem_example :
    (id_is_bidi (id_transfer true false 3) ≡ true)
    × (id_is_cli (id_transfer true false 3) ≡ false)
    × (id_transfer true false 3 ≡ id_transfer true true 3
        → (◌≡◌ {A = Bool} true true) × (◌≡◌ {A = Bool} false true) × (◌≡◌ {A = ℕ} 3 3))
id_transfer_lem_example =
    id_transfer_lem true true false true 3 3 (omega arith) (omega arith) (omega arith) (omega arith)

open_stream-found_example :
    let (sid, m') = open_stream table settings stream_of true none_open in
    (send_relation_stream table settings stream_of sid m' ≡ (some (stream_of sid), m', []))
    × (recv_relation_stream table settings stream_of sid m' ≡ (some (stream_of sid), m', []))
open_stream-found_example =
    open_stream-found table settings stream_of none_open (λ k. refl) (omega arith)

open_stream_lost_example :
    let (sid, m') = open_stream table settings stream_of false none_open in
    (send_relation_stream table settings stream_of sid m'
      ≡ (find table sid none_open.outbidi.streams, m', []))
    × (recv_relation_stream table settings stream_of sid m'
        ≡ (find table sid none_open.outbidi.streams, m', []))
open_stream_lost_example = open_stream_lost table settings stream_of none_open (omega arith)

abbrev closing : StreamModule table
closing = record none_open {
  outbidi = record { streams = stream_of 4 ∷ []; next_sid = 3 };
  destory_set = record { key = 4; destory_time = 500 } ∷ [];
}
