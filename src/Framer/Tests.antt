-- ===== src/Framer/Tests.antt =====
-- Runs of src/modules/framer.c, and witnesses.
use openquic.Common.{ℕ, ◌≡◌, refl, arith, ◌⊎◌, true, false, List, [], ◌∷◌, some, success}
use openquic.Frame
use openquic.Frame.{Frame}
use openquic.Frame.Dispatch.{frame_size}
use openquic.Sorter.Samples.{table, fresh}
use openquic.Stream.Sets.{Settings, Stream, StreamModule}
use openquic.Framer.{Framer, add_active, append_ctrl_frame, append_stream_frame}
use openquic.Framer.Active.{IsActive, count, add_active-IsActive}
use openquic.Framer.Turns.{Turn, append_stream_frame-Turn}
use openquic.Framer.Ctrls.{AllLarger, AllSized, Fitting, append_ctrl_frame-Fitting}

abbrev settings : Settings
settings = record {
  is_cli = true;
  stream_recv_timeout = 0;
  stream_destory_timeout = 1000;
  flowctrl = record {
    stream_initial_rwnd = 100;
    stream_initial_swnd = 100;
    stream_max_rwnd_size = 800;
    conn_max_rwnd_size = 1000;
  };
}

-- A stream with three bytes to send.
abbrev stream_of : ℕ → Stream table
stream_of k = record {
  key = k;
  send = record {
    reader = 1 ∷ 2 ∷ 3 ∷ [];
    off = 0;
    deadline = 0;
    sent_fin = false;
    is_closed = false;
    unacked_frames_count = 0;
  };
  recv = record {
    sorter = fresh;
    read_off = 0;
    final_off = 0;
    fin_flag = false;
    deadline = 0;
    is_closed = false;
  };
  flow = record {
    rwnd = 100;
    rwnd_size = 100;
    recv_off = 0;
    read_off = 0;
    fin_flag = false;
    swnd = 100;
    sent_bytes = 0;
    last_blocked_at = 0;
    epoch_off = 0;
    epoch_time = 0;
  };
}

abbrev streams : StreamModule table
streams = record {
  inuni = record { streams = []; next_sid = 1 };
  inbidi = record { streams = []; next_sid = 1 };
  outuni = record { streams = []; next_sid = 1 };
  outbidi = record { streams = stream_of 4 ∷ []; next_sid = 3 };
  rwnd_updated = [];
  destory_set = [];
}

abbrev waiting : List Frame
waiting =
    Frame.max_data (record { first_byte = 0x10; max_data = 100000 })
    ∷ Frame.ping (record { first_byte = 0x01 })
    ∷ []

abbrev two_active : Framer
two_active = record { active_set = 4 ∷ 8 ∷ []; active_queue = 4 ∷ 8 ∷ []; ctrls = waiting }

two_active-IsActive : IsActive two_active
two_active-IsActive k = (refl, ground arith)

append_stream_frame-Turn_example :
    Turn [] two_active
      (append_stream_frame table settings stream_of true true 100 false [] two_active streams)
append_stream_frame-Turn_example =
    append_stream_frame-Turn settings stream_of true true 100 false [] two_active streams
      two_active-IsActive

add_active-IsActive_example :
    (m' : Framer) × (add_active true true 12 two_active ≡ (success, m', true))
    × IsActive m'
    × (count 12 m'.active_queue ≡ 1)
    × ((m'.active_queue ≡ 4 ∷ 8 ∷ []) ⊎ (m'.active_queue ≡ 4 ∷ 8 ∷ 12 ∷ []))
add_active-IsActive_example = add_active-IsActive 12 two_active two_active-IsActive

waiting-AllSized : AllSized waiting
unfolding frame_size openquic.Frame.Dispatch.size_by openquic.Frame.Dispatch.codec
    openquic.Frame.Dispatch.first_byte_of openquic.Frame.Size.max_data_size
    openquic.Varint.varint_format_len openquic.Frame.Size.ping_size
waiting-AllSized = ((5, refl), ((1, refl), tt))

append_ctrl_frame-Fitting_example :
    ((append_ctrl_frame 3 [] two_active ≡ some (0, [], two_active)) × AllLarger 3 waiting)
    ⊎ ((n : ℕ) × (f : Frame) × (left : List Frame) × (append_ctrl_frame 3 [] two_active
          ≡ some (n, f ∷ [], record two_active { ctrls = left }))
        × Fitting 3 waiting (some (n, f)) left)
append_ctrl_frame-Fitting_example = append_ctrl_frame-Fitting 3 [] two_active waiting-AllSized

-- The MAX_DATA frame does not fit, and the PING frame behind it is taken.
ctrl_run :
    append_ctrl_frame 3 [] two_active
    ≡ some (
      1,
      Frame.ping (record { first_byte = 0x01 }) ∷ [],
      record two_active {
        ctrls = Frame.max_data (record { first_byte = 0x10; max_data = 100000 }) ∷ [];
      },
    )
unfolding append_ctrl_frame frame_size openquic.Frame.Dispatch.size_by openquic.Frame.Dispatch.codec
    openquic.Frame.Dispatch.first_byte_of openquic.Frame.Size.max_data_size
    openquic.Varint.varint_format_len openquic.Frame.Size.ping_size
ctrl_run = refl
