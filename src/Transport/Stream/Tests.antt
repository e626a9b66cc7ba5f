-- ===== src/Transport/Stream/Tests.antt =====
-- A connection with two calls: one streams its request, and too many bytes arrive for it.
use overseerd.Base.{
  ℕ, ◌≡◌, ◌≤◌, refl, true, false, Option, none, some, List, [], ◌∷◌, length, get, arith,
}
use overseerd.Base
use overseerd.Transport.Wire.{WireMessage, request, stream_item, duplicate_call_id}
use overseerd.Transport.Stream.{
  StreamConfig, with_config, released, unreleased, slot_released, reconcile_slot,
  reconcile_inbound_bytes, all_released, reconcile_all_inbound_bytes,
}
use overseerd.Transport.Stream.Recv.{
  checked_add, route_item, count_item, handle_sent, handle_item, handle_request, handle_message,
  handle_branch, recv_turn,
}
use overseerd.Transport.Stream.Rejecting.{
  Answers, Sent, message_read, returned, drain_control, spawn_control, terminate,
  reject_inbound_overflow,
}
use overseerd.Transport.Stream.Accounting.{IsAccounted}
use overseerd.Transport.Stream.Accounting.Sharing.{steps-IsAccounted}
use overseerd.Transport.Stream.Ending.{IsOrderly}
use overseerd.Transport.Stream.Ending.Steps.{steps-IsOrderly}
use overseerd.Transport.Stream.Shutdown.{EndsShut, recv_turn-EndsShut}
use overseerd.Transport.Stream.Writing.{
  Shared, item, terminal, done, Step, turn, terminal_won, item_checked, item_begun, terminal_ended,
  control_run, item_ended, pick, begin_terminal, write_terminal, end_terminal, run_control,
  check_item, begin_item, finish_item, end_item, step, steps,
}

abbrev config : StreamConfig
config = record {
  frame = record { max_frame_len = 8; read_idle_timeout = 1 };
  max_in_flight_calls = 2;
  control_write_timeout = 5;
  max_inbound_bytes_per_call = 4;
  max_inbound_bytes_per_connection = 6;
}

abbrev start : Shared
start = record {
  connection = with_config config;
  lock = none;
  senders = [];
  winners = [];
  written = [];
}

-- Nothing is taken from the channels, and all sends succeed.
abbrev answers : Answers
answers = record {
  at_start = λ channel. 30;
  at_message = λ channel. 30;
  at_reject = λ channel. 30;
  try_send = Sent.sent;
}

abbrev read : WireMessage → Step
read message = turn answers (message_read message)

abbrev opened : WireMessage
opened = request (record { id = 7; path = []; payload = []; streaming_input = true })

-- An item of the response is written; the third item of the request is too much, so the transport
-- ends the call, before its handler does.
abbrev run : List Step
run =
    read opened
    ∷ item_checked 7 0
    ∷ item_begun 0
    ∷ item_ended done
    ∷ read (stream_item 7 (1 ∷ 2 ∷ []))
    ∷ read (stream_item 7 (1 ∷ 2 ∷ []))
    ∷ read (stream_item 7 (3 ∷ []))
    ∷ terminal_won 7 0
    ∷ terminal_ended 0 done
    ∷ control_run 0 done
    ∷ []

written : (steps run start).written ≡ terminal 0 ∷ item 0 ∷ []
unfolding steps step recv_turn handle_branch handle_message handle_request check_item begin_item
    pick end_item finish_item handle_item reconcile_all_inbound_bytes all_released slot_released
    released unreleased reconcile_slot route_item checked_add handle_sent count_item
    reject_inbound_overflow reconcile_inbound_bytes terminate spawn_control drain_control
    begin_terminal end_terminal run_control write_terminal
written = refl

start-IsAccounted : IsAccounted start.connection
start-IsAccounted = record {
  slots = tt;
  exact = refl;
  bounded = omega arith;
  unique = refl;
  few = omega arith;
  few_tasks = omega arith;
}

steps-IsAccounted_example : IsAccounted (steps run start).connection
steps-IsAccounted_example = steps-IsAccounted run start start-IsAccounted

start-IsOrderly : IsOrderly start
start-IsOrderly = record {
  once = λ n. omega arith;
  fresh = λ n late. omega arith;
  unended = tt;
  ending = tt;
}

steps-IsOrderly_example : IsOrderly (steps run start)
steps-IsOrderly_example = steps-IsOrderly run start start-IsOrderly

recv_turn-EndsShut_example :
    EndsShut (recv_turn answers (message_read opened) (steps (read opened ∷ []) start).connection)
recv_turn-EndsShut_example =
    recv_turn-EndsShut answers (message_read opened) (steps (read opened ∷ []) start).connection

reused :
    (recv_turn answers (message_read opened) (steps (read opened ∷ []) start).connection).0
    ≡ returned (Base.err (duplicate_call_id 7))
unfolding steps step recv_turn handle_branch handle_message handle_request
reused = refl
