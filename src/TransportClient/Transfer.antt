-- ===== src/TransportClient/Transfer.antt =====
-- `STATE_CONNECTED` of TR_client_state_machine in src/transport_client.c: its local variables.
use info_logger.Base.{ℕ, Bool, false, List, [], Option, none, ℤ, minus_one}
use info_logger.CText.{Bytes}
use info_logger.TransportFiles.{TransportFile}

-- `struct TR_buffer`
pub record Buffer : Type 0 where
  pub value : Bytes
  pub start : ℕ
  pub stop : ℕ

-- The local variables of the loop; `written` is what send has taken. A file on disk is what is left
-- to read of it. The numbers of the last acknowledged file stay from one connection to the next.
pub record Transfer : Type 0 where
  pub current_file : Option TransportFile
  pub current_blob : List Bytes
  pub current_file_index : ℕ
  pub send_buf : Buffer
  pub file_transfert_init : Bool
  pub file_transfert_deinit : Bool
  pub fp : Option Bytes
  pub ack_maj : ℤ
  pub ack_min : ℤ
  pub watchdog_last_index : ℤ
  pub watchdog_count : ℕ
  pub watchdog_timer : ℕ
  pub written : Bytes

-- The head of the state's code.
unfoldable pub begin : ℤ → ℤ → Transfer
begin ack_maj ack_min = record {
  current_file = none;
  current_blob = [];
  current_file_index = 0;
  send_buf = record { value = []; start = 0; stop = 0 };
  file_transfert_init = false;
  file_transfert_deinit = false;
  fp = none;
  ack_maj = ack_maj;
  ack_min = ack_min;
  watchdog_last_index = minus_one;
  watchdog_count = 0;
  watchdog_timer = 0;
  written = [];
}
