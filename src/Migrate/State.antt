-- ===== src/Migrate/State.antt =====
-- The global state of src/migrate/mod.rs, as a record that each operation takes and returns:
-- the channel buffer, sequence number, chunk size, transmit log and settings, with what is
-- written to the console and the additions made to the counters of src/obs/metrics.rs.
use zerovisor.Base.{ℕ, Bool, List, Option}
use zerovisor.Migrate.Channel.{Buffer}

-- The counters of src/obs/metrics.rs that migration adds to.
pub data Counter : Type 0 where
  mig_frames mig_compressed_pages mig_raw_pages mig_manifests : Counter
  mig_ctrl_frames mig_acks mig_naks mig_resend_triggers : Counter
  mig_zero_skipped mig_zero_bytes_saved mig_hash_skipped mig_hash_bytes_saved : Counter
  mig_cb_written_bytes mig_net_tx_bytes mig_net_tx_frames : Counter
  mig_rx_bytes mig_rx_frames_ok mig_rx_frames_bad mig_dup_frames mig_missing_frames : Counter
  mig_ctrl_auto_ack_sent mig_ctrl_auto_nak_sent : Counter
  mig_replay_pages mig_replay_bytes mig_replay_errors : Counter
  mig_cfg_saves mig_cfg_loads : Counter
  mig_sessions mig_scan_rounds mig_dirty_pages : Counter
  mig_precopy_rounds mig_precopy_pages mig_bytes_tx : Counter

pub data ExportSink : Type 0 where
  console null buffer snp virtio : ExportSink

pub record TxEntry : Type 0 where
  pub kind : ℕ
  pub seq : ℕ
  pub page_index : ℕ

-- A counter's value is the sum of its additions, modulo 2 ^ 64; `last_seq` is `MIG_LAST_SEQ`,
-- which is stored to and not added to.
pub record Machine : Type 0 where
  pub chan : Option Buffer
  pub next_seq : ℕ
  pub chunk : ℕ
  pub tx_log : List TxEntry
  pub tx_widx : ℕ
  pub dest_mac : List ℕ
  pub mtu : ℕ
  pub ether_type : ℕ
  pub resend_sink : ExportSink
  pub auto_ack : Bool
  pub auto_nak : Bool
  pub default_sink : ExportSink
  pub last_seq : ℕ
  pub counts : List (Counter × ℕ)
  pub lines : List (List ℕ)
