-- ===== src/Migrate/Settings.antt =====
-- The settings of src/migrate/mod.rs that are kept in two variables of the firmware: the bytes that
-- `cfg_save` hands over, and `cfg_load` of what the firmware gives back, `none` where it has none; with
-- `reset` and the dump of the transmit log.
pub mod Saved
use zerovisor.Base.{
  ◌+◌, ◌-◌, ◌%◌, ◌||◌, replicate, tabulate, ℕ, Bool, not, List, [], ◌∷◌, ◌++◌, Option, none, some,
  length, get_or, ltb, leb, ◌==◌, if◌then◌else◌, u16, u32,
}
use zerovisor.Util.Decimal.{codes, put_dec}
use zerovisor.Migrate.Channel.{chan_clear}
use zerovisor.Migrate.Sink.{no_entry}
use zerovisor.Migrate.State.{
  TxEntry, Machine, ExportSink, console, null, buffer, snp, virtio, mig_cfg_saves, mig_cfg_loads,
}
use zerovisor.Migrate.Codec.{
  typ_page, typ_manifest, typ_ctrl, two_bytes, four_bytes, slice, le_u16, le_u32,
}
use zerovisor.Migrate.Sender.{tx_log_cap, count, net_get_mtu, get_chunk_size, set_chunk_size}

abbrev pub net_set_mtu : ℕ → Machine → Machine
net_set_mtu mtu m = record m { mtu = if ltb mtu 576 then 576 else mtu }

abbrev pub sink_to_u8 : ExportSink → ℕ
sink_to_u8 console = 0
sink_to_u8 null = 1
sink_to_u8 buffer = 2
sink_to_u8 snp = 3
sink_to_u8 virtio = 4

abbrev pub u8_to_sink : ℕ → ExportSink
u8_to_sink v =
    if v == 0
    then console
    else if v == 1
    then null
    else if v == 2
    then buffer
    else if v == 3
    then snp
    else if v == 4
    then virtio
    else buffer

abbrev pub flag_byte : Bool → ℕ
flag_byte b = if b then 1 else 0

-- What is saved under `ZerovisorMigCfg` and under `ZerovisorMigNet`.
unfoldable pub saved_cfg : Machine → List ℕ
saved_cfg m = four_bytes (u32 (get_chunk_size m)) ++ four_bytes m.next_seq

unfoldable pub saved_net : Machine → List ℕ
saved_net m =
    m.dest_mac
    ++ (four_bytes (u32 (net_get_mtu m))
        ++ (two_bytes (u16 m.ether_type)
            ++ (sink_to_u8 m.resend_sink
                ∷ flag_byte m.auto_ack
                ∷ flag_byte m.auto_nak
                ∷ sink_to_u8 m.default_sink
                ∷ [])))

-- The two variables and the state after the save.
unfoldable pub cfg_save : Machine → (List ℕ × List ℕ) × Machine
unfolding saved_cfg saved_net
cfg_save m = ((saved_cfg m, saved_net m), count mig_cfg_saves 1 m)

unfoldable pub load_cfg : Option (List ℕ) → Machine → Machine
load_cfg none m = m
load_cfg (some bytes) m =
    let m1 = set_chunk_size (le_u32 (slice bytes 0 4)) m in
    let m2 = count mig_cfg_loads 1 (record m1 { next_seq = le_u32 (slice bytes 4 8) }) in
    if leb 8 (length bytes) then m2 else m

unfoldable pub load_net : Option (List ℕ) → Machine → Machine
load_net none m = m
load_net (some bytes) m =
    let n = length bytes in
    let m1 = net_set_mtu (le_u32 (slice bytes 6 10)) (record m { dest_mac = slice bytes 0 6 }) in
    let m2 = if leb 12 n then record m1 { ether_type = le_u16 (slice bytes 10 12) } else m1 in
    let m3 = if leb 13 n then record m2 { resend_sink = u8_to_sink (get_or bytes 12 0) } else m2 in
    let m4 = if leb 14 n then record m3 { auto_ack = not (get_or bytes 13 0 == 0) } else m3 in
    let m5 = if leb 15 n then record m4 { auto_nak = not (get_or bytes 14 0 == 0) } else m4 in
    let m6 = if leb 16 n then record m5 { default_sink = u8_to_sink (get_or bytes 15 0) } else m5 in
    if leb 10 n then m6 else m

unfoldable pub cfg_load : (cfg net : Option (List ℕ)) → Machine → Machine
unfolding load_cfg load_net
cfg_load cfg net m = load_net net (load_cfg cfg m)

-- The log, the sequence number and the channel as at the start.
unfoldable pub reset : Machine → Machine
unfolding chan_clear
reset m = record m {
  next_seq = 1;
  tx_widx = 0;
  tx_log = replicate tx_log_cap no_entry;
  chan = chan_clear m.chan;
}

abbrev pub kind_text : ℕ → List ℕ
kind_text kind =
    if kind == typ_page
    then codes "page"
    else if kind == typ_manifest
    then codes "manifest"
    else if kind == typ_ctrl
    then codes "ctrl"
    else codes "?"

-- A line of `txlog_dump`, in a buffer of 96 bytes.
unfoldable pub txlog_line : TxEntry → List ℕ
unfolding put_dec
txlog_line e =
    let line = put_dec 96 e.seq ((codes "txlog: kind=" ++ kind_text e.kind) ++ codes " seq=") in
    let paged = put_dec 96 (u32 e.page_index) (line ++ codes " page=") in
    (if e.kind == typ_page then paged else line) ++ (0x0D ∷ 0x0A ∷ [])

-- The lines of the last `count` entries that are still there, of all of them where it is 0.
unfoldable pub txlog_dump : ℕ → Machine → List (List ℕ)
unfolding txlog_line
txlog_dump count m =
    let total = if ltb tx_log_cap m.tx_widx then tx_log_cap else m.tx_widx in
    let n = if count == 0 || ltb total count then total else count in
    let start = m.tx_widx - n in
    tabulate n (λ i. txlog_line (get_or m.tx_log ((start + i) % tx_log_cap) no_entry))
