-- ===== src/Migrate/Settings/Saved.antt =====
-- The settings that `cfg_save` of src/migrate/mod.rs wrote come back with `cfg_load`.
use zerovisor.Base.{
  ℕ, ◌^◌, ◌≤◌, ◌<◌, ◌≡◌, refl, ap, ◌∙◌, Bool, true, false, not, [], ◌∷◌, some, arith, ◌==◌, ltb,
  u16, u32,
}
use zerovisor.Migrate.State.{Machine, ExportSink, console, null, buffer, snp, virtio, mig_cfg_loads}
use zerovisor.Migrate.Codec.{two_bytes, four_bytes, le_u16, le_u32}
use zerovisor.Migrate.Codec.Roundtrip.{le_u32-four_bytes, le_u16-two_bytes}
use zerovisor.Migrate.Sender.{net_get_mtu, get_chunk_size}
use zerovisor.Migrate.Settings.{
  sink_to_u8, u8_to_sink, flag_byte, cfg_save, cfg_load, saved_cfg, saved_net, load_cfg, load_net,
}

u8_to_sink-sink_to_u8 : (s : ExportSink) → u8_to_sink (sink_to_u8 s) ≡ s
u8_to_sink-sink_to_u8 console = refl
u8_to_sink-sink_to_u8 null = refl
u8_to_sink-sink_to_u8 buffer = refl
u8_to_sink-sink_to_u8 snp = refl
u8_to_sink-sink_to_u8 virtio = refl

flag-flag_byte : (b : Bool) → not (flag_byte b == 0) ≡ b
flag-flag_byte true = refl
flag-flag_byte false = refl

-- The settings have the widths of their fields, and the MTU is one that net_set_mtu gives.
pub record IsSettings (m : Machine) : Type 0 where
  pub chunk_fits : m.chunk < 2 ^ 32
  pub seq_fits : m.next_seq < 2 ^ 32
  pub mtu_least : 576 ≤ m.mtu
  pub mtu_fits : m.mtu < 2 ^ 32
  pub ether_type_fits : m.ether_type < 2 ^ 16

abbrev pub with_settings : Machine → Machine → Machine
with_settings s m = record m {
  chunk = get_chunk_size s;
  next_seq = s.next_seq;
  dest_mac = s.dest_mac;
  mtu = s.mtu;
  ether_type = s.ether_type;
  resend_sink = s.resend_sink;
  auto_ack = s.auto_ack;
  auto_nak = s.auto_nak;
  default_sink = s.default_sink;
  counts = (mig_cfg_loads, 1) ∷ m.counts;
}

load_cfg-saved_cfg :
    (s m : Machine)
    → IsSettings s
    → load_cfg (some (saved_cfg s)) m ≡ record m {
      chunk = get_chunk_size s;
      next_seq = s.next_seq;
      counts = (mig_cfg_loads, 1) ∷ m.counts;
    }
unfolding load_cfg saved_cfg
load_cfg-saved_cfg s m ok =
    let chunk : le_u32 (four_bytes (u32 (get_chunk_size s))) ≡ get_chunk_size s =
      le_u32-four_bytes (u32 (get_chunk_size s)) (omega arith) ∙ ground (arith, ok.chunk_fits) in
    let seq : le_u32 (four_bytes s.next_seq) ≡ s.next_seq =
      le_u32-four_bytes s.next_seq ok.seq_fits in
    let kept : (get_chunk_size s == 0) ≡ false = ground arith in rw (chunk, seq, kept) refl

load_net-saved_net :
    (a b c d e f : ℕ) (s m : Machine)
    → IsSettings s
    → s.dest_mac ≡ a ∷ b ∷ c ∷ d ∷ e ∷ f ∷ []
    → load_net (some (saved_net s)) m ≡ record m {
      dest_mac = s.dest_mac;
      mtu = s.mtu;
      ether_type = s.ether_type;
      resend_sink = s.resend_sink;
      auto_ack = s.auto_ack;
      auto_nak = s.auto_nak;
      default_sink = s.default_sink;
    }
unfolding load_net saved_net
load_net-saved_net a b c d e f s m ok mac =
    let mtu : le_u32 (four_bytes (u32 (net_get_mtu s))) ≡ s.mtu =
      le_u32-four_bytes (u32 (net_get_mtu s)) (omega arith)
      ∙ ground (arith, ok.mtu_fits, ok.mtu_least) in
    let ether : le_u16 (two_bytes (u16 s.ether_type)) ≡ s.ether_type =
      le_u16-two_bytes (u16 s.ether_type) (omega arith) ∙ omega (arith, ok.ether_type_fits) in
    let kept : ltb s.mtu 576 ≡ false = ground (arith, ok.mtu_least) in
    rw
      (
        mac,
        mtu,
        ether,
        kept,
        u8_to_sink-sink_to_u8 s.resend_sink,
        flag-flag_byte s.auto_ack,
        flag-flag_byte s.auto_nak,
        u8_to_sink-sink_to_u8 s.default_sink,
      )
      refl

-- What cfg_save saved of settings that have their widths, with an address of six bytes, cfg_load
-- brings back on any machine: every setting is the one saved, and nothing else changes but the
-- counter of the loads.
pub cfg_load-cfg_save :
    (a b c d e f : ℕ) (s m : Machine)
    → IsSettings s
    → s.dest_mac ≡ a ∷ b ∷ c ∷ d ∷ e ∷ f ∷ []
    → let ((cfg, net), _) = cfg_save s in cfg_load (some cfg) (some net) m ≡ with_settings s m
unfolding cfg_load cfg_save
cfg_load-cfg_save a b c d e f s m ok mac =
    ap (load_net (some (saved_net s))) (load_cfg-saved_cfg s m ok)
    ∙ load_net-saved_net a b c d e f s _ ok mac
