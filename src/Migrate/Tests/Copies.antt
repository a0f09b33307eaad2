-- ===== src/Migrate/Tests/Copies.antt =====
-- Runs of the loops without frames of src/migrate/mod.rs at concrete inputs.
use zerovisor.Base.{
  ◌/◌, ◌≡◌, ℕ, ◌*◌, ◌%◌, ◌≤◌, ◌<◌, ◌==◌, if◌then◌else◌, refl, true, false, [], ◌∷◌, some, arith,
  replicate,
}
use zerovisor.Events.Audit.{quiet}
use zerovisor.Events.Trace.{clear}
use zerovisor.Migrate.Channel.{Buffer}
use zerovisor.Migrate.Channel.Ring.{IsValid}
use zerovisor.Migrate.State.{Machine, buffer, null}
use zerovisor.Migrate.Tracking.{Tracking, DirtyTracker, scan_round, intel_ept}
use zerovisor.Migrate.Precopy.{precopy, copy_pages, no_copies}
use zerovisor.Migrate.Precopy.Throttled.{precopy_throttled}
use zerovisor.Migrate.Precopy.Delivered.{Copies, pages_bytes, copy_pages-Delivers}
use zerovisor.Migrate.Precopy.Rounds.{Agree, precopy_throttled-precopy}

abbrev ring : Buffer
ring = record { mem = replicate 64 0; cap = 64; wpos = 3; len = 2 }

ring-IsValid : IsValid ring
ring-IsValid = omega arith

abbrev linked : Machine
linked = record {
  chan = some ring;
  next_seq = 1;
  chunk = 1500;
  tx_log = [];
  tx_widx = 0;
  dest_mac = [];
  mtu = 1500;
  ether_type = 0x88B5;
  resend_sink = buffer;
  auto_ack = false;
  auto_nak = false;
  default_sink = buffer;
  last_seq = 0;
  counts = [];
  lines = [];
}

-- Page 2 is of zeros, and page 5 is not.
abbrev guest_memory : ℕ → ℕ
guest_memory a = a / (5 * 4096) % 256

guest_memory-bytes : (a : ℕ) → guest_memory a < 256
guest_memory-bytes a = omega arith

copy_pages-Delivers_example :
    Copies ring
      (pages_bytes guest_memory (2 ∷ 5 ∷ []))
      linked
      (copy_pages guest_memory buffer (2 ∷ 5 ∷ []) (no_copies, linked)).1
copy_pages-Delivers_example =
    copy_pages-Delivers guest_memory guest_memory-bytes (2 ∷ 5 ∷ []) ring no_copies linked
      ring-IsValid refl (omega arith, (omega arith, tt))

-- The tables of a guest: page 5 is mapped and dirty.
abbrev guest_tables : ℕ → ℕ
guest_tables a =
    if a == 0x5000
    then 0x6007
    else if a == 0x6000
    then 0x7007
    else if a == 0x7000
    then 0x8007
    else if a == 0x8028
    then 0x5207
    else 0

abbrev guest_tracker : DirtyTracker
guest_tracker = record { vm_id = 7; root_phys = 0x5000; memory_limit = 0x8000; kind = intel_ept }

abbrev tracking : Tracking
tracking = record {
  state = some (record {
    tracker = guest_tracker;
    bitmap = record { base = replicate 1 0; bytes = 1; pages = 8 };
  });
  machine = linked;
  audit = quiet;
  events = clear;
  tables = guest_tables;
}

-- The first round of a copy finds the page.
one_dirty : (scan_round true tracking).1 ≡ 1
unfolding scan_round
one_dirty = refl

precopy_throttled-precopy_example :
    ((precopy 3 guest_memory true null tracking).0 ≤ 3)
    × Agree
        (precopy_throttled 3 guest_memory true null 200 tracking)
        (precopy 3 guest_memory true null tracking)
precopy_throttled-precopy_example = precopy_throttled-precopy guest_memory null 200 3 true tracking
