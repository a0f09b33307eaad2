-- ===== src/Migrate/Sender/Writers.antt =====
-- What reaches the channel buffer: cutting a message into chunks makes no difference to it.
use zerovisor.Base.{
  ℕ, zero, suc, ◌+◌, ◌≤◌, ◌<◌, min, ◌≡◌, refl, ap, ◌∙◌, sym, Bool, true, false, List, [], ◌∷◌, ◌++◌,
  some, arith, length, take, drop, length-take, length-drop, take-append-drop, ◌==◌,
}
use zerovisor.Migrate.Channel.{Buffer}
use zerovisor.Migrate.Channel.Ring.{IsValid, pushes, pushes-IsValid, pushes-append}
use zerovisor.Migrate.Channel.Contents.{chan_write-eq-pushes}
use zerovisor.Migrate.State.{Machine, Counter, mig_cb_written_bytes}
use zerovisor.Migrate.Sender.{
  count, write_channel, buffer_writer, get_chunk_size, chunks_loop, write_chunked, send_bytes,
}

-- From `m` to `m'` exactly the bytes of `src` have gone to the buffer `b`, and only counters and
-- the buffer differ.
pub record Delivers (b : Buffer) (src : List ℕ) (m m' : Machine) : Type 0 where
  pub chan : m'.chan ≡ some (pushes b src)
  pub next_seq : m'.next_seq ≡ m.next_seq
  pub chunk : m'.chunk ≡ m.chunk
  pub tx_log : m'.tx_log ≡ m.tx_log
  pub tx_widx : m'.tx_widx ≡ m.tx_widx

pub Delivers-append :
    {b : Buffer} {xs ys : List ℕ} {m n o : Machine}
    → Delivers b xs m n
    → Delivers (pushes b xs) ys n o
    → Delivers b (xs ++ ys) m o
Delivers-append {b} {xs} {ys} d e = record {
  chan = e.chan ∙ ap some (sym (pushes-append b xs ys));
  next_seq = e.next_seq ∙ d.next_seq;
  chunk = e.chunk ∙ d.chunk;
  tx_log = e.tx_log ∙ d.tx_log;
  tx_widx = e.tx_widx ∙ d.tx_widx;
}

-- Counting does not matter to a delivery.
pub count-Delivers :
    {b : Buffer} {src : List ℕ} {m m' : Machine} (c : Counter) (n : ℕ)
    → Delivers b src m m'
    → Delivers b src m (count c n m')
count-Delivers c n d = record {
  chan = d.chan;
  next_seq = d.next_seq;
  chunk = d.chunk;
  tx_log = d.tx_log;
  tx_widx = d.tx_widx;
}

-- The state after a write of `src` to the buffer `b`.
abbrev pub written_to : Buffer → List ℕ → Machine → Machine
written_to b src m =
    count mig_cb_written_bytes (length src) (record m { chan = some (pushes b src) })

pub buffer_writer-eq :
    (b : Buffer) (src : List ℕ) (m : Machine)
    → IsValid b
    → m.chan ≡ some b
    → buffer_writer src m ≡ (written_to b src m, length src)
unfolding buffer_writer
buffer_writer-eq b src m v e = rw (e, write_channel, chan_write-eq-pushes b src v)

pub written_to-Delivers :
    (b : Buffer) (src : List ℕ) (m : Machine) → Delivers b src m (written_to b src m)
written_to-Delivers b src m = record {
  chan = refl;
  next_seq = refl;
  chunk = refl;
  tx_log = refl;
  tx_widx = refl;
}

chunks_step :
    (fuel chunk : ℕ) (b : Buffer) (src : List ℕ) (written : ℕ) (m : Machine)
    → IsValid b
    → m.chan ≡ some b
    → 0 < length src
    → let head = take (min chunk (length src)) src in
      chunks_loop (suc fuel) chunk buffer_writer src written m
      ≡ chunks_loop fuel chunk buffer_writer
          (drop (min chunk (length src)) src)
          (written + length head)
          (written_to b head m)
unfolding chunks_loop
chunks_step fuel chunk b src written m v e h =
    let more : (length src == 0) ≡ false = ground arith in
    rw (more, buffer_writer-eq b (take (min chunk (length src)) src) m v e)

chunks_loop-Delivers :
    (fuel chunk : ℕ) (b : Buffer) (src : List ℕ) (written : ℕ) (m : Machine)
    → IsValid b
    → m.chan ≡ some b
    → 0 < chunk
    → length src ≤ fuel
    → let (m', k) = chunks_loop fuel chunk buffer_writer src written m in
      Delivers b src m m' × (k ≡ written + length src)
chunks_loop-Delivers zero chunk b [] written m v e p f =
    unfold chunks_loop pushes in
    (record { chan = e; next_seq = refl; chunk = refl; tx_log = refl; tx_widx = refl }, omega arith)
chunks_loop-Delivers zero chunk b (x ∷ xs) written m v e p f = absurd (omega arith)
chunks_loop-Delivers (suc fuel) chunk b [] written m v e p f =
    unfold chunks_loop pushes in
    (record { chan = e; next_seq = refl; chunk = refl; tx_log = refl; tx_widx = refl }, omega arith)
chunks_loop-Delivers (suc fuel) chunk b (x ∷ xs) written m v e p f =
    let src = x ∷ xs in
    let n : ℕ = min chunk (length src) in
    let head = take n src in
    let tail = drop n src in
    let ih =
      chunks_loop-Delivers fuel chunk (pushes b head) tail (written + length head)
        (written_to b head m) (pushes-IsValid head v) refl p (omega (arith, length-drop n src)) in
    rw (chunks_step fuel chunk b src written m v e (omega arith)) (
      rw (take-append-drop n src) at (Delivers-append (written_to-Delivers b head m) ih.0),
      omega (arith, ih.1, length-take n src, length-drop n src),
    )

-- `write_chunked` to the channel buffer stores the whole message, in order, whatever the chunk
-- size is set to; it returns the number of bytes, and changes nothing else but counters.
pub write_chunked-Delivers :
    (b : Buffer) (src : List ℕ) (m : Machine)
    → IsValid b
    → m.chan ≡ some b
    → let (m', k) = write_chunked buffer_writer src m in Delivers b src m m' × (k ≡ length src)
unfolding write_chunked
write_chunked-Delivers b src m v e =
    let (d, k) =
      chunks_loop-Delivers (length src) (get_chunk_size m) b src 0 m v e (ground arith)
        (omega arith) in
    (d, omega (arith, k))

pub send_bytes-Delivers :
    (b : Buffer) (chunked : Bool) (src : List ℕ) (m : Machine)
    → IsValid b
    → m.chan ≡ some b
    → Delivers b src m (send_bytes buffer_writer chunked src m)
unfolding send_bytes
send_bytes-Delivers b true src m v e = (write_chunked-Delivers b src m v e).0
send_bytes-Delivers b false src m v e =
    rw (buffer_writer-eq b src m v e) (written_to-Delivers b src m)
