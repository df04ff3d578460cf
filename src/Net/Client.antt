-- ===== src/Net/Client.antt =====
-- src/net/event_loop.h and event_loop.cpp: one client of the loop, its buffers and what its socket takes. The session and its store
-- are `peer`. The answers of `read` and `write` are arguments. Beside the fields of
-- the source a turn keeps what was read from the socket, what the socket took, and what the poller
-- watches. Sizes in bytes stay below 2 ^ 64.
use key_value_store.Common.{
  ℕ, ◌+◌, ◌-◌, ◌*◌, ◌/◌, Bool, true, false, ◌&&◌, not, List, [], ◌∷◌, ◌++◌, Bytes, length, take,
  drop, ltb, if◌then◌else◌, add64,
}
use key_value_store.Net.Lines.{max_line_length, too_long_line}

abbrev pub max_output_bytes : ℕ
max_output_bytes = 8 * 1024 * 1024

abbrev pub pause_reading_above_bytes : ℕ
pause_reading_above_bytes = 1 * 1024 * 1024

-- A client without its socket and its session.
pub record Client : Type 0 where
  pub inbuf : Bytes
  pub outbuf : Bytes
  pub out_sent : ℕ
  pub wants_read : Bool
  pub wants_write : Bool
  pub close_after_flush : Bool
  pub reading_paused : Bool

abbrev pub new_client : Client
new_client = record {
  inbuf = [];
  outbuf = [];
  out_sent = 0;
  wants_read = true;
  wants_write = false;
  close_after_flush = false;
  reading_paused = false;
}

-- One client in the loop: `taken` was read from its socket, `wire` was written to it, and the poller
-- watches it for reading and for writing as `watched` says.
pub record Turn {ℓ} (S : Type ℓ) : Type ℓ where
  pub client : Client
  pub peer : S
  pub commands : ℕ
  pub short_writes : ℕ
  pub evicted_for_backlog : ℕ
  pub taken : Bytes
  pub wire : Bytes
  pub watched : Bool × Bool

-- A client that was just accepted and added to the poller for reading.
unfoldable pub new_turn {ℓ} : {S : Type ℓ} → S → Turn S
new_turn s = record {
  client = new_client;
  peer = s;
  commands = 0;
  short_writes = 0;
  evicted_for_backlog = 0;
  taken = [];
  wire = [];
  watched = (true, false);
}

abbrev pub unsent : Client → Bytes
unsent c = drop c.out_sent c.outbuf

abbrev pub backlog : Client → ℕ
backlog c = length c.outbuf - c.out_sent

-- One answer of `write`: that many bytes, `EINTR`, `EAGAIN`, or an error.
pub data SendResult : Type 0 where
  took : ℕ → SendResult
  interrupted would_block failed : SendResult

pub data SendEnd : Type 0 where
  all_sent blocked broken : SendEnd

-- One answer of `read`: some bytes, the end, `EINTR`, `EAGAIN`, or an error.
pub data ReadResult : Type 0 where
  received : Bytes → ReadResult
  at_end interrupted_read no_input read_failed : ReadResult

-- The loop of `flush`: what the socket takes, and how it ends. The calls past the end of the list
-- take whatever is left.
unfoldable pub write_out : List SendResult → Bytes → Bytes × SendEnd
write_out [] rest = (rest, all_sent)
write_out (r ∷ script) [] = ([], all_sent)
write_out (interrupted ∷ script) (b ∷ rest) = write_out script (b ∷ rest)
write_out (would_block ∷ script) (b ∷ rest) = ([], blocked)
write_out (failed ∷ script) (b ∷ rest) = ([], broken)
write_out (took n ∷ script) (b ∷ rest) =
    let (more, end) = write_out script (drop n (b ∷ rest)) in (take n (b ∷ rest) ++ more, end)

abbrev pub agree : Bool → Bool → Bool
agree true b = b
agree false b = not b

-- One event of the poller, and the answers while it is handled.
pub record Event : Type 0 where
  pub readable : Bool
  pub writable : Bool
  pub closed : Bool

pub record EventIo : Type 0 where
  pub first_writes : List SendResult
  pub reads : List ReadResult
  pub writes : List SendResult

module _ {ℓ} {S : Type ℓ} where
  abbrev pub with_client : Client → Turn S → Turn S
  with_client c t = record t { client = c }

  abbrev pub close_soon : Turn S → Turn S
  close_soon t = with_client (record t.client { close_after_flush = true }) t

  abbrev pub pause : Turn S → Turn S
  pause t = with_client (record t.client { reading_paused = true }) t

  abbrev pub resume : Turn S → Turn S
  resume t = with_client (record t.client { reading_paused = false }) t

  abbrev pub put_out : Bytes → Turn S → Turn S
  put_out text t = with_client (record t.client { outbuf = t.client.outbuf ++ text }) t

  abbrev pub count_command : Turn S → Turn S
  count_command t = record t { commands = add64 t.commands 1 }

  unfoldable pub refuse_long : Turn S → Turn S
  refuse_long t =
      if ltb max_line_length (length t.client.inbuf)
      then close_soon (put_out too_long_line t)
      else t

  unfoldable pub update_interest : Turn S → Turn S
  update_interest t =
      let want_write = ltb t.client.out_sent (length t.client.outbuf) in
      let want_read = not t.client.reading_paused in
      if agree want_write t.client.wants_write && agree want_read t.client.wants_read
      then t
      else record t {
        client = record t.client { wants_write = want_write; wants_read = want_read };
        watched = (want_read, want_write);
      }

  -- The answers before the one that ends the loop are `EINTR`.
  unfoldable pub read_from : List ReadResult → Turn S → Bool × Bool × Turn S
  read_from [] t = (true, false, t)
  read_from (r ∷ script) t = if t.client.reading_paused then (true, false, t) else elim r [
    | interrupted_read ↦ read_from script t
    | no_input ↦ (true, false, t)
    | read_failed ↦ (false, false, t)
    | at_end ↦ (true, true, t)
    | received bytes ↦ (
      true,
      false,
      record t {
        client = record t.client { inbuf = t.client.inbuf ++ bytes };
        taken = t.taken ++ bytes;
      },
    )
  ]

  -- What the socket took is counted.
  abbrev pub sent_out : Bytes → Turn S → Turn S
  sent_out out t = record t {
    client = record t.client { out_sent = t.client.out_sent + length out };
    wire = t.wire ++ out;
  }

  abbrev pub count_short : Turn S → Turn S
  count_short t = record t { short_writes = add64 t.short_writes 1 }

  abbrev pub drained : Turn S → Turn S
  drained t = with_client (record t.client { outbuf = []; out_sent = 0 }) t

  -- `erase(0, outSent)` once more than half is sent.
  unfoldable pub trim : Turn S → Turn S
  trim t =
      if ltb 0 t.client.out_sent && ltb (length t.client.outbuf / 2) t.client.out_sent
      then with_client (record t.client { outbuf = unsent t.client; out_sent = 0 }) t
      else t

  -- The peer has closed its side: what is left to send is sent.
  unfoldable pub note_end : Bool → Turn S → Turn S
  note_end peer_closed t = if peer_closed then pause (close_soon t) else t
