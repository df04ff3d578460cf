-- ===== src/Wal/Replay/Ends.antt =====
-- The loop of `replay` ends by its own tests on every file, whatever is in it.
use key_value_store.Common.{
  ◌⊎◌, ℕ, zero, suc, ◌+◌, ◌≤◌, ◌≡◌, refl, Bool, some, Bytes, length, arith, ltb, Bool-cases, inl,
  inr, ◌⊎◌, Option-cases,
}
use key_value_store.Wal.Record.{ParseResult, parsed, incomplete, corrupt, parse_record}
use key_value_store.Wal.Record.Framing.{parse_record_bounds}
use key_value_store.Wal.Replay.{ReplayResult, no_replay, replay_round, replay_loop, scan}
use key_value_store.Wal.Replay.Scanning.{loop_end}

module _ {ℓ} {S : Type ℓ} (on_record : Bytes → S → Bool × S) where
  parse_cases :
      (r : ParseResult)
      → ((payload : Bytes) × (next : ℕ) × (r ≡ parsed payload next))
        ⊎ ((r ≡ incomplete) ⊎ (r ≡ corrupt))
  parse_cases (parsed payload next) = inl (payload, next, refl)
  parse_cases incomplete = inr (inl refl)
  parse_cases corrupt = inr (inr refl)

  -- A round that goes on moves past a header at least.
  round_moves :
      (buffer : Bytes) (offset : ℕ) (r : ReplayResult) (s : S) (next : ℕ)
      → (replay_round on_record buffer offset r s).2 ≡ some next
      → offset + 8 ≤ next
  unfolding replay_round
  round_moves buffer offset r s next e = elim (parse_cases (parse_record buffer offset)) [
    | inl (payload, next', here) ↦
        let bounds = parse_record_bounds buffer offset here in ground (arith, e, here, bounds)
    | inr (inl here) ↦ ground (arith, e, here)
    | inr (inr here) ↦ ground (arith, e, here)
  ]

  loop-more :
      (n more : ℕ) (buffer : Bytes) (offset : ℕ) (r : ReplayResult) (s : S)
      → length buffer ≤ offset + n
      → replay_loop on_record (n + more) buffer offset r s
        ≡ replay_loop on_record n buffer offset r s
  unfolding replay_loop
  loop-more zero more buffer offset r s enough =
      loop_end on_record buffer (0 + more) offset r s (omega arith)
  loop-more (suc n) more buffer offset r s enough =
      let round = replay_round on_record buffer offset r s in
      let e : suc n + more ≡ suc (n + more) = omega arith in
      rw e (elim (Bool-cases (ltb offset (length buffer))) [
        | inr past ↦ rw (past, replay_loop) refl
        | inl inside ↦ elim (Option-cases round.2) [
          | inl stop ↦ rw (inside, stop, replay_loop) refl
          | inr (next, go_on) ↦
              let moved = round_moves buffer offset r s next go_on in
              rw (inside, go_on, replay_loop)
                (loop-more n more buffer next round.0 round.1 (omega (arith, moved, enough)))
        ]
      ])

  -- On every file and with every handler the loop of `replay` ends by its own tests: more rounds
  -- than the bytes of the file and one change neither the result nor the state.
  pub scan-enough :
      (more : ℕ) (buffer : Bytes) (s : S)
      → replay_loop on_record
          (suc (length buffer) + more)
          buffer
          0
          (record no_replay { file_bytes = length buffer })
          s
        ≡ scan on_record buffer s
  unfolding scan
  scan-enough more buffer s =
      loop-more (suc (length buffer)) more buffer 0
        (record no_replay { file_bytes = length buffer }) s (omega arith)
