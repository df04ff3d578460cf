-- ===== src/Repl/Handshake/Agreement.antt =====
-- The two sides of the handshake together.
use key_value_store.Common.{
  ℕ, ◌+◌, ◌<◌, ◌≤◌, ◌^◌, ◌≡◌, refl, sym, ap, ◌∙◌, subst, true, false, List, [], ◌∷◌, ◌++◌, Bytes,
  codes, length, bytes_eq, arith, to_string, if_elim, add64,
}
use key_value_store.Net.Lines.{newline, HasNoNewline}
use key_value_store.Repl.Control.{read_control, max_control_line}
use key_value_store.Repl.Control.Words.{IsWord, joined, read_control_words, three_words_lem}
use key_value_store.Repl.Control.Numbers.{to_string-IsWord}
use key_value_store.Repl.Handshake.{
  from_offset, Shaken, perform_handshake, answer_request, start_from, full_reply, resume_reply,
  can_resume, Link, load_leader_token, sync_token, sync_request, ResyncIo, full_resync,
  follow_reply, follow_words, follow_line, handshake, with_sent,
}
use key_value_store.Repl.Handshake.Requests.{no_separators-IsWord, sync_request-read}
use key_value_store.Repl.Leader.{Session}
use key_value_store.Store.Engine.{log_offset}
use key_value_store.Wal.Log.{WriteResult, write_all}
use key_value_store.Wal.Log.Appending.{write_all-IsWritten}
use key_value_store.Repl.Handshake.Resyncing.{AgreesIf, full_resync-Agrees}

-- The replies of the leader, as the follower reads them.
reply_read :
    (io : ResyncIo) (verb token last rest : Bytes) (l : Link)
    → IsWord verb
    → IsWord token
    → HasNoNewline last
    → length verb + (length token + length last) ≤ 254
    → follow_line io
        (read_control max_control_line (joined verb token (last ++ (newline ∷ [])) ++ rest))
        l
      ≡ follow_reply io (joined verb token last) l
unfolding follow_line
reply_read io verb token last rest l word word' plain short =
    ap (λ o. follow_line io o l) (read_control_words verb token last rest word word' plain short)

resume_followed :
    (io : ResyncIo) (token last : Bytes) (l : Link)
    → IsWord token
    → follow_reply io (joined (codes "+RESUME") token last) l ≡ (true, false, l)
unfolding follow_reply
resume_followed io token last l word =
    ap (λ o. follow_words io o l)
      (three_words_lem (codes "+RESUME") token last (no_separators-IsWord (codes "+RESUME") refl).0
        word.0)
    ∙ (unfold follow_words bytes_eq in refl)

full_followed :
    (io : ResyncIo) (token last : Bytes) (l : Link)
    → IsWord token
    → follow_reply io (joined (codes "+FULL") token last) l ≡ full_resync io token l
unfolding follow_reply
full_followed io token last l word =
    ap (λ o. follow_words io o l)
      (three_words_lem (codes "+FULL") token last (no_separators-IsWord (codes "+FULL") refl).0
        word.0)
    ∙ (unfold follow_words bytes_eq in refl)

zero_is_plain : HasNoNewline (codes "0")
zero_is_plain = (no_separators-IsWord (codes "0") refl).1

-- What the follower makes of a reply that the leader wrote whole.
abbrev FollowsIf : ResyncIo → Bytes → Link → Shaken → Type 0
FollowsIf io rest l z =
    z.accepted ≡ true
    → AgreesIf io z.session.sent_offset
        (follow_line io (read_control max_control_line (z.out ++ rest)) l)

module _ (io : ResyncIo) (script : List WriteResult) (leader_token : Bytes) (leader_offset : ℕ)
    (word : IsWord leader_token) (fits : length leader_token ≤ 200) (rest : Bytes) (l : Link) where
  start_from-Follows :
      (reply : Bytes) (offset : ℕ) (session : Session) (n : ℕ)
      → AgreesIf io offset (follow_line io (read_control max_control_line (reply ++ rest)) l)
      → FollowsIf io rest l (start_from script leader_token leader_offset reply offset session n)
  unfolding start_from
  start_from-Follows reply offset session n x all =
      subst (λ z. AgreesIf io offset (follow_line io (read_control max_control_line (z ++ rest)) l))
        (sym ((write_all-IsWritten script reply).all all)) x

  resume-Agrees :
      (offset : ℕ)
      → offset ≡ log_offset l.follower.applier.store
      → AgreesIf io offset (
          follow_line io
            (read_control max_control_line
              (resume_reply script leader_token leader_offset offset ++ rest))
            l)
  unfolding resume_reply
  resume-Agrees offset e =
      let (number, digits) = to_string-IsWord offset in
      subst (AgreesIf io offset)
        (sym (
          reply_read io (codes "+RESUME") leader_token (to_string offset) rest l
            (no_separators-IsWord (codes "+RESUME") refl) word number.1
            (omega (arith, fits, digits))
          ∙ resume_followed io leader_token (to_string offset) l word))
        e

  full-Agrees : AgreesIf io 0 (
      follow_line io
        (read_control max_control_line (full_reply script leader_token leader_offset ++ rest))
        l)
  unfolding full_reply
  full-Agrees =
      subst (AgreesIf io 0)
        (sym (
          reply_read io (codes "+FULL") leader_token (codes "0") rest l
            (no_separators-IsWord (codes "+FULL") refl) word zero_is_plain (omega (arith, fits))
          ∙ full_followed io leader_token (codes "0") l word))
        (full_resync-Agrees io leader_token l)

  answer-Follows :
      (token : Bytes) (session : Session) (n : ℕ)
      → FollowsIf io rest l (
          answer_request script leader_token leader_offset
            (from_offset token (log_offset l.follower.applier.store))
            session
            n)
  unfolding answer_request
  answer-Follows token session n =
      let offset = log_offset l.follower.applier.store in
      if_elim (FollowsIf io rest l) (can_resume script leader_token leader_offset token offset)
        (start_from-Follows (resume_reply script leader_token leader_offset offset) offset session n
          (resume-Agrees offset refl))
        (start_from-Follows (full_reply script leader_token leader_offset) 0 session (add64 n 1)
          full-Agrees)

-- Where the leader takes the follower that wrote its request whole, the follower takes the reply
-- unless its log could not be emptied, and the leader sends from the offset that the log of the
-- follower then has: it resumes, or both start anew. The tokens have at most 200 bytes, and that of
-- the leader no space and no newline; the log offset is below 2 ^ 64.
pub handshake-Agrees :
    (io : ResyncIo) (script told : List WriteResult) (leader_token : Bytes) (leader_offset : ℕ)
    (rest rest' : Bytes) (session : Session) (n : ℕ) (l : Link) (z : Shaken)
    → IsWord leader_token
    → length leader_token ≤ 200
    → length (load_leader_token l) ≤ 200
    → log_offset l.follower.applier.store < 2 ^ 64
    → (write_all told (sync_request l)).1 ≡ true
    → perform_handshake script leader_token leader_offset (sync_request l ++ rest) session n ≡ z
    → z.accepted ≡ true
    → AgreesIf io z.session.sent_offset (handshake io told (z.out ++ rest') l)
unfolding handshake with_sent
handshake-Agrees io script told leader_token leader_offset rest rest' session n l z word fits short
      small written answered accepted =
    let l' = with_sent (write_all told (sync_request l)).0 l in
    let offset = log_offset l.follower.applier.store in
    let same =
      sym answered
      ∙ sync_request-read script leader_token leader_offset rest session n l short small in
    rw (written) (
      subst (FollowsIf io rest' l') (sym same)
        (answer-Follows io script leader_token leader_offset word fits rest' l'
          (sync_token (load_leader_token l) offset) session n)
        accepted)
