-- ===== src/Session/Committing.antt =====
-- A session keeps its promise at a commit.
use key_value_store.Common.{
  not, true, ltb, ap, fun_ext, to_string, length, codes, false, subst, sym, ℕ, ◌≡◌, refl, ap, ◌∙◌,
  Bool, List, [], ◌∷◌, ◌++◌, Option, none, some, Bytes, codes, if◌then◌else◌,
}
use key_value_store.Store.Mutation.{Mutation}
use key_value_store.Store.ShardedMap.{apply_atomically, ShardedMap}
use key_value_store.Store.Engine.{Store, commit_transaction}
use key_value_store.Store.ShardedMap.Batch.{effect}
use key_value_store.Store.ShardedMap.Settle.{apply_atomically-Commits}
use key_value_store.Store.Engine.Endings.{commit_transaction_ends}
use key_value_store.Protocol.Parser.{commit_type, ParsedCommand}
use key_value_store.Transaction.{Transaction, txn_commit, after_commit}
use key_value_store.Session.{new_session, commit_reply, LineIo, commit_line, LineIo, say}
use key_value_store.Session.Promised.{promised_state, promised_reply, Represents}
use key_value_store.Session.Answering.{
  Serves, promised, commit_failed, ServesAt, client, session_of,
}

module _ (hash : Bytes → ℕ) (f : Bytes → Option Bytes) (io : LineIo) (cmd : ParsedCommand)
    (s : Store) where
  commit_active :
      (t : Transaction)
      → t.active ≡ true
      → txn_commit hash io.log t s
        ≡ after_commit t (commit_transaction hash io.log t.id t.mutations s)
  unfolding txn_commit
  commit_active t e =
      ap
        (λ b.
          if not b
          then (false, t, s)
          else after_commit t (commit_transaction hash io.log t.id t.mutations s))
        e

  -- What a commit gives, by whether the store made it.
  abbrev CommitServes : Transaction → List Mutation → Bool → ShardedMap → Bool → Type 0
  CommitServes t l true m b =
      Serves hash commit_type cmd (client f (some l))
        (say (codes "$committed=" ++ to_string (length t.mutations))) none m b
  CommitServes t l false m b =
      Serves hash commit_type cmd (client f (some l))
        (say (codes "-ERR commit failed; transaction still open")) (some t) m b

  commit_end :
      (t : Transaction) (l : List Mutation) (x : Bool × Store)
      → CommitServes t l x.0 x.1.map x.1.read_only
      → ServesAt hash commit_type cmd
          (client f (some l))
          (commit_reply (length t.mutations) (after_commit t x))
  unfolding commit_reply after_commit new_session
  commit_end t l (true, s') p = p
  commit_end t l (false, s') p = p

  committed :
      (t : Transaction) (l : List Mutation)
      → Represents hash (some t) s.map s.read_only (client f (some l))
      → Represents hash none
          (apply_atomically hash t.mutations s.map)
          s.read_only
          (client (effect l f) none)
  committed t l r =
      let (active, same, x) = r.buffers in
      let c = apply_atomically-Commits hash t.mutations s.map r.valid in
      record {
        valid = c.valid;
        finds = λ j.
            c.exact r.off j
            ∙ ap (λ (g : Bytes → Option Bytes). effect t.mutations g j) (fun_ext r.finds)
            ∙ ap (λ z. effect z f j) same;
        off = ap (λ (n : ℕ). ltb 0 n) c.memory ∙ r.off;
        writable = r.writable;
        buffers = tt;
      }

  pub commit_serves :
      (o : Option Transaction) (l : Option (List Mutation))
      → Represents hash o s.map s.read_only (client f l)
      → ServesAt hash commit_type cmd (client f l) (commit_line hash io (session_of o) s)
  unfolding commit_line promised_state promised_reply
  commit_serves none none r = promised _ refl refl r
  commit_serves (some t) (some l) r =
      let (active, same, x) = r.buffers in
      subst
        (λ y.
          ServesAt hash commit_type cmd (client f (some l)) (commit_reply (length t.mutations) y))
        (sym (commit_active t active))
        (commit_end t l _ (
          commit_transaction_ends hash io.log s (CommitServes t l) t.id t.mutations
            (promised _ refl
              (ap
                (λ (z : List Mutation).
                  (codes "$committed=" ++ to_string (length z) ++ (10 ∷ []), false))
                same)
              (committed t l r))
            (commit_failed refl refl r)))
  commit_serves none (some l) r = absurd r.buffers
  commit_serves (some t) none r = absurd r.buffers
