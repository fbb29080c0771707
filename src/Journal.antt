-- ===== src/Journal.antt =====
-- The journal of the daemon, devitd/src/journal.rs: entries that are chained by an HMAC. A line of the
-- file is what serde_json reads from it; the HMAC with its base64 encoding, the printing of numbers
-- and the JSON text of a value are parameters.
use devit.Prelude.{
  ℕ, suc, ◌+◌, ◌%◌, ◌^◌, Bool, true, false, not, Option, none, some, List, [], ◌∷◌, ◌++◌, ◌==◌,
  if◌then◌else◌,
}
use devit.Text.{Text, text_eq}
pub mod Chain
mod Examples

pub record JEntry (Value : Type 0) : Type 0 where
  pub seq : ℕ
  pub ts : ℕ
  pub ev : Text
  pub msg_id : Text
  pub from : Text
  pub to : Text
  pub meta : Value
  pub prev : Text
  pub hash : Text

-- A line that is blank, one that is no entry, and an entry.
pub data Line (Value : Type 0) : Type 0 where
  blank malformed : Line Value
  entry : JEntry Value → Line Value

-- The key is the model's parameter; the file stands beside the journal.
pub record Journal : Type 0 where
  pub seq : ℕ
  pub last_hash : Text

-- The state that Journal::open starts from, whatever the file holds.
abbrev pub opened : Journal
opened = record { seq = 0; last_hash = [] }

-- A request for an entry, with the time at which it is made.
pub record Request (Value : Type 0) : Type 0 where
  pub ts : ℕ
  pub event : Text
  pub msg_id : Text
  pub from : Text
  pub to : Text
  pub meta : Value

-- seq + 1 on u64
abbrev pub next : ℕ → ℕ
next seq = (seq + 1) % 2 ^ 64

module _ (show : ℕ → Text) where
  -- format!("{}|{}|{}|{}|{}|{}", …)
  unfoldable pub canonical : ℕ → ℕ → Text → Text → Text → Text → Text
  canonical seq ts ev msg_id from to =
      show seq
      ++ (b'|' ∷ (show ts ++ (b'|' ∷ (ev ++ (b'|' ∷ (msg_id ++ (b'|' ∷ (from ++ (b'|' ∷ to)))))))))

module _ {Value : Type 0} (mac : Text → Text) (show : ℕ → Text) (to_json : Value → Text) where
  -- The hash of an entry that follows `prev`.
  unfoldable pub entry_hash : Text → ℕ → Request Value → Text
  unfolding canonical
  entry_hash prev seq r =
      mac (prev ++ (canonical show seq r.ts r.event r.msg_id r.from r.to ++ to_json r.meta))

  unfoldable pub new_entry : Journal → Request Value → JEntry Value
  unfolding entry_hash
  new_entry self r = record {
    seq = next self.seq;
    ts = r.ts;
    ev = r.event;
    msg_id = r.msg_id;
    from = r.from;
    to = r.to;
    meta = r.meta;
    prev = self.last_hash;
    hash = entry_hash self.last_hash (next self.seq) r;
  }

  -- `written` tells whether the line could be written; where not, nothing of it stands in the file, the
  -- sequence number has grown all the same, and the result is an error.
  unfoldable pub append :
      Bool
      → Request Value
      → Journal × List (Line Value)
      → Option Text × (Journal × List (Line Value))
  unfolding new_entry
  append written r (self, file) =
      let e = new_entry self r in
      if written
      then (some e.hash, (record { seq = e.seq; last_hash = e.hash }, file ++ (entry e ∷ [])))
      else (none, (record self { seq = e.seq }, file))

  abbrev pub request_of : JEntry Value → Request Value
  request_of e = record {
    ts = e.ts;
    event = e.ev;
    msg_id = e.msg_id;
    from = e.from;
    to = e.to;
    meta = e.meta;
  }

  -- The loop of verify_file: an error, or whether the lines are a chain behind `prev`.
  unfoldable pub verify_from : Text → ℕ → List (Line Value) → Option Bool
  unfolding entry_hash
  verify_from prev expected_seq [] = some true
  verify_from prev expected_seq (blank ∷ ls) = verify_from prev expected_seq ls
  verify_from prev expected_seq (malformed ∷ ls) = none
  verify_from prev expected_seq (entry e ∷ ls) =
      let rest = verify_from e.hash (next expected_seq) ls in
      if not (e.seq == expected_seq)
      then some false
      else if not (text_eq e.prev prev)
      then some false
      else if not (text_eq e.hash (entry_hash prev e.seq (request_of e)))
      then some false
      else rest

  unfoldable pub verify_file : List (Line Value) → Option Bool
  unfolding verify_from
  verify_file file = verify_from [] 1 file
