-- ===== src/Journal/Chain.antt =====
-- What verification accepts.
use devit.Prelude.{
  ℕ, ◌+◌, ◌^◌, ◌<◌, ◌≡◌, refl, ap, ◌∙◌, true, false, some, List, [], ◌∷◌, ◌++◌, ◌==◌, arith,
  append_assoc,
}
use devit.Text.{Text, text_eq_refl}
use devit.Journal.{
  JEntry, Line, blank, malformed, entry, Journal, opened, Request, next, canonical, entry_hash,
  new_entry, append, request_of, verify_from, verify_file,
}

module _ {Value : Type 0} (mac : Text → Text) (show : ℕ → Text) (to_json : Value → Text) where
  -- The states of a journal that was opened on an empty file and whose lines were all written.
  pub data Reaches : Journal → List (Line Value) → Type 0 where
    start : Reaches opened []
    step :
        {self : Journal} {file : List (Line Value)} (r : Request Value)
        → Reaches self file
        → Reaches
            (append mac show to_json true r (self, file)).1.0
            (append mac show to_json true r (self, file)).1.1

  -- An entry that the journal makes passes all checks behind its last hash.
  verify_from-new_entry :
      (self : Journal) (r : Request Value) (rest : List (Line Value))
      → verify_from mac show to_json self.last_hash
          (next self.seq)
          (entry (new_entry mac show to_json self r) ∷ rest)
        ≡ verify_from mac show to_json
            (new_entry mac show to_json self r).hash
            (next (next self.seq))
            rest
  unfolding verify_from new_entry
  verify_from-new_entry self r rest =
      let same : (next self.seq == next self.seq) ≡ true = ground arith in
      rw
        (
          same,
          text_eq_refl self.last_hash,
          text_eq_refl (entry_hash mac show to_json self.last_hash (next self.seq) r),
        )
        refl

  -- Verification of `file` arrives at the state of the journal.
  abbrev Follows : Journal → List (Line Value) → Type 0
  Follows self file =
      (rest : List (Line Value))
      → verify_from mac show to_json [] 1 (file ++ rest)
        ≡ verify_from mac show to_json self.last_hash (next self.seq) rest

  append-Follows :
      (self : Journal) (file : List (Line Value)) (r : Request Value)
      → Follows self file
      → Follows
          (append mac show to_json true r (self, file)).1.0
          (append mac show to_json true r (self, file)).1.1
  unfolding append
  append-Follows self file r f rest =
      ap (verify_from mac show to_json [] 1)
        (append_assoc file (entry (new_entry mac show to_json self r) ∷ []) rest)
      ∙ f (entry (new_entry mac show to_json self r) ∷ rest)
      ∙ verify_from-new_entry self r rest

  Reaches-Follows :
      {self : Journal} {file : List (Line Value)} → Reaches self file → Follows self file
  Reaches-Follows start rest =
      ap (λ n. verify_from mac show to_json [] n rest) {x = 1} (omega arith)
  Reaches-Follows (step {self} {file} r s) rest =
      append-Follows self file r (Reaches-Follows s) rest

  -- An entry whose number is not the expected one fails.
  verify_from-out_of_order :
      (prev : Text) (expected : ℕ) (e : JEntry Value) (rest : List (Line Value))
      → (e.seq == expected) ≡ false
      → verify_from mac show to_json prev expected (entry e ∷ rest) ≡ some false
  unfolding verify_from
  verify_from-out_of_order prev expected e rest h = rw h

  -- An entry that is made with another state than the one the file has led to fails where the numbers
  -- differ.
  append-out_of_order :
      (self other : Journal) (file : List (Line Value)) (r : Request Value)
      → Follows self file
      → (next other.seq == next self.seq) ≡ false
      → verify_file mac show to_json (append mac show to_json true r (other, file)).1.1 ≡ some false
  unfolding verify_file append new_entry
  append-out_of_order self other file r f h =
      f (entry (new_entry mac show to_json other r) ∷ [])
      ∙ verify_from-out_of_order self.last_hash (next self.seq) (new_entry mac show to_json other r)
          [] h

  -- A journal that is opened again on a file that has entries breaks its chain: with the first line
  -- that is then written, verification of the file fails.
  pub append-opened :
      (self : Journal) (file : List (Line Value)) (r : Request Value)
      → Reaches self file
      → 0 < self.seq
      → self.seq < 2 ^ 64
      → verify_file mac show to_json (append mac show to_json true r (opened, file)).1.1
        ≡ some false
  append-opened self file r s some_entry small =
      append-out_of_order self opened file r (Reaches-Follows s) (ground arith)

  -- A line that could not be written leaves the number of the journal increased: the next line that is
  -- written makes verification of the file fail.
  pub append_failed :
      (self : Journal) (file : List (Line Value)) (lost r : Request Value)
      → Reaches self file
      → self.seq + 2 < 2 ^ 64
      → verify_file mac show to_json
          (append mac show to_json true r (append mac show to_json false lost (self, file)).1).1.1
        ≡ some false
  append_failed self file lost r s small =
      unfold append new_entry in
      append-out_of_order self (append mac show to_json false lost (self, file)).1.0 file r
        (Reaches-Follows s) (ground arith)

  -- The end of one field moved to the beginning of the next one.
  abbrev pub moved : JEntry Value → Text → Text → Text → JEntry Value
  moved e a b c = record e { msg_id = a; from = b ++ (b'|' ∷ c) }

  abbrev pub unmoved : JEntry Value → Text → Text → Text → JEntry Value
  unmoved e a b c = record e { msg_id = a ++ (b'|' ∷ b); from = c }

  entry_hash-moved :
      (prev : Text) (n : ℕ) (e : JEntry Value) (a b c : Text)
      → entry_hash mac show to_json prev n (request_of mac show to_json (unmoved e a b c))
        ≡ entry_hash mac show to_json prev n (request_of mac show to_json (moved e a b c))
  unfolding entry_hash canonical
  entry_hash-moved prev n e a b c = simp append_assoc

  verify_from-moved :
      (prev : Text) (n : ℕ) (e : JEntry Value) (a b c : Text) (rest : List (Line Value))
      → verify_from mac show to_json prev n (entry (unmoved e a b c) ∷ rest)
        ≡ verify_from mac show to_json prev n (entry (moved e a b c) ∷ rest)
  unfolding verify_from
  verify_from-moved prev n e a b c rest = rw (entry_hash-moved prev e.seq e a b c) refl

  verify_from-moved_behind :
      (prev : Text) (n : ℕ) (before : List (Line Value)) (e : JEntry Value) (a b c : Text)
      (rest : List (Line Value))
      → verify_from mac show to_json prev n (before ++ (entry (unmoved e a b c) ∷ rest))
        ≡ verify_from mac show to_json prev n (before ++ (entry (moved e a b c) ∷ rest))
  unfolding verify_from
  verify_from-moved_behind prev n [] e a b c rest = verify_from-moved prev n e a b c rest
  verify_from-moved_behind prev n (blank ∷ ls) e a b c rest =
      verify_from-moved_behind prev n ls e a b c rest
  verify_from-moved_behind prev n (malformed ∷ ls) e a b c rest = refl
  verify_from-moved_behind prev n (entry f ∷ ls) e a b c rest =
      rw (verify_from-moved_behind f.hash (next n) ls e a b c rest) refl

  -- Verification does not see where the message id ends and the source begins: an entry that has a bar
  -- in its message id can be changed into one that has it in its source, anywhere in the file.
  pub verify_file-moved :
      (before : List (Line Value)) (e : JEntry Value) (a b c : Text) (rest : List (Line Value))
      → verify_file mac show to_json (before ++ (entry (unmoved e a b c) ∷ rest))
        ≡ verify_file mac show to_json (before ++ (entry (moved e a b c) ∷ rest))
  unfolding verify_file
  verify_file-moved before e a b c rest = verify_from-moved_behind [] 1 before e a b c rest
