-- ===== src/Journal/Examples.antt =====
-- A journal of two entries, with a toy function in place of the HMAC.
use devit.Prelude.{ℕ, ◌≡◌, refl, ◌+◌, true, false, some, List, [], ◌∷◌, ◌++◌, arith}
use devit.Text.{Text, text}
use devit.Journal.{JEntry, Line, entry, Journal, opened, Request, append, verify_file}
use devit.Journal.Chain.{
  Reaches, start, step, append-opened, append_failed, moved, unmoved, verify_file-moved,
}

-- The sum of the characters, as a text of one character.
abbrev mac : Text → Text
mac s = sum s ∷ []
  where
    sum : Text → ℕ
    sum [] = 0
    sum (c ∷ t) = c + sum t

abbrev show : ℕ → Text
show n = n ∷ []

abbrev to_json : Text → Text
to_json t = t

abbrev delegate : Request Text
delegate = record {
  ts = 10;
  event = text "DELEGATE";
  msg_id = text "task-123";
  from = text "client:smart";
  to = text "worker:code";
  meta = text "{}";
}

abbrev notify : Request Text
notify = record delegate { event = text "NOTIFY" }

abbrev first : Journal × List (Line Text)
first = (append mac show to_json true delegate (opened, [])).1

abbrev second : Journal × List (Line Text)
second = (append mac show to_json true notify first).1

second_Reaches : Reaches mac show to_json second.0 second.1
second_Reaches = step notify (step delegate start)

second_seq : second.0.seq ≡ 2
unfolding append devit.Journal.new_entry
second_seq = refl

append-opened_example :
    verify_file mac show to_json (append mac show to_json true delegate (opened, second.1)).1.1
    ≡ some false
append-opened_example =
    append-opened mac show to_json second.0 second.1 delegate second_Reaches
      (omega (arith, second_seq)) (omega (arith, second_seq))

append_failed_example :
    verify_file mac show to_json
      (append mac show to_json true notify
        (append mac show to_json false delegate (second.0, second.1)).1).1.1
    ≡ some false
append_failed_example =
    append_failed mac show to_json second.0 second.1 delegate notify second_Reaches
      (omega (arith, second_seq))

abbrev an_entry : JEntry Text
an_entry = record {
  seq = 3;
  ts = 11;
  ev = text "ACK";
  msg_id = [];
  from = [];
  to = text "worker:code";
  meta = text "{}";
  prev = second.0.last_hash;
  hash = text "h";
}

verify_file-moved_example :
    verify_file mac show to_json (
      second.1
      ++ (entry (unmoved mac show to_json an_entry (text "task") (text "client") (text "x")) ∷ []))
    ≡ verify_file mac show to_json (
        second.1
        ++ (entry (moved mac show to_json an_entry (text "task") (text "client") (text "x")) ∷ []))
verify_file-moved_example =
    verify_file-moved mac show to_json second.1 an_entry (text "task") (text "client") (text "x") []
