-- ===== src/Sample/Texts.antt =====
-- The Redis server of the samples meets what the tickets and the resume tokens rely on.
use secure_chess.Prelude.{String, ◌≡◌, none, List, str_eq, if◌then◌else◌, arith}
use secure_chess.Platform.TextLaws.{TextLaws}
use secure_chess.Sample.Store.{Entry, keys_api, find, without, as_text}
use secure_chess.Sample.Counters.{find_put, find-without}

pub as_text-without :
    (k j : String) (l : List (String × Entry))
    → as_text (find j (without k l)) ≡ (if str_eq k j then none else as_text (find j l))
as_text-without k j l = rw find-without (ground arith)

unfoldable pub text_laws : TextLaws keys_api
text_laws = record {
  up = λ s. s.up;
  text_at = λ s k. as_text (find k s.entries);
  set-reply = λ k v n s u. rw u;
  set-up = λ k v n s u. rw u;
  set-text = λ k v n s j u. rw (u, find_put) (ground arith);
  getdel-reply = λ k s u. rw u;
  getdel-up = λ k s u. rw u;
  getdel-text = λ k s j u. simp u (as_text-without k j s.entries);
  get-reply = λ k s u. rw u;
  get-same = λ k s u. rw u;
  delete-reply = λ k s u. (1, rw u);
  delete-up = λ k s u. rw u;
  delete-text = λ k s j u. simp u (as_text-without k j s.entries);
}
