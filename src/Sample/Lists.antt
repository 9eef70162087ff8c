-- ===== src/Sample/Lists.antt =====
-- The Redis server of the samples meets what the matchmaking queue relies on.
use secure_chess.Prelude.{
  suc, ◌≡◌, refl, ◌∙◌, ap, String, none, some, List, [], ◌∷◌, add_row, length, eq_refl,
}
use secure_chess.Platform.ListLaws.{ListLaws}
use secure_chess.Sample.Store.{Keys, keys_api, find, as_list, list, put_list, snoc, count_of, rest}
use secure_chess.Sample.Counters.{find-without, find_put}

pub snoc-add_row : (l : List String) (v : String) → snoc l v ≡ add_row l v
unfolding add_row
snoc-add_row [] v = refl
snoc-add_row (x ∷ l) v = ap (λ r. x ∷ r) (snoc-add_row l v)

pub count_length : (l : List String) → count_of l ≡ length l
count_length [] = refl
count_length (x ∷ l) = ap suc (count_length l)

-- a key has the list that was put there
pub items_put :
    (k : String) (l : List String) (s : Keys) → as_list (find k (put_list k l s).entries) ≡ l
items_put k [] s = rw (find-without k k s.entries, eq_refl k) refl
items_put k (x ∷ l) s = rw (find_put k k (list (x ∷ l), none) s.entries, eq_refl k) refl

pub up_put : (k : String) (l : List String) (s : Keys) → (put_list k l s).up ≡ s.up
up_put k [] s = refl
up_put k (x ∷ l) s = refl

unfoldable pub list_laws : ListLaws keys_api
list_laws = record {
  up = λ s. s.up;
  items = λ s k. as_list (find k s.entries);
  rpush-reply = λ k v s h. (count_of (snoc (as_list (find k s.entries)) v), rw h refl);
  rpush-up = λ k v s h. simp h (up_put k (snoc (as_list (find k s.entries)) v) s ∙ h);
  rpush-items = λ k v s h.
      let l : List String = as_list (find k s.entries) in
      simp h (items_put k (snoc l v) s ∙ snoc-add_row l v);
  llen-reply = λ k s h. rw h (ap some (count_length (as_list (find k s.entries))));
  llen-same = λ k s h. rw h refl;
  lpop-reply = λ k x y l s h e. rw (h, e) refl;
  lpop-items =
      λ k x y l s h e. simp h (items_put k (rest 2 (as_list (find k s.entries))) s ∙ ap (rest 2) e);
}
