-- ===== src/ListApi.antt =====
-- The kernel list of list.h, a third-party header, by the calls that packet_queue.c makes: an
-- interface with the documented behaviour as its laws. `entries` is the list from head to tail.
use omxtranscode.Base.{◌≡◌, Bool, true, false, List, [], ◌∷◌, ◌++◌}

pub record ListApi (E : Type 0) : Type 1 where
  pub Head : Type 0
  pub entries : Head → List E
  pub init_list_head : Head
  pub list_empty : Head → Bool
  -- `list_entry (head->next)`
  pub next_entry : Head → E
  pub list_add_tail : E → Head → Head
  pub list_del : E → Head → Head
  -- the entries that the loop visits while its body deletes the current one
  pub list_for_each_safe : Head → List E
  pub entries-init : entries init_list_head ≡ []
  pub list_empty-nil : (h : Head) → entries h ≡ [] → list_empty h ≡ true
  pub list_empty-cons : (h : Head) (e : E) (es : List E) → entries h ≡ e ∷ es → list_empty h ≡ false
  pub next_entry-cons : (h : Head) (e : E) (es : List E) → entries h ≡ e ∷ es → next_entry h ≡ e
  pub entries-add_tail : (e : E) (h : Head) → entries (list_add_tail e h) ≡ entries h ++ e ∷ []
  pub entries-del_first :
      (h : Head) (e : E) (es : List E) → entries h ≡ e ∷ es → entries (list_del e h) ≡ es
  pub for_each-entries : (h : Head) → list_for_each_safe h ≡ entries h
