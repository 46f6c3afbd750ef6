-- ===== src/Notifications/Delivery.antt =====
-- backend/src/modules/notifications/notification.service.ts: one notification for one event.
use biz_pilot_ai.Prelude.{
  ℕ, suc, ◌++◌, true, false, ==_refl, none, some, List, [], ◌∷◌, ◌≡◌, refl, inl, inr, Option-cases,
  find_first, find_first-append_one,
}
use biz_pilot_ai.Notifications.{
  CreateNotificationInput, Notification, Mailbox, conflicts, create_notification, parts_eq,
  type_index,
}

parts_eq_refl : (parts : List ℕ) → parts_eq parts parts ≡ true
parts_eq_refl [] = refl
parts_eq_refl (a ∷ rest) = rw (==_refl a, parts_eq_refl rest) refl

abbrev row_of : CreateNotificationInput → ℕ → ℕ → Notification
row_of input id now = record {
  id = id;
  workspace_id = input.workspace_id;
  recipient_user_id = input.recipient_user_id;
  type = input.type;
  related_entity_id = input.related_entity_id;
  sent_at = now;
  read_at = none;
}

conflicts-own :
    (input : CreateNotificationInput) (w : ℕ) (parts : List ℕ) (id now : ℕ)
    → input.workspace_id ≡ some w
    → input.related_entity_id ≡ some parts
    → conflicts input (row_of input id now) ≡ true
unfolding conflicts
conflicts-own input w parts id now e f =
    rw (e, f, ==_refl w, parts_eq_refl parts, ==_refl (type_index input.type)) refl

delivered :
    (input : CreateNotificationInput) (now : ℕ) (box : Mailbox) {n : Notification}
    → find_first (conflicts input) box.rows ≡ some n
    → create_notification input now box ≡ ((n, false), box)
unfolding create_notification
delivered input now box e = rw (e, create_notification) refl

inserted :
    (input : CreateNotificationInput) (now : ℕ) (box : Mailbox)
    → find_first (conflicts input) box.rows ≡ none
    → create_notification input now box ≡ (
      (row_of input box.next_id now, true),
      record { rows = box.rows ++ row_of input box.next_id now ∷ []; next_id = suc box.next_id },
    )
unfolding create_notification
inserted input now box e = rw (e, create_notification) refl

-- A notification about an event of a workspace that was delivered once is not delivered again: a
-- further request with the same content, whenever it comes, returns the row that the first one
-- returned, says that it is not new, and changes nothing.
pub create_notification_once :
    (input : CreateNotificationInput) (w : ℕ) (parts : List ℕ) (now later : ℕ) (box : Mailbox)
    → input.workspace_id ≡ some w
    → input.related_entity_id ≡ some parts
    → create_notification input later (create_notification input now box).1
      ≡ (((create_notification input now box).0.0, false), (create_notification input now box).1)
create_notification_once input w parts now later box e f =
    elim (Option-cases (find_first (conflicts input) box.rows)) [
      | inr (n, found) ↦ rw (delivered input now box found) (delivered input later box found)
      | inl missing ↦ rw (inserted input now box missing) (
          delivered input later
            (record {
              rows = box.rows ++ row_of input box.next_id now ∷ [];
              next_id = suc box.next_id;
            })
            (find_first-append_one (conflicts input) box.rows (row_of input box.next_id now) missing
              (conflicts-own input w parts box.next_id now e f)))
    ]
