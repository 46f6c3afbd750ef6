-- ===== src/Notifications.antt =====
-- backend/src/modules/notifications/notification.service.ts: the table of notifications. Titles,
-- bodies, categories and links are left out. A `relatedEntityId` text is the list of the parts that
-- it is made from.
pub mod Delivery
use biz_pilot_ai.Prelude.{
  ℕ, suc, Bool, true, false, ◌&&◌, Option, none, some, List, [], ◌∷◌, ◌++◌, ◌==◌, opt_eq,
  find_first, update_many, count,
}
use biz_pilot_ai.Errors.{app, not_found_error}
use biz_pilot_ai.Effects.{ok, err, M}

pub data NotificationType : Type 0 where
  workflow_completed workflow_failed workflow_retrying : NotificationType
  scheduled_workflow_completed onboarding_reminder payment_failed : NotificationType
  subscription_changed subscription_canceled subscription_reactivated : NotificationType
  invitation_received invitation_accepted : NotificationType

abbrev pub type_index : NotificationType → ℕ
type_index workflow_completed = 0
type_index workflow_failed = 1
type_index workflow_retrying = 2
type_index scheduled_workflow_completed = 3
type_index onboarding_reminder = 4
type_index payment_failed = 5
type_index subscription_changed = 6
type_index subscription_canceled = 7
type_index subscription_reactivated = 8
type_index invitation_received = 9
type_index invitation_accepted = 10

pub record CreateNotificationInput : Type 0 where
  pub workspace_id : Option ℕ
  pub recipient_user_id : ℕ
  pub type : NotificationType
  pub related_entity_id : Option (List ℕ)

pub record Notification : Type 0 where
  pub id : ℕ
  pub workspace_id : Option ℕ
  pub recipient_user_id : ℕ
  pub type : NotificationType
  pub related_entity_id : Option (List ℕ)
  pub sent_at : ℕ
  pub read_at : Option ℕ

pub record Mailbox : Type 0 where
  pub rows : List Notification
  pub next_id : ℕ

abbrev pub parts_eq : List ℕ → List ℕ → Bool
parts_eq [] [] = true
parts_eq [] (_ ∷ _) = false
parts_eq (_ ∷ _) [] = false
parts_eq (a ∷ rest) (b ∷ more) = a == b && parts_eq rest more

-- Columns in a unique index: two nulls are not equal there.
abbrev pub key_eq : Option ℕ → Option ℕ → Bool
key_eq (some a) (some b) = a == b
key_eq _ _ = false

abbrev pub entity_eq : Option (List ℕ) → Option (List ℕ) → Bool
entity_eq (some a) (some b) = parts_eq a b
entity_eq _ _ = false

-- The unique constraint on (workspaceId, type, relatedEntityId).
unfoldable pub conflicts : CreateNotificationInput → Notification → Bool
conflicts input n =
    key_eq n.workspace_id input.workspace_id
    && (type_index n.type == type_index input.type
        && entity_eq n.related_entity_id input.related_entity_id)

-- On a conflict the row that is there is returned. Such a row has a workspace, so the error is never
-- thrown on.
unfoldable pub create_notification :
    CreateNotificationInput → ℕ → Mailbox → (Notification × Bool) × Mailbox
create_notification input now box = elim (find_first (conflicts input) box.rows) [
  | some existing ↦ ((existing, false), box)
  | none ↦
      let row : Notification = record {
        id = box.next_id;
        workspace_id = input.workspace_id;
        recipient_user_id = input.recipient_user_id;
        type = input.type;
        related_entity_id = input.related_entity_id;
        sent_at = now;
        read_at = none;
      } in
      ((row, true), record { rows = box.rows ++ row ∷ []; next_id = suc box.next_id })
]

abbrev pub is_none : Option ℕ → Bool
is_none none = true
is_none (some _) = false

-- `undefined` in a `where` is no condition.
abbrev pub in_workspace : Option ℕ → Notification → Bool
in_workspace none n = true
in_workspace (some w) n = opt_eq n.workspace_id w

abbrev pub unread_of : ℕ → Option ℕ → Notification → Bool
unread_of user workspace n =
    n.recipient_user_id == user && (in_workspace workspace n && is_none n.read_at)

unfoldable pub get_unread_count : ℕ → Option ℕ → Mailbox → ℕ
get_unread_count user workspace box = count (unread_of user workspace) box.rows

abbrev pub owned_by : ℕ → ℕ → Notification → Bool
owned_by id user n = n.id == id && n.recipient_user_id == user

abbrev pub stamp : ℕ → Notification → Notification
stamp now n = record n { read_at = some now }

abbrev pub has_id : ℕ → Notification → Bool
has_id id n = n.id == id

abbrev pub mark_found : Option ℕ → Notification → ℕ → M Mailbox Notification
mark_found (some at) n now box = (ok n, box)
mark_found none n now box =
    (ok (stamp now n), record box { rows = update_many (has_id n.id) (stamp now) box.rows })

unfoldable pub mark_read : ℕ → ℕ → ℕ → M Mailbox Notification
mark_read id user now box = elim (find_first (owned_by id user) box.rows) [
  | none ↦ (err (app not_found_error), box)
  | some n ↦ mark_found n.read_at n now box
]

unfoldable pub mark_all_read : ℕ → Option ℕ → ℕ → Mailbox → ℕ × Mailbox
mark_all_read user workspace now box = (
  count (unread_of user workspace) box.rows,
  record box { rows = update_many (unread_of user workspace) (stamp now) box.rows },
)
