-- ===== src/Access/Roles.antt =====
-- What the roles may do, apart from the table.
use pulse_frix.Prelude.{
  ◌≡◌, refl, Bool, true, false, not, ◌&&◌, none, some, [], Text, nat_eq, text_eq, same_text,
}
use pulse_frix.Model.{owner, admin, viewer, other, Membership}
use pulse_frix.Access.{
  Permission, server_read, server_manage, alert_read, alert_manage, event_read, integration_manage,
  ssh_exec, user_manage, org_manage, audit_read, unlisted, role_permissions, rank, can, role_of,
}

-- What is seen of servers, alerts and events.
pub looks : Permission → Bool
looks server_read = true
looks alert_read = true
looks event_read = true
looks _ = false

-- Who belongs to the organization, and the organization itself.
pub governs : Permission → Bool
governs user_manage = true
governs org_manage = true
governs _ = false

pub is_listed : Permission → Bool
is_listed (unlisted _) = false
is_listed _ = true

-- A viewer may look, and do nothing else; an admin may do everything on the list but govern; an owner
-- may do everything on the list; and a role that is none of the three may do nothing. A principal
-- without a membership, or with an empty role, is a viewer.
pub roles_are_ordered :
    (p : Permission)
    → (can viewer p ≡ looks p)
      × (can admin p ≡ is_listed p && not (governs p))
      × (can owner p ≡ is_listed p)
      × ((s : Text) → can (other s) p ≡ false)
      × (can (role_of none) p ≡ looks p)
      × ((mem : Membership) → mem.role ≡ other [] → can (role_of (some mem)) p ≡ looks p)
unfolding can role_permissions rank looks governs is_listed role_of same_text
roles_are_ordered server_read = (refl, refl, refl, λ s. refl, refl, λ mem e. rw e refl)
roles_are_ordered server_manage = (refl, refl, refl, λ s. refl, refl, λ mem e. rw e refl)
roles_are_ordered alert_read = (refl, refl, refl, λ s. refl, refl, λ mem e. rw e refl)
roles_are_ordered alert_manage = (refl, refl, refl, λ s. refl, refl, λ mem e. rw e refl)
roles_are_ordered event_read = (refl, refl, refl, λ s. refl, refl, λ mem e. rw e refl)
roles_are_ordered integration_manage = (refl, refl, refl, λ s. refl, refl, λ mem e. rw e refl)
roles_are_ordered ssh_exec = (refl, refl, refl, λ s. refl, refl, λ mem e. rw e refl)
roles_are_ordered user_manage = (refl, refl, refl, λ s. refl, refl, λ mem e. rw e refl)
roles_are_ordered org_manage = (refl, refl, refl, λ s. refl, refl, λ mem e. rw e refl)
roles_are_ordered audit_read = (refl, refl, refl, λ s. refl, refl, λ mem e. rw e refl)
roles_are_ordered (unlisted s) = (refl, refl, refl, λ s. refl, refl, λ mem e. rw e refl)
