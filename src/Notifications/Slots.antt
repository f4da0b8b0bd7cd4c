-- ===== src/Notifications/Slots.antt =====
-- The slot of a notification, its user, its booking and its type: uq_notifications_user_booking_type.
use bodhrik_fullstack_assess.Common.{
  ◌≡◌, refl, true, false, none, List, [], ◌∷◌, ◌++◌, arith, any, any-append,
}
use bodhrik_fullstack_assess.Common.Separate.{Separate, append-Separate}
use bodhrik_fullstack_assess.Models.{Notification}
use bodhrik_fullstack_assess.Models.Constraints.{same_slot}

-- No two notifications of the table hold one slot.
abbrev pub IsDeduplicated : List Notification → Type 0
IsDeduplicated = Separate same_slot

same_slot_sym : (n m : Notification) → same_slot n m ≡ same_slot m n
same_slot_sym n m = ground arith

-- A row whose slot is free can be added.
pub append-IsDeduplicated :
    (ns : List Notification) (n : Notification)
    → any (λ m. same_slot m n) ns ≡ false
    → IsDeduplicated ns
    → IsDeduplicated (ns ++ n ∷ [])
append-IsDeduplicated ns n = append-Separate same_slot same_slot_sym ns n

-- A row that has been added holds its slot against each later one.
pub any-append_slot :
    (ns : List Notification) (n k : Notification)
    → same_slot n k ≡ true
    → any (λ m. same_slot m k) (ns ++ n ∷ []) ≡ true
any-append_slot ns n k e = rw (any-append (λ m. same_slot m k) ns (n ∷ [])) (ground arith)

-- A row about no booking has no slot to share.
pub null_slot_free :
    (ns : List Notification) (n : Notification)
    → n.booking_id ≡ none
    → any (λ m. same_slot m n) ns ≡ false
null_slot_free [] n e = refl
null_slot_free (m ∷ ms) n e = ground (arith, null_slot_free ms n e)
