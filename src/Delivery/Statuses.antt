-- ===== src/Delivery/Statuses.antt =====
-- The statuses of services/delivery/internal/domain/delivery.go against the labels of
-- scripts/init-delivery-db.sql.
use msa_saga_go_practical.Prelude.{◌≡◌, ◌↔◌, ◌⊎◌, true, refl, inl, inr}
use msa_saga_go_practical.Prelude.Text.{text, text_eq}
use msa_saga_go_practical.Delivery.Domain.{DeliveryStatus, preparing, shipped, delivered, cancelled}
use msa_saga_go_practical.Delivery.Repository.{has_label, shipped_labels, status_text}

-- The column of scripts/init-delivery-db.sql holds PREPARING and DELIVERED, and no other status of
-- the domain: a delivery can be neither SHIPPED nor CANCELLED.
storable_statuses :
    (status : DeliveryStatus)
    → (has_label shipped_labels status ≡ true) ↔ ((status ≡ preparing) ⊎ (status ≡ delivered))
unfolding has_label shipped_labels status_text text_eq text
storable_statuses preparing = ((λ h. inl refl), λ h. refl)
storable_statuses shipped = ((λ h. cc), λ h. elim h [ inl e ↦ cc | inr e ↦ cc ])
storable_statuses delivered = ((λ h. inr refl), λ h. refl)
storable_statuses cancelled = ((λ h. cc), λ h. elim h [ inl e ↦ cc | inr e ↦ cc ])
