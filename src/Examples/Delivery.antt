-- ===== src/Examples/Delivery.antt =====
-- Runs of services/delivery/.
use msa_saga_go_practical.Prelude.{
  ◌≤◌, ◌≡◌, ◌≢◌, ◌⊎◌, refl, true, none, List, [], ◌∷◌, arith, length,
}
use msa_saga_go_practical.Prelude.Int.{pos}
use msa_saga_go_practical.Prelude.Text.{text, text_eq}
use msa_saga_go_practical.Prelude.Decimal.{dashed}
use msa_saga_go_practical.Common.Events.{EventType, StockReservedEvent}
use msa_saga_go_practical.Common.Result.{ok}
use msa_saga_go_practical.Store.Table.{find}
use msa_saga_go_practical.Store.Session.{Session}
use msa_saga_go_practical.Delivery.Domain.{Delivery, new_delivery, preparing}
use msa_saga_go_practical.Delivery.Repository.{has_label, shipped_labels, status_text}
use msa_saga_go_practical.Delivery.Service.{delivery_key, handle_stock_reserved}
use msa_saga_go_practical.Delivery.Starting.{
  IsFailure, known, with_delivery, handle_stock_reserved_outcome,
}
use msa_saga_go_practical.Examples.{lossy, base, over}

abbrev earlier : Delivery
earlier = record (new_delivery 10 (pos 1) (text "a") (text "t") (text "c") (text "k")) {
  id = pos 1;
}

abbrev dock : Session (List Delivery)
dock = over (earlier ∷ [])

abbrev reserved : StockReservedEvent
reserved = record {
  base = base EventType.stock_reserved;
  order_id = pos 2;
  reservation_id = pos 3;
  quantity = pos 1;
}

new_key : known reserved dock ≡ none
unfolding find text_eq text delivery_key dashed
new_key = refl

short_key : length (delivery_key reserved) ≤ 64
unfolding text delivery_key dashed
short_key = omega arith

preparing_label : has_label shipped_labels preparing ≡ true
unfolding has_label shipped_labels status_text text_eq text
preparing_label = refl

handle_stock_reserved_outcome_example :
    let (r, s') = handle_stock_reserved shipped_labels lossy reserved dock in
    ((known reserved dock ≢ none) × (r ≡ ok tt) × (s' ≡ dock))
    ⊎ (IsFailure r × (s'.committed ≡ dock.committed))
    ⊎ ((known reserved dock ≡ none)
        × (length (delivery_key reserved) ≤ 64)
        × (has_label shipped_labels preparing ≡ true)
        × (r ≡ ok tt)
        × (s'.committed ≡ with_delivery lossy reserved dock))
handle_stock_reserved_outcome_example =
    handle_stock_reserved_outcome shipped_labels lossy reserved dock
